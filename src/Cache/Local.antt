-- ===== src/Cache/Local.antt =====
-- The process-local cache (core/local_cache.py): bounded, with a deadline on each entry, and the
-- least recently used entry first. The clock is an argument. A time to live is a natural number:
-- a negative one is treated as 0 is.
pub mod Laws
pub mod Runs
mod Tests
use lkm_service.Prelude.{
  refl, zero, arith, List, contains, length, if◌then◌else◌, ◌==◌, ℕ, ◌+◌, ◌-◌, ◌≢◌, ◌≤◌, map, min,
  inl, true, leb, take, ◌<◌, is_some, ltb, none, false, Option, All, keep, Option-cases, suc, ◌||◌,
  ap, ◌↔◌, ◌⊎◌, nat_key, drop, ◌≡◌, not, [], some, Bool-cases, any, ◌++◌, inr, ◌&&◌, String, all,
  Bool, ◌∷◌, max, subst, ◌∙◌, text_key, sym, ◌*◌,
}
use lkm_service.Prelude.Dict.{Dict, lookup, remove}

-- `_data`, oldest use first, with `_maxsize` and `_invalidation_revision`.
pub record Cache (V : Type 0) : Type 0 where
  pub entries : Dict String (ℕ × V)
  pub maxsize : ℕ
  pub revision : ℕ

module _ {V : Type 0} where
  -- `_data[key] = item; _data.move_to_end(key)`.
  abbrev pub put_last : String → ℕ × V → Dict String (ℕ × V) → Dict String (ℕ × V)
  put_last key item d = remove key d ++ ((key, item) ∷ [])

  -- An entry at its deadline is dropped; a live one becomes the most recent.
  unfoldable pub get_at : String → ℕ → Cache V → Option V × Cache V
  get_at key now c = elim (lookup key c.entries) [
    | none ↦ (none, c)
    | some item ↦
        if leb item.0 now
        then (none, record c { entries = remove key c.entries })
        else (some item.1, record c { entries = put_last key item c.entries })
  ]

  unfoldable pub l1_get : String → ℕ → Cache V → Option V × Cache V
  l1_get key now c = get_at key now c

  -- Every key at one reading of the clock, in order.
  unfoldable pub l1_multi_get : List String → ℕ → Cache V → List (Option V) × Cache V
  l1_multi_get [] now c = ([], c)
  l1_multi_get (key ∷ keys) now c =
      let (hit, c') = get_at key now c in
      let (hits, c'') = l1_multi_get keys now c' in (hit ∷ hits, c'')

  unfoldable pub l1_delete : String → Cache V → Cache V
  l1_delete key c = record c { entries = remove key c.entries; revision = c.revision + 1 }

  unfoldable pub l1_clear : Cache V → Cache V
  l1_clear c = record c { entries = []; revision = c.revision + 1 }

  -- `while len(_data) > _maxsize: _data.popitem(last=False)`.
  unfoldable pub evict : ℕ → Dict String (ℕ × V) → Dict String (ℕ × V)
  evict maxsize [] = []
  evict maxsize (e ∷ d) =
      let rest = evict maxsize d in if ltb maxsize (length (e ∷ d)) then rest else e ∷ d

  unfoldable pub l1_set : String → Option V → ℕ → ℕ → Cache V → Cache V
  l1_set key none ttl now c = l1_delete key c
  l1_set key (some value) ttl now c =
      if ttl == 0
      then l1_delete key c
      else record c { entries = evict c.maxsize (put_last key (now + ttl, value) c.entries) }

  -- The fill after a read of the second level: `revision` was read before it.
  unfoldable pub l1_set_if_unchanged : String → Option V → ℕ → ℕ → ℕ → ℕ → Cache V → Bool × Cache V
  l1_set_if_unchanged key value ttl revision now later c =
      if ttl == 0 || (not (is_some value) || not (revision == c.revision))
      then (false, c)
      else (let (hit, c') = get_at key now c in
          if is_some hit then (false, c') else (true, l1_set key value ttl later c'))

  abbrev pub l1_size : Cache V → ℕ
  l1_size c = length c.entries

  unfoldable pub reset : ℕ → Cache V → Cache V
  reset size c = record { entries = []; maxsize = max 1 size; revision = c.revision + 1 }
