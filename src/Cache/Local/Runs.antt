-- ===== src/Cache/Local/Runs.antt =====
-- Sequences of calls of the process-local cache (core/local_cache.py).
use lkm_service.Prelude.Dict.{lookup, remove, Dict, lookup-remove}
use lkm_service.Cache.Local.Laws.{
  IsBounded, get_at-IsBounded, multi_get-IsBounded, lookup-last, set-IsBounded, fill-IsBounded,
  delete-IsBounded,
}
use lkm_service.Prelude.{
  Option, String, [], ℕ, List, text_key, ◌≡◌, ltb, ◌∷◌, inr, arith, nat_key, ◌++◌, Option-cases,
  ◌+◌, none, some, inl, false, ◌<◌, leb, refl, ◌≤◌, Bool-cases, ◌∙◌, length, eqb_self,
}
use lkm_service.Cache.Local.{
  Cache, evict, l1_set_if_unchanged, l1_multi_get, l1_get, get_at, l1_set, l1_delete, l1_clear,
  reset,
}

-- A call, with the readings of the clock that it makes.
pub data Op (V : Type 0) : Type 0 where
  get : String → ℕ → Op V
  multi_get : List String → ℕ → Op V
  set : String → Option V → ℕ → ℕ → Op V
  fill : String → Option V → ℕ → ℕ → ℕ → ℕ → Op V
  delete : String → Op V
  clear : Op V
  reset_to : ℕ → Op V

module _ {V : Type 0} where
  abbrev pub run : Op V → Cache V → Cache V
  run (get k now) c = (l1_get k now c).1
  run (multi_get ks now) c = (l1_multi_get ks now c).1
  run (set k v ttl now) c = l1_set k v ttl now c
  run (fill k v ttl revision now later) c = (l1_set_if_unchanged k v ttl revision now later c).1
  run (delete k) c = l1_delete k c
  run clear c = l1_clear c
  run (reset_to n) c = reset n c

  abbrev pub run_all : List (Op V) → Cache V → Cache V
  run_all [] c = c
  run_all (op ∷ ops) c = run_all ops (run op c)

  run-IsBounded : (op : Op V) (c : Cache V) → IsBounded c → IsBounded (run op c)
  unfolding l1_get l1_clear reset
  run-IsBounded (get k now) c b = get_at-IsBounded k now c b
  run-IsBounded (multi_get ks now) c b = multi_get-IsBounded ks now c b
  run-IsBounded (set k v ttl now) c b = set-IsBounded k v ttl now c b
  run-IsBounded (fill k v ttl revision now later) c b =
      fill-IsBounded k v ttl revision now later c b
  run-IsBounded (delete k) c b = delete-IsBounded k c b
  run-IsBounded clear c b = record { small = omega arith; room = b.room; keyed = tt }
  run-IsBounded (reset_to n) c b = record { small = omega arith; room = ground arith; keyed = tt }

  -- Any calls in any order leave at most `maxsize` entries, under distinct keys, if they start
  -- from such a cache.
  pub run_all-IsBounded :
      (ops : List (Op V)) (c : Cache V) → IsBounded c → IsBounded (run_all ops c)
  run_all-IsBounded [] c b = b
  run_all-IsBounded (op ∷ ops) c b = run_all-IsBounded ops (run op c) (run-IsBounded op c b)

  get_at-revision : (k : String) (now : ℕ) (c : Cache V) → (get_at k now c).1.revision ≡ c.revision
  unfolding get_at
  get_at-revision k now c = elim (Option-cases (lookup k c.entries)) [
    | inl e ↦ rw (e, get_at)
    | inr (item, e) ↦ elim (Bool-cases (leb item.0 now)) [
      | inl late ↦ rw (e, get_at) (rw late)
      | inr live ↦ rw (e, get_at) (rw live)
    ]
  ]

  multi_get-revision :
      (ks : List String) (now : ℕ) (c : Cache V) → (l1_multi_get ks now c).1.revision ≡ c.revision
  unfolding l1_multi_get
  multi_get-revision [] now c = refl
  multi_get-revision (k ∷ ks) now c =
      multi_get-revision ks now (get_at k now c).1 ∙ get_at-revision k now c

  set-revision :
      (k : String) (v : Option V) (ttl now : ℕ) (c : Cache V)
      → c.revision ≤ (l1_set k v ttl now c).revision
  unfolding l1_set l1_delete
  set-revision k none ttl now c = omega arith
  set-revision k (some v) ttl now c = ground arith

  fill-revision :
      (k : String) (v : Option V) (ttl revision now later : ℕ) (c : Cache V)
      → c.revision ≤ (l1_set_if_unchanged k v ttl revision now later c).1.revision
  unfolding l1_set_if_unchanged
  fill-revision k v ttl revision now later c =
      ground (arith, get_at-revision k now c, set-revision k v ttl later (get_at k now c).1)

  run-revision : (op : Op V) (c : Cache V) → c.revision ≤ (run op c).revision
  unfolding l1_get l1_delete l1_clear reset
  run-revision (get k now) c = omega (arith, get_at-revision k now c)
  run-revision (multi_get ks now) c = omega (arith, multi_get-revision ks now c)
  run-revision (set k v ttl now) c = set-revision k v ttl now c
  run-revision (fill k v ttl revision now later) c = fill-revision k v ttl revision now later c
  run-revision (delete k) c = omega arith
  run-revision clear c = omega arith
  run-revision (reset_to n) c = omega arith

  run_all-revision : (ops : List (Op V)) (c : Cache V) → c.revision ≤ (run_all ops c).revision
  run_all-revision [] c = omega arith
  run_all-revision (op ∷ ops) c = omega (arith, run-revision op c, run_all-revision ops (run op c))

  refused :
      (k : String) (v : Option V) (ttl revision now later : ℕ) (c : Cache V)
      → revision < c.revision
      → l1_set_if_unchanged k v ttl revision now later c ≡ (false, c)
  unfolding l1_set_if_unchanged
  refused k v ttl revision now later c h = ground (arith, nat_key.same_iff revision c.revision)

  -- A fill whose revision was read before some key was deleted stores nothing, whatever else has
  -- been called before and after the deletion.
  pub fill_after_delete :
      (before after : List (Op V)) (k dropped : String) (v : Option V) (ttl now later : ℕ)
      (c : Cache V)
      → let c' = run_all after (l1_delete dropped (run_all before c)) in
        l1_set_if_unchanged k v ttl c.revision now later c' ≡ (false, c')
  unfolding l1_delete
  fill_after_delete before after k dropped v ttl now later c =
      let mid = run_all before c in
      let gone = record mid { entries = remove dropped mid.entries; revision = mid.revision + 1 } in
      refused k v ttl c.revision now later (run_all after gone)
        (omega (arith, run_all-revision before c, run_all-revision after gone))

  lookup-evict :
      (maxsize : ℕ) (k : String) (item : ℕ × V) (d : Dict String (ℕ × V))
      → 1 ≤ maxsize
      → lookup k d ≡ none
      → lookup k (evict maxsize (d ++ ((k, item) ∷ []))) ≡ some item
  unfolding evict lookup
  lookup-evict maxsize k item [] room h = ground (arith, eqb_self k)
  lookup-evict maxsize k item ((j, v) ∷ d) room h =
      elim (Bool-cases (ltb maxsize (length ((j, v) ∷ d ++ ((k, item) ∷ []))))) [
        | inl more ↦ rw more (lookup-evict maxsize k item d room (ground (arith, h)))
        | inr fits ↦ rw fits (ground (arith, h, lookup-last k k item d, eqb_self k))
      ]

  -- A value that was just set is read back until its deadline, however full the cache was.
  pub get-set :
      (k : String) (v : V) (ttl now later : ℕ) (c : Cache V)
      → 1 ≤ c.maxsize
      → 0 < ttl
      → later < now + ttl
      → (l1_get k later (l1_set k (some v) ttl now c)).0 ≡ some v
  unfolding l1_get get_at l1_set
  get-set k v ttl now later c room positive soon =
      let found =
        lookup-evict c.maxsize k (now + ttl, v) (remove k c.entries) room
          (lookup-remove k k c.entries ∙ rw (eqb_self k)) in
      ground (arith, found)
