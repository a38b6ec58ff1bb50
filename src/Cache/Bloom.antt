-- ===== src/Cache/Bloom.antt =====
-- The filter of user ids (core/bloom.py). The digest of a key is a parameter, two numbers of 64
-- bits; so are the size of the bitmap and the number of rounds, which the settings give
-- (`_params`). What Redis answers to a call is an argument.
pub mod Absent
pub mod Seeding
pub mod Held
mod Tests
use lkm_service.Prelude.{
  ℕ, zero, suc, ◌+◌, ◌-◌, ◌*◌, ◌≤◌, ◌<◌, ◌≡◌, refl, sym, ap, ◌∙◌, subst, ◌≢◌, ◌↔◌, ◌⊎◌, inl, inr,
  Bool, true, false, not, ◌&&◌, ◌||◌, Option, none, some, List, [], ◌∷◌, ◌++◌, map, min, max,
  String, arith, if◌then◌else◌, ltb, leb, ◌==◌, nat_key, text_key, Bool-cases, Option-cases, All,
  any, all, keep, length, take, drop, is_some, contains, ◌%◌,
}

-- The bits that are set, and when the mark "seeded" expires.
pub record Filter : Type 0 where
  pub bits : List ℕ
  pub seeded_until : Option ℕ

-- The filter is switched off or Redis is not there; the command fails after some of its writes; it
-- succeeds.
pub data Answer : Type 0 where
  unavailable : Answer
  fails : ℕ → Answer
  succeeds : Answer

abbrev pub add_chunk : ℕ
add_chunk = 1000

abbrev pub set_bits : List ℕ → Filter → Filter
set_bits positions f = record f { bits = positions ++ f.bits }

abbrev pub odd : ℕ → ℕ
odd n = n + (1 - n % 2)

module _ (digest : String → ℕ × ℕ) (m k : ℕ) where
  abbrev pub position : String → ℕ → ℕ
  position key i = ((digest key).0 + i * odd (digest key).1) % m

  -- `range(k)`, from some round on.
  unfoldable pub rounds_from : ℕ → ℕ → String → List ℕ
  rounds_from i zero key = []
  rounds_from i (suc n) key = position key i ∷ rounds_from (i + 1) n key

  abbrev pub positions : String → List ℕ
  positions key = rounds_from 0 k key

  -- All positions of some keys, in the order of the commands.
  abbrev pub all_positions : List String → List ℕ
  all_positions [] = []
  all_positions (key ∷ keys) = positions key ++ all_positions keys

  unfoldable pub add : Answer → String → Filter → Bool × Filter
  add unavailable key f = (false, f)
  add (fails n) key f = (false, set_bits (take n (positions key)) f)
  add succeeds key f = (true, set_bits (positions key) f)

  -- The chunks in their order, each with the answer to it; stops at the first that fails.
  unfoldable pub add_chunks : List Answer → List (List String) → ℕ → Filter → ℕ × Filter
  add_chunks answers [] written f = (written, f)
  add_chunks [] (chunk ∷ chunks) written f = (written, f)
  add_chunks (succeeds ∷ answers) (chunk ∷ chunks) written f =
      add_chunks answers chunks (written + length chunk) (set_bits (all_positions chunk) f)
  add_chunks (fails n ∷ answers) (chunk ∷ chunks) written f =
      (written, set_bits (take n (all_positions chunk)) f)
  add_chunks (unavailable ∷ answers) (chunk ∷ chunks) written f = (written, f)

  -- `keys[start : start + size]` for each start, with the number of keys as fuel.
  unfoldable pub chunks_of : ℕ → ℕ → List String → List (List String)
  chunks_of fuel size [] = []
  chunks_of zero size (key ∷ keys) = []
  chunks_of (suc fuel) size (key ∷ keys) =
      take size (key ∷ keys) ∷ chunks_of fuel size (drop size (key ∷ keys))

  unfoldable pub add_many : Bool → List Answer → List String → Filter → ℕ × Filter
  add_many available answers keys f =
      if available then add_chunks answers (chunks_of (length keys) add_chunk keys) 0 f else (0, f)

  abbrev pub bits_of : Filter → String → List Bool
  bits_of f key = map (λ p. contains p f.bits) (positions key)

  abbrev pub all_bits : Filter → List String → List Bool
  all_bits f [] = []
  all_bits f (key ∷ keys) = bits_of f key ++ all_bits f keys

  unfoldable pub might_contain : Answer → String → Filter → Bool
  might_contain succeeds key f = all (λ b. b) (bits_of f key)
  might_contain _ key f = true

  -- `bits[i * k : (i + 1) * k]`.
  abbrev pub slice_at : ℕ → List Bool → List Bool
  slice_at i bits = take k (drop (i * k) bits)

  unfoldable pub absent_from : ℕ → List String → List Bool → List String
  absent_from i [] bits = []
  absent_from i (key ∷ keys) bits =
      let rest = absent_from (i + 1) keys bits in
      if any not (slice_at i bits) then key ∷ rest else rest

  abbrev pub is_seeded : ℕ → Filter → Bool
  is_seeded now f = elim f.seeded_until [ none ↦ false | some t ↦ ltb now t ]

  unfoldable pub definitely_absent_many : Answer → ℕ → List String → Filter → List String
  definitely_absent_many succeeds now keys f =
      if is_seeded now f then absent_from 0 keys (all_bits f keys) else []
  definitely_absent_many _ now keys f = []

  unfoldable pub definitely_absent : Answer → ℕ → String → Filter → Bool
  definitely_absent answer now key f = elim (definitely_absent_many answer now (key ∷ []) f) [
    | [] ↦ false
    | x ∷ l ↦ true
  ]

unfoldable pub mark_seeded : Answer → ℕ → ℕ → Filter → Bool × Filter
mark_seeded succeeds ttl now f = (true, record f { seeded_until = some (now + max 1 ttl) })
mark_seeded _ ttl now f = (false, f)

unfoldable pub unmark_seeded : Answer → Filter → Bool × Filter
unmark_seeded succeeds f = (true, record f { seeded_until = none })
unmark_seeded _ f = (false, f)
