-- ===== src/Cache/Bloom/Seeding.antt =====
-- A key that was added is never called absent (core/bloom.py).
use lkm_service.Prelude.{
  ℕ, ◌+◌, ◌≡◌, ◌∙◌, Bool, true, false, List, [], ◌∷◌, String, arith, ◌==◌, nat_key, text_key, All,
  length, take, contains, any-append,
}
use lkm_service.Cache.Bloom.{
  unavailable, fails, succeeds, Filter, Answer, add, set_bits, add_chunks, positions, add_many,
  all_positions, mark_seeded, fails, unmark_seeded, chunks_of, add_chunk,
}

module _ (digest : String → ℕ × ℕ) (m k : ℕ) where
  -- Every bit of the key is set.
  abbrev pub IsHeld : Filter → String → Type 0
  IsHeld f key = All (λ p. contains p f.bits ≡ true) (positions digest m k key)

  -- No bit is ever cleared.
  pub record Grows (f g : Filter) : Type 0 where
    pub kept : (p : ℕ) → contains p f.bits ≡ true → contains p g.bits ≡ true

  pub set_bits-Grows : (l : List ℕ) (f : Filter) → Grows f (set_bits l f)
  set_bits-Grows l f = record {
    kept = λ p h. any-append (λ x. x == p) l f.bits ∙ ground (arith, h);
  }

  trans-Grows : (f g h : Filter) → Grows f g → Grows g h → Grows f h
  trans-Grows f g h p q = record { kept = λ x r. q.kept x (p.kept x r) }

  pub all_held :
      (l : List ℕ) (f g : Filter)
      → Grows f g
      → All (λ p. contains p f.bits ≡ true) l
      → All (λ p. contains p g.bits ≡ true) l
  all_held [] f g h a = tt
  all_held (p ∷ l) f g h a = (h.kept p a.0, all_held l f g h a.1)

  pub Grows-IsHeld : (f g : Filter) (key : String) → Grows f g → IsHeld f key → IsHeld g key
  Grows-IsHeld f g key h a = all_held (positions digest m k key) f g h a

  pub add_chunks-Grows :
      (answers : List Answer) (chunks : List (List String)) (written : ℕ) (f : Filter)
      → Grows f (add_chunks digest m k answers chunks written f).1
  unfolding add_chunks
  add_chunks-Grows answers [] written f = record { kept = λ p h. h }
  add_chunks-Grows [] (chunk ∷ chunks) written f = record { kept = λ p h. h }
  add_chunks-Grows (succeeds ∷ answers) (chunk ∷ chunks) written f =
      let g = set_bits (all_positions digest m k chunk) f in
      trans-Grows f g (add_chunks digest m k answers chunks (written + length chunk) g).1
        (set_bits-Grows (all_positions digest m k chunk) f)
        (add_chunks-Grows answers chunks (written + length chunk) g)
  add_chunks-Grows (fails n ∷ answers) (chunk ∷ chunks) written f =
      set_bits-Grows (take n (all_positions digest m k chunk)) f
  add_chunks-Grows (unavailable ∷ answers) (chunk ∷ chunks) written f = record { kept = λ p h. h }

  -- A change of the bitmap by any process.
  pub data Step : Filter → Filter → Type 0 where
    added : (answer : Answer) (key : String) (f : Filter) → Step f (add digest m k answer key f).1
    added_many :
        (available : Bool) (answers : List Answer) (keys : List String) (f : Filter)
        → Step f (add_many digest m k available answers keys f).1
    marked : (answer : Answer) (ttl now : ℕ) (f : Filter) → Step f (mark_seeded answer ttl now f).1
    unmarked : (answer : Answer) (f : Filter) → Step f (unmark_seeded answer f).1

  pub data Steps : Filter → Filter → Type 0 where
    done : (f : Filter) → Steps f f
    next : (f g h : Filter) → Step f g → Steps g h → Steps f h

  Step-Grows : (f g : Filter) → Step f g → Grows f g
  unfolding add add_many mark_seeded unmark_seeded
  Step-Grows f g (added unavailable key _) = record { kept = λ p h. h }
  Step-Grows f g (added (fails n) key _) = set_bits-Grows (take n (positions digest m k key)) f
  Step-Grows f g (added succeeds key _) = set_bits-Grows (positions digest m k key) f
  Step-Grows f g (added_many true answers keys _) =
      add_chunks-Grows answers (chunks_of digest m k (length keys) add_chunk keys) 0 f
  Step-Grows f g (added_many false answers keys _) = record { kept = λ p h. h }
  Step-Grows f g (marked unavailable ttl now _) = record { kept = λ p h. h }
  Step-Grows f g (marked (fails n) ttl now _) = record { kept = λ p h. h }
  Step-Grows f g (marked succeeds ttl now _) = record { kept = λ p h. h }
  Step-Grows f g (unmarked unavailable _) = record { kept = λ p h. h }
  Step-Grows f g (unmarked (fails n) _) = record { kept = λ p h. h }
  Step-Grows f g (unmarked succeeds _) = record { kept = λ p h. h }

  pub Steps-Grows : (f g : Filter) → Steps f g → Grows f g
  Steps-Grows f g (done _) = record { kept = λ p h. h }
  Steps-Grows f g (next _ mid _ first rest) =
      trans-Grows f mid g (Step-Grows f mid first) (Steps-Grows mid g rest)
