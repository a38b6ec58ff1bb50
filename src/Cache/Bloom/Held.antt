-- ===== src/Cache/Bloom/Held.antt =====
-- What a completed write of the filter promises to every later read (core/bloom.py).
use lkm_service.Cache.Bloom.Absent.{definitely_absent_many-misses}
use lkm_service.Cache.Bloom.Seeding.{IsHeld, Grows-IsHeld, add_chunks-Grows, Steps, Steps-Grows}
use lkm_service.Prelude.{
  inr, Bool, eqb_self, [], false, List, ◌≤◌, ◌∙◌, arith, take, drop, ℕ, text_key, map, All, ◌≡◌,
  nat_key, suc, any-append, String, refl, ◌++◌, length-drop, Bool-cases, true, ◌+◌, inl, zero,
  contains, ap, ◌∷◌, length, length-append, ◌==◌, not, any,
}
use lkm_service.Cache.Bloom.{
  Filter, unavailable, fails, succeeds, set_bits, chunks_of, add_chunks, positions, Answer,
  all_positions, add_many, add, definitely_absent, add_chunk, definitely_absent_many, is_seeded,
}

flat : List (List String) → List String
flat [] = []
flat (chunk ∷ chunks) = chunk ++ flat chunks

take-drop : (n : ℕ) (l : List String) → take n l ++ drop n l ≡ l
take-drop zero l = refl
take-drop (suc n) [] = refl
take-drop (suc n) (x ∷ l) = ap (λ r. x ∷ r) (take-drop n l)

module _ (digest : String → ℕ × ℕ) (m k : ℕ) where
  flat-chunks_of :
      (fuel size : ℕ) (keys : List String)
      → length keys ≤ fuel
      → flat (chunks_of digest m k fuel (suc size) keys) ≡ keys
  unfolding chunks_of flat
  flat-chunks_of zero size [] h = refl
  flat-chunks_of (suc fuel) size [] h = refl
  flat-chunks_of zero size (key ∷ keys) h = absurd (omega (arith, h))
  flat-chunks_of (suc fuel) size (key ∷ keys) h =
      ap (λ l. key ∷ (take size keys ++ l))
        (flat-chunks_of fuel size (drop size keys) (omega (arith, h, length-drop size keys)))
      ∙ ap (λ l. key ∷ l) (take-drop size keys)

  members :
      (l bits : List ℕ)
      → ((p : ℕ) → contains p l ≡ true → contains p bits ≡ true)
      → All (λ p. contains p bits ≡ true) l
  members [] bits f = tt
  members (p ∷ l) bits f =
      (f p (ground (arith, eqb_self p)), members l bits (λ q h. f q (ground (arith, h))))

  in_all_positions :
      (keys : List String) (key : String) (p : ℕ)
      → contains key keys ≡ true
      → contains p (positions digest m k key) ≡ true
      → contains p (all_positions digest m k keys) ≡ true
  in_all_positions [] key p h q = absurd (cc h)
  in_all_positions (x ∷ keys) key p h q = elim (Bool-cases (x == key)) [
    | inl e ↦
        let same : x ≡ key = (text_key.same_iff x key).0 e in
        any-append (λ y. y == p) (positions digest m k x) (all_positions digest m k keys)
        ∙ ground (arith, rw (← same) at q)
    | inr e ↦
        any-append (λ y. y == p) (positions digest m k x) (all_positions digest m k keys)
        ∙ ground (arith, in_all_positions keys key p (ground (arith, h, e)) q)
  ]

  set_all-IsHeld :
      (keys : List String) (key : String) (f : Filter)
      → contains key keys ≡ true
      → IsHeld digest m k (set_bits (all_positions digest m k keys) f) key
  set_all-IsHeld keys key f h =
      members (positions digest m k key) (all_positions digest m k keys ++ f.bits) (λ p q.
        any-append (λ y. y == p) (all_positions digest m k keys) f.bits
        ∙ ground (arith, in_all_positions keys key p h q))

  not_stopped :
      (l : List String) (written : ℕ) (key : String)
      → contains key l ≡ true
      → written ≡ written + length l
      → ⊥
  not_stopped [] written key h c = cc h
  not_stopped (x ∷ l) written key h c = omega (arith, c)

  add_chunks-IsHeld :
      (answers : List Answer) (chunks : List (List String)) (written : ℕ) (f : Filter)
      (key : String)
      → contains key (flat chunks) ≡ true
      → (add_chunks digest m k answers chunks written f).0 ≡ written + length (flat chunks)
      → IsHeld digest m k (add_chunks digest m k answers chunks written f).1 key
  unfolding add_chunks flat
  add_chunks-IsHeld answers [] written f key h c = absurd (cc h)
  add_chunks-IsHeld [] (chunk ∷ chunks) written f key h c =
      absurd (not_stopped (chunk ++ flat chunks) written key h c)
  add_chunks-IsHeld (fails n ∷ answers) (chunk ∷ chunks) written f key h c =
      absurd (not_stopped (chunk ++ flat chunks) written key h c)
  add_chunks-IsHeld (unavailable ∷ answers) (chunk ∷ chunks) written f key h c =
      absurd (not_stopped (chunk ++ flat chunks) written key h c)
  add_chunks-IsHeld (succeeds ∷ answers) (chunk ∷ chunks) written f key h c =
      let g = set_bits (all_positions digest m k chunk) f in
      elim (Bool-cases (contains key chunk)) [
        | inl e ↦
            Grows-IsHeld digest m k g
              (add_chunks digest m k answers chunks (written + length chunk) g).1 key
              (add_chunks-Grows digest m k answers chunks (written + length chunk) g)
              (set_all-IsHeld chunk key f e)
        | inr e ↦
            add_chunks-IsHeld answers chunks (written + length chunk) g key
              (ground (arith, h, e, any-append (λ x. x == key) chunk (flat chunks)))
              (omega (arith, c, length-append chunk (flat chunks)))
      ]

  add_many-IsHeld :
      (available : Bool) (answers : List Answer) (keys : List String) (f : Filter) (key : String)
      → contains key keys ≡ true
      → (add_many digest m k available answers keys f).0 ≡ length keys
      → IsHeld digest m k (add_many digest m k available answers keys f).1 key
  unfolding add_many
  add_many-IsHeld false answers [] f key h c = absurd (cc h)
  add_many-IsHeld false answers (x ∷ keys) f key h c = absurd (omega (arith, c))
  add_many-IsHeld true answers keys f key h c =
      let whole = flat-chunks_of (length keys) 999 keys (omega arith) in
      add_chunks-IsHeld answers (chunks_of digest m k (length keys) add_chunk keys) 0 f key
        (rw whole h) (rw whole (c ∙ omega arith))

  held_bits :
      (f : Filter) (l : List ℕ)
      → All (λ p. contains p f.bits ≡ true) l
      → any not (map (λ p. contains p f.bits) l) ≡ false
  held_bits f [] h = refl
  held_bits f (p ∷ l) h = rw h.0 (held_bits f l h.1)

  not_absent :
      (answer : Answer) (now : ℕ) (key : String) (f : Filter)
      → IsHeld digest m k f key
      → definitely_absent digest m k answer now key f ≡ false
  unfolding definitely_absent definitely_absent_many
  not_absent unavailable now key f h = refl
  not_absent (fails n) now key f h = refl
  not_absent succeeds now key f h = elim (Bool-cases (is_seeded digest m k now f)) [
    | inr e ↦ rw (e, definitely_absent, definitely_absent_many)
    | inl e ↦
        let one = definitely_absent_many-misses digest m k now (key ∷ []) f e in
        rw (one, definitely_absent) (rw (held_bits f (positions digest m k key) h))
  ]

  -- A key whose addition was reported is never called absent again, whatever other processes add
  -- or mark afterwards, and whatever Redis answers.
  pub add-definitely_absent :
      (answer answer' : Answer) (now : ℕ) (key : String) (f g h : Filter)
      → add digest m k answer key f ≡ (true, g)
      → Steps digest m k g h
      → definitely_absent digest m k answer' now key h ≡ false
  unfolding add
  add-definitely_absent unavailable answer' now key f g h e later = absurd (cc e)
  add-definitely_absent (fails n) answer' now key f g h e later = absurd (cc e)
  add-definitely_absent succeeds answer' now key f g h e later =
      let same : set_bits (positions digest m k key) f ≡ g = ap (λ r. r.1) e in
      not_absent answer' now key h (
        Grows-IsHeld digest m k g h key (Steps-Grows digest m k g h later) (
          rw (← same) (
            members (positions digest m k key) (positions digest m k key ++ f.bits) (λ p q.
              any-append (λ y. y == p) (positions digest m k key) f.bits ∙ ground (arith, q)))))

  -- When a seeding reports as many keys as it was given, none of them is called absent afterwards,
  -- whatever other processes add or mark, and whatever Redis answers.
  pub add_many-definitely_absent :
      (available : Bool) (answers : List Answer) (answer' : Answer) (now : ℕ) (keys : List String)
      (key : String) (f g h : Filter)
      → add_many digest m k available answers keys f ≡ (length keys, g)
      → contains key keys ≡ true
      → Steps digest m k g h
      → definitely_absent digest m k answer' now key h ≡ false
  add_many-definitely_absent available answers answer' now keys key f g h e inside later =
      let same : (add_many digest m k available answers keys f).1 ≡ g = ap (λ r. r.1) e in
      not_absent answer' now key h (
        Grows-IsHeld digest m k g h key (Steps-Grows digest m k g h later)
          (rw (← same) (add_many-IsHeld available answers keys f key inside (ap (λ r. r.0) e))))
