-- ===== src/Cache/Bloom/Absent.antt =====
-- The batch answer of the filter, key by key (`definitely_absent_many` of core/bloom.py).
use lkm_service.Prelude.{
  ℕ, zero, suc, ◌+◌, ◌*◌, ◌≡◌, refl, sym, ap, ◌∙◌, Bool, true, not, List, [], ◌∷◌, ◌++◌, map,
  String, arith, nat_key, text_key, any, keep, length, take, drop, contains, length-append,
}
use lkm_service.Cache.Bloom.{
  Filter, bits_of, absent_from, definitely_absent_many, rounds_from, is_seeded, all_bits, slice_at,
  succeeds,
}

drop-append : {A : Type 0} (n : ℕ) (p q : List A) → n ≡ length p → drop n (p ++ q) ≡ q
drop-append zero [] q h = refl
drop-append zero (x ∷ p) q h = absurd (omega (arith, h))
drop-append (suc n) [] q h = absurd (omega (arith, h))
drop-append (suc n) (x ∷ p) q h = drop-append n p q (omega (arith, h))

take-append : {A : Type 0} (n : ℕ) (p q : List A) → n ≡ length p → take n (p ++ q) ≡ p
take-append zero [] q h = refl
take-append zero (x ∷ p) q h = absurd (omega (arith, h))
take-append (suc n) [] q h = absurd (omega (arith, h))
take-append (suc n) (x ∷ p) q h = ap (λ l. x ∷ l) (take-append n p q (omega (arith, h)))

append_assoc : {A : Type 0} (p q r : List A) → (p ++ q) ++ r ≡ p ++ (q ++ r)
append_assoc [] q r = refl
append_assoc (x ∷ p) q r = ap (λ l. x ∷ l) (append_assoc p q r)

module _ (digest : String → ℕ × ℕ) (m k : ℕ) where
  length-bits :
      (f : Filter) (i n : ℕ) (key : String)
      → length (map (λ p. contains p f.bits) (rounds_from digest m k i n key)) ≡ n
  unfolding rounds_from
  length-bits f i zero key = refl
  length-bits f i (suc n) key = omega (arith, length-bits f (i + 1) n key)

  -- The filter holds a bit of the key at 0.
  abbrev pub misses : Filter → String → Bool
  misses f key = any not (bits_of digest m k f key)

  slices :
      (f : Filter) (i : ℕ) (keys : List String) (before : List Bool)
      → i * k ≡ length before
      → absent_from digest m k i keys (before ++ all_bits digest m k f keys) ≡ keep (misses f) keys
  unfolding absent_from
  slices f i [] before h = refl
  slices f i (key ∷ keys) before h =
      let own = bits_of digest m k f key in
      let rest = all_bits digest m k f keys in
      let own_length = length-bits f 0 k key in
      let here : slice_at digest m k i (before ++ (own ++ rest)) ≡ own =
        ap (take k) (drop-append (i * k) before (own ++ rest) h)
        ∙ take-append k own rest (sym own_length) in
      let later =
        slices f (i + 1) keys (before ++ own)
          (omega (arith, h, own_length, length-append before own)) in
      let later_too =
        ap (absent_from digest m k (i + 1) keys) (sym (append_assoc before own rest)) ∙ later in
      rw (here, later_too)

  -- Where the filter answers and is seeded, the batch says of each key what its own bits say: a key
  -- is absent exactly if one of them is 0.
  pub definitely_absent_many-misses :
      (now : ℕ) (keys : List String) (f : Filter)
      → is_seeded digest m k now f ≡ true
      → definitely_absent_many digest m k succeeds now keys f ≡ keep (misses f) keys
  unfolding definitely_absent_many
  definitely_absent_many-misses now keys f h = rw h (slices f 0 keys [] (omega arith))
