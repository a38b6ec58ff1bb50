-- ===== src/Qa/Service/Count.antt =====
-- How many accepted answers a question has (app/modules/qa/repository.py).
use lkm_service.Qa.{Answer}
use lkm_service.Prelude.Dict.{insert, lookup, Dict}
use lkm_service.Qa.Service.{count_accepted, counts_for}
use lkm_service.Prelude.{
  ℕ, ◌+◌, ◌≡◌, inl, inr, Bool, true, false, none, some, [], ◌∷◌, arith, ◌==◌, nat_key, text_key,
  Bool-cases,
}

abbrev pub one_if : Bool → ℕ
one_if true = 1
one_if false = 0

pub count_insert_new :
    (k i : ℕ) (a : Answer) (d : Dict ℕ Answer)
    → lookup i d ≡ none
    → count_accepted k (insert i a d) ≡ count_accepted k d + one_if (counts_for k a)
unfolding count_accepted insert lookup
count_insert_new k i a [] h = ground arith
count_insert_new k i a ((j, b) ∷ d) h = elim (Bool-cases (j == i)) [
  | inl f ↦ absurd (cc (rw f at h))
  | inr f ↦ rw f (ground (arith, count_insert_new k i a d (rw f at h)))
]

pub count_insert_old :
    (k i : ℕ) (a b : Answer) (d : Dict ℕ Answer)
    → lookup i d ≡ some b
    → count_accepted k (insert i a d) + one_if (counts_for k b)
      ≡ count_accepted k d + one_if (counts_for k a)
unfolding count_accepted insert lookup
count_insert_old k i a b [] h = absurd (cc h)
count_insert_old k i a b ((j, c) ∷ d) h = elim (Bool-cases (j == i)) [
  | inl f ↦ let it : c ≡ b = cc (rw f at h) in rw (f, it) (ground arith)
  | inr f ↦ rw f (ground (arith, count_insert_old k i a b d (rw f at h)))
]
