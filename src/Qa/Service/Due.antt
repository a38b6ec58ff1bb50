-- ===== src/Qa/Service/Due.antt =====
-- Which rows `expired_for_update` hands out (app/modules/qa/repository.py).
use lkm_service.Prelude.Keys.{HasUniqueKeys}
use lkm_service.Prelude.Dict.{Dict, lookup}
use lkm_service.Qa.{Question}
use lkm_service.Qa.Service.{due_rows, ordered, place, comes_first, is_due}
use lkm_service.Prelude.{
  ℕ, suc, ◌≡◌, refl, ap, ◌∙◌, inl, inr, true, none, some, [], ◌∷◌, arith, if◌then◌else◌, ◌==◌,
  nat_key, text_key, Bool-cases, length, nat_eqb_iff,
}

lookup-place :
    (i k : ℕ) (q : Question) (d : Dict ℕ Question)
    → lookup i d ≡ none
    → lookup k (place (i, q) d) ≡ (if i == k then some q else lookup k d)
unfolding place lookup
lookup-place i k q [] h = refl
lookup-place i k q ((j, p) ∷ d) h = elim (Bool-cases (comes_first (i, q) (j, p))) [
  | inl f ↦ rw f refl
  | inr f ↦ elim (Bool-cases (j == i)) [
    | inl g ↦ absurd (cc (rw g at h))
    | inr g ↦
        let rest = lookup-place i k q d (rw g at h) in
        rw f (ground (arith, rest, nat_eqb_iff j k, nat_eqb_iff i k, nat_eqb_iff j i))
  ]
]

place-HasUniqueKeys :
    (i : ℕ) (q : Question) (d : Dict ℕ Question)
    → lookup i d ≡ none
    → HasUniqueKeys d
    → HasUniqueKeys (place (i, q) d)
unfolding place lookup
place-HasUniqueKeys i q [] h u = (refl, tt)
place-HasUniqueKeys i q ((j, p) ∷ d) h u = elim (Bool-cases (comes_first (i, q) (j, p))) [
  | inl f ↦ rw f (h, u)
  | inr f ↦ elim (Bool-cases (j == i)) [
    | inl g ↦ absurd (cc (rw g at h))
    | inr g ↦
        let free : lookup i d ≡ none = rw g at h in
        rw f (
          ground (arith, lookup-place i j q d free, u.0, nat_eqb_iff i j, nat_eqb_iff j i),
          place-HasUniqueKeys i q d free u.1,
        )
  ]
]

pub lookup-ordered :
    (k : ℕ) (d : Dict ℕ Question) → HasUniqueKeys d → lookup k (ordered d) ≡ lookup k d
unfolding ordered lookup
lookup-ordered k [] u = refl
lookup-ordered k ((i, q) ∷ d) u =
    lookup-place i k q (ordered d) (lookup-ordered i d u.1 ∙ u.0)
    ∙ ground (arith, lookup-ordered k d u.1)

pub ordered-HasUniqueKeys : (d : Dict ℕ Question) → HasUniqueKeys d → HasUniqueKeys (ordered d)
unfolding ordered
ordered-HasUniqueKeys [] u = tt
ordered-HasUniqueKeys ((i, q) ∷ d) u =
    place-HasUniqueKeys i q (ordered d) (lookup-ordered i d u.1 ∙ u.0) (ordered-HasUniqueKeys d u.1)

pub length-place : (p : ℕ × Question) (d : Dict ℕ Question) → length (place p d) ≡ suc (length d)
unfolding place
length-place p [] = refl
length-place p (q ∷ d) = ground (arith, length-place p d)

pub length-ordered : (d : Dict ℕ Question) → length (ordered d) ≡ length d
unfolding ordered
length-ordered [] = refl
length-ordered (p ∷ d) = length-place p (ordered d) ∙ ap suc (length-ordered d)

due_rows-none :
    (now k : ℕ) (d : Dict ℕ Question) → lookup k d ≡ none → lookup k (due_rows now d) ≡ none
unfolding due_rows lookup
due_rows-none now k [] h = refl
due_rows-none now k ((i, q) ∷ d) h = elim (Bool-cases (i == k)) [
  | inl f ↦ absurd (cc (rw f at h))
  | inr f ↦ ground (arith, due_rows-none now k d (rw f at h))
]

-- A row that is handed out is in the table, and due.
pub due_rows_sound :
    (now k : ℕ) (q : Question) (d : Dict ℕ Question)
    → HasUniqueKeys d
    → lookup k (due_rows now d) ≡ some q
    → (lookup k d ≡ some q) × (is_due now q ≡ true)
unfolding due_rows lookup
due_rows_sound now k q [] u h = absurd (cc h)
due_rows_sound now k q ((i, p) ∷ d) u h = elim (Bool-cases (i == k)) [
  | inl f ↦
      let same : i ≡ k = (nat_eqb_iff i k).0 f in
      let gone : lookup k (due_rows now d) ≡ none = due_rows-none now k d (rw (← same) u.0) in
      elim (Bool-cases (is_due now p)) [
        | inl due ↦
            let it : some p ≡ some q = rw (due, f) at h in (rw f it, ground (arith, due, it))
        | inr late ↦ absurd (cc (rw late at h, gone))
      ]
  | inr f ↦ elim (Bool-cases (is_due now p)) [
    | inl due ↦ rw f (due_rows_sound now k q d u.1 (rw (due, f) at h))
    | inr late ↦ rw f (due_rows_sound now k q d u.1 (rw late at h))
  ]
]

-- Every row that is due is found.
pub due_rows_complete :
    (now k : ℕ) (q : Question) (d : Dict ℕ Question)
    → lookup k d ≡ some q
    → is_due now q ≡ true
    → lookup k (due_rows now d) ≡ some q
unfolding due_rows lookup
due_rows_complete now k q [] h due = absurd (cc h)
due_rows_complete now k q ((i, p) ∷ d) h due = elim (Bool-cases (i == k)) [
  | inl f ↦ let it : p ≡ q = cc (rw f at h) in rw it (rw due (rw f refl))
  | inr f ↦ ground (arith, due_rows_complete now k q d (rw f at h) due)
]

pub due_rows-HasUniqueKeys :
    (now : ℕ) (d : Dict ℕ Question) → HasUniqueKeys d → HasUniqueKeys (due_rows now d)
unfolding due_rows
due_rows-HasUniqueKeys now [] u = tt
due_rows-HasUniqueKeys now ((i, q) ∷ d) u = elim (Bool-cases (is_due now q)) [
  | inl due ↦ rw due (due_rows-none now i d u.0, due_rows-HasUniqueKeys now d u.1)
  | inr late ↦ rw late (due_rows-HasUniqueKeys now d u.1)
]
