-- ===== src/Prelude/Keys.antt =====
-- Tables whose keys are distinct, as under a primary key.
use mathlib.Core.Path.{◌≡◌, refl, ap}
use Prim.Native.Nat.{ℕ, zero, suc, ◌≤◌}
use mathlib.Core.Option.{none, some}
use mathlib.Core.List.{List, [], ◌∷◌}
use mathlib.Core.Logic.{inl, inr}
use native.Mathlib.Omega.{arith}
use lkm_service.Prelude.Tests.{Bool-cases}
use lkm_service.Prelude.Lists.{take, length}
use lkm_service.Prelude.Equality.{Key, ◌==◌}
use lkm_service.Prelude.Dict.{Dict, lookup, insert, lookup-insert}

module _ {ℓ} {K V : Type ℓ} ⦃e : Key K⦄ where
  abbrev pub HasUniqueKeys : Dict K V → Type ℓ
  HasUniqueKeys [] = Unit
  HasUniqueKeys ((k, _) ∷ d) = (lookup k d ≡ none) × HasUniqueKeys d

  pub insert-HasUniqueKeys :
      (k : K) (v : V) (d : Dict K V) → HasUniqueKeys d → HasUniqueKeys (insert k v d)
  unfolding insert lookup
  insert-HasUniqueKeys k v [] h = (refl, tt)
  insert-HasUniqueKeys k v ((j, w) ∷ d) h = elim (Bool-cases (j == k)) [
    | inl f ↦ let same : j ≡ k = (e.same_iff j k).0 f in rw f (rw (← same) h.0, h.1)
    | inr f ↦ rw f (
      ground (arith, lookup-insert k j v d, e.same_iff k j, e.same_iff j k, h.0),
      insert-HasUniqueKeys k v d h.1,
    )
  ]

  pub lookup-take :
      (n : ℕ) (k : K) (v : V) (d : Dict K V) → lookup k (take n d) ≡ some v → lookup k d ≡ some v
  unfolding lookup
  lookup-take zero k v d h = absurd (cc h)
  lookup-take (suc n) k v [] h = absurd (cc h)
  lookup-take (suc n) k v ((j, w) ∷ d) h = elim (Bool-cases (j == k)) [
    | inl f ↦ rw f (rw f at h)
    | inr f ↦ rw f (lookup-take n k v d (rw f at h))
  ]

  pub lookup-take-none :
      (n : ℕ) (k : K) (d : Dict K V) → lookup k d ≡ none → lookup k (take n d) ≡ none
  unfolding lookup
  lookup-take-none zero k d h = refl
  lookup-take-none (suc n) k [] h = refl
  lookup-take-none (suc n) k ((j, w) ∷ d) h = elim (Bool-cases (j == k)) [
    | inl f ↦ absurd (cc (rw f at h))
    | inr f ↦ rw f (lookup-take-none n k d (rw f at h))
  ]

  pub take-HasUniqueKeys : (n : ℕ) (d : Dict K V) → HasUniqueKeys d → HasUniqueKeys (take n d)
  take-HasUniqueKeys zero d h = tt
  take-HasUniqueKeys (suc n) [] h = tt
  take-HasUniqueKeys (suc n) ((j, w) ∷ d) h =
      (lookup-take-none n j d h.0, take-HasUniqueKeys n d h.1)

pub take_all {ℓ} : {A : Type ℓ} (n : ℕ) (xs : List A) → length xs ≤ n → take n xs ≡ xs
take_all zero [] h = refl
take_all zero (x ∷ xs) h = absurd (omega (arith, h))
take_all (suc n) [] h = refl
take_all (suc n) (x ∷ xs) h = ap (λ ys. x ∷ ys) (take_all n xs (omega (arith, h)))
