-- ===== src/Prelude/Dict.antt =====
-- A table keyed by its primary key, as an association list in insertion order.
use mathlib.Core.Path.{◌≡◌, ◌∙◌, refl}
use mathlib.Core.Bool.{true, false}
use mathlib.Core.Option.{Option, none, some}
use mathlib.Core.List.{List, [], ◌∷◌}
use native.Mathlib.Omega.{arith}
use mathlib.Core.Logic.{inl, inr}
use lkm_service.Prelude.Tests.{if◌then◌else◌, Bool-cases}
use lkm_service.Prelude.Equality.{Key, ◌==◌}

abbrev pub Dict {ℓ κ} : Type ℓ → Type κ → Type (ℓ ⊔ κ)
Dict K V = List (K × V)

module _ {ℓ κ} {K : Type ℓ} {V : Type κ} ⦃e : Key K⦄ where
  unfoldable pub lookup : K → Dict K V → Option V
  lookup k [] = none
  lookup k ((j, v) ∷ d) = if j == k then some v else lookup k d

  -- `d[k] = v`, `INSERT … ON CONFLICT DO UPDATE`
  unfoldable pub insert : K → V → Dict K V → Dict K V
  insert k v [] = (k, v) ∷ []
  insert k v ((j, w) ∷ d) = if j == k then (k, v) ∷ d else (j, w) ∷ insert k v d

  -- `d.pop(k, None)`, `DELETE … WHERE key = k`
  unfoldable pub remove : K → Dict K V → Dict K V
  remove k [] = []
  remove k ((j, w) ∷ d) = if j == k then remove k d else (j, w) ∷ remove k d

  pub lookup-insert :
      (k j : K) (v : V) (d : Dict K V)
      → lookup j (insert k v d) ≡ (if k == j then some v else lookup j d)
  unfolding lookup insert
  lookup-insert k j v [] = refl
  lookup-insert k j v ((i, w) ∷ d) =
      ground (arith, e.same_iff k j, e.same_iff i k, e.same_iff i j, lookup-insert k j v d)

  pub lookup-insert_same :
      (k j : K) (v : V) (d : Dict K V) → (k == j) ≡ true → lookup j (insert k v d) ≡ some v
  lookup-insert_same k j v d same = lookup-insert k j v d ∙ rw same refl

  pub lookup-insert_other :
      (k j : K) (v : V) (d : Dict K V) → (k == j) ≡ false → lookup j (insert k v d) ≡ lookup j d
  lookup-insert_other k j v d other = lookup-insert k j v d ∙ rw other refl

  pub lookup-remove :
      (k j : K) (d : Dict K V) → lookup j (remove k d) ≡ (if k == j then none else lookup j d)
  unfolding lookup remove
  lookup-remove k j [] = ground arith
  lookup-remove k j ((i, w) ∷ d) =
      ground (arith, e.same_iff k j, e.same_iff i k, e.same_iff i j, lookup-remove k j d)

  -- Storing what is there changes nothing.
  pub insert-lookup : (k : K) (v : V) (d : Dict K V) → lookup k d ≡ some v → insert k v d ≡ d
  unfolding lookup insert
  insert-lookup k v [] h = absurd (cc h)
  insert-lookup k v ((j, w) ∷ d) h = elim (Bool-cases (j == k)) [
    | inl f ↦
        let same : j ≡ k = (e.same_iff j k).0 f in
        let value : w ≡ v = cc (rw f at h) in rw f (cc (same, value))
    | inr f ↦ rw f (cc (insert-lookup k v d (rw f at h)))
  ]

  pub lookup-nil : (k : K) → lookup k [] ≡ none
  unfolding lookup
  lookup-nil k = refl

pub ruleset dict_laws = (lookup-insert, lookup-remove, lookup-nil)
