-- ===== src/Prelude/Equality.antt =====
-- Boolean equality as an interface: one operator for identifiers, texts and tuples of them.
use Prim.Native.Nat.{ℕ}
use Prim.Native.String.{String}
use mathlib.Core.Path.{◌≡◌, refl}
use mathlib.Core.Logic.{◌↔◌}
use mathlib.Core.Bool.{Bool, true, ◌&&◌}
use mathlib.Core.List.{List}
use native.Mathlib.Omega.{arith}
use text.Mathlib.Text.{◌==◌ as str_eq}
use text.Mathlib.TextEquality.{eq_iff}
use lkm_service.Prelude.Tests.{nat_eqb, nat_eqb_iff}
use lkm_service.Prelude.Lists.{any}

pub record Key {ℓ} (K : Type ℓ) : Type ℓ where
  pub same : K → K → Bool
  pub same_iff : (j k : K) → (same j k ≡ true) ↔ (j ≡ k)

infix 50 ◌==◌
abbrev pub ◌==◌ {ℓ} : {K : Type ℓ} ⦃key : Key K⦄ → K → K → Bool
◌==◌ ⦃key⦄ j k = key.same j k

-- Identifiers are numbers.
instance abbrev pub nat_key : Key ℕ
nat_key = record { same = nat_eqb; same_iff = nat_eqb_iff }

instance abbrev pub text_key : Key String
text_key = record { same = str_eq; same_iff = eq_iff }

module _ {ℓ} {A B : Type ℓ} ⦃e : Key A⦄ ⦃f : Key B⦄ where
  abbrev pub pair_eqb : A × B → A × B → Bool
  pair_eqb (a, b) (c, d) = a == c && b == d

  pub pair_eqb_iff : (p q : A × B) → (pair_eqb p q ≡ true) ↔ (p ≡ q)
  pair_eqb_iff (a, b) (c, d) = ground (arith, e.same_iff a c, f.same_iff b d)

  instance abbrev pub pair_key : Key (A × B)
  pair_key = record { same = pair_eqb; same_iff = pair_eqb_iff }

module _ {ℓ} {A : Type ℓ} ⦃e : Key A⦄ where
  pub eqb_self : (a : A) → (a == a) ≡ true
  eqb_self a = (e.same_iff a a).1 refl

  -- `x in xs`
  abbrev pub contains : A → List A → Bool
  contains a xs = any (λ x. x == a) xs
