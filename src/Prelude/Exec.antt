-- ===== src/Prelude/Exec.antt =====
-- A call that reads and writes a state and may raise. What was written before a raise stays
-- written; a transaction that raises is rolled back by `atomic`.
use mathlib.Core.Path.{ap, ◌≡◌, refl, sym, subst}
use mathlib.Core.Bool.{Bool}
use mathlib.Core.Option.{Option, none, some}
use lkm_service.Prelude.Tests.{if◌then◌else◌}

pub data Result {ℓ} (E A : Type ℓ) : Type ℓ where
  ok : A → Result E A
  err : E → Result E A

-- What a value that may be an error is used for.
abbrev pub and_then {ℓ} : {E A B : Type ℓ} → Result E A → (A → Result E B) → Result E B
and_then (ok a) f = f a
and_then (err e) f = err e

pub and_then-ok {ℓ} :
    {E A B : Type ℓ} (r : Result E A) (f : A → Result E B) (b : B)
    → and_then r f ≡ ok b
    → (a : A) × (r ≡ ok a) × (f a ≡ ok b)
and_then-ok (ok a) f b h = (a, refl, h)
and_then-ok (err e) f b h = absurd (cc h)

abbrev pub Exec {ℓ} : Type ℓ → Type ℓ → Type ℓ → Type ℓ
Exec E S A = S → Result E A × S

module _ {ℓ} {E S A : Type ℓ} where
  abbrev pub pure : A → Exec E S A
  pure a s = (ok a, s)

  abbrev pub raise : E → Exec E S A
  raise e s = (err e, s)

  abbrev pub gets : (S → A) → Exec E S A
  gets f s = (ok (f s), s)

  -- The session of a request commits when its handler returns and rolls back when it raises.
  abbrev pub atomic : Exec E S A → Exec E S A
  atomic m s = let (r, s') = m s in elim r [ ok a ↦ (ok a, s') | err e ↦ (err e, s) ]

infixl 5 ◌>>=◌ ◌>>◌
abbrev pub ◌>>=◌ {ℓ} : {E S A B : Type ℓ} → Exec E S A → (A → Exec E S B) → Exec E S B
◌>>=◌ m f s = let (r, s') = m s in elim r [ ok a ↦ f a s' | err e ↦ (err e, s') ]

abbrev pub ◌>>◌ {ℓ} : {E S A B : Type ℓ} → Exec E S A → Exec E S B → Exec E S B
m >> k = m >>= λ _. k

abbrev pub modify {ℓ} : {E S : Type ℓ} → (S → S) → Exec E S (Unit {ℓ})
modify f s = (ok tt, f s)

abbrev pub raise_if {ℓ} : {E S : Type ℓ} → Bool → E → Exec E S (Unit {ℓ})
raise_if c e s = (if c then err e else ok tt, s)

-- What holds of the value and the state of a call if it returns.
abbrev pub Returns {ℓ} : {E S A : Type ℓ} → (A → S → Type ℓ) → Result E A × S → Type ℓ
Returns Q (ok a, s) = Q a s
Returns Q (err _, s) = Unit

module _ {ℓ} {E S A : Type ℓ} (Q : A → S → Type ℓ) where
  pub raised-Returns : (p : Result E A × S) (e : E) (s : S) → p ≡ (err e, s) → Returns Q p
  raised-Returns p e s h = subst (Returns Q) (sym h) tt

  pub returned-Returns : (p : Result E A × S) (a : A) (s : S) → p ≡ (ok a, s) → Q a s → Returns Q p
  returned-Returns p a s h q = subst (Returns Q) (sym h) q

  pub same-Returns : (p q : Result E A × S) → p ≡ q → Returns Q q → Returns Q p
  same-Returns p q h r = subst (Returns Q) (sym h) r

module _ {ℓ} {E S A B : Type ℓ} (Q : A → S → Type ℓ) (R : B → S → Type ℓ) where
  Returns-then :
      (p : Result E A × S) (k : A → Exec E S B)
      → Returns Q p
      → ((a : A) (s : S) → Q a s → Returns R (k a s))
      → Returns {E = E} R (elim p.0 [ ok a ↦ k a p.1 | err e ↦ (err e, p.1) ])
  Returns-then (ok a, s) k h step = step a s h
  Returns-then (err e, s) k h step = tt

  pub bind-Returns :
      (m : Exec E S A) (k : A → Exec E S B) (s : S)
      → Returns Q (m s)
      → ((a : A) (t : S) → Q a t → Returns R (k a t))
      → Returns R ((m >>= k) s)
  bind-Returns m k s h step = Returns-then (m s) k h step

pub weaken-Returns {ℓ} :
    {E S A : Type ℓ} (Q R : A → S → Type ℓ) (p : Result E A × S)
    → ((a : A) (s : S) → Q a s → R a s)
    → Returns Q p
    → Returns R p
weaken-Returns Q R (ok a, s) step h = step a s h
weaken-Returns Q R (err e, s) step h = tt

-- A table's row that is there, or the error for a missing row.
abbrev pub get_or_raise {ℓ} : {E A : Type ℓ} → E → Option A → Result E A
get_or_raise e none = err e
get_or_raise e (some a) = ok a

abbrev pub reads {ℓ} : {E S A : Type ℓ} → (S → Result E A) → Exec E S A
reads f s = (f s, s)

pub trivial-Returns {ℓ} : {E S A : Type ℓ} (p : Result E A × S) → Returns (λ _ _. Unit {ℓ}) p
trivial-Returns (ok a, s) = tt
trivial-Returns (err e, s) = tt

pub both-Returns {ℓ} :
    {E S A : Type ℓ} (P Q R : A → S → Type ℓ) (p : Result E A × S)
    → ((a : A) (s : S) → P a s → Q a s → R a s)
    → Returns P p
    → Returns Q p
    → Returns R p
both-Returns P Q R (ok a, s) step h k = step a s h k
both-Returns P Q R (err e, s) step h k = tt

-- A session that rolls back keeps what its handler keeps when it returns.
pub atomic_keeps {ℓ} :
    {E S A : Type ℓ} (P : S → Type ℓ) (m : Exec E S A) (s : S)
    → P s
    → Returns (λ _ t. P t) (m s)
    → P (atomic m s).1
atomic_keeps {E = E} {S = S} {A = A} P m s old new = go (m s) new
  where
    go :
        (p : Result E A × S)
        → Returns (λ _ t. P t) p
        → let q : Result E A × S = elim p.0 [ ok a ↦ (ok a, p.1) | err e ↦ (err e, s) ] in P q.1
    go (ok a, t) h = h
    go (err e, t) h = old

pub atomic-Returns {ℓ} :
    {E S A : Type ℓ} (Q : A → S → Type ℓ) (m : Exec E S A) (s : S)
    → Returns Q (m s)
    → Returns Q (atomic m s)
atomic-Returns {E = E} {S = S} {A = A} Q m s h = go (m s) h
  where
    go :
        (p : Result E A × S)
        → Returns Q p
        → let q : Result E A × S = elim p.0 [ ok a ↦ (ok a, p.1) | err e ↦ (err e, s) ] in
          Returns Q q
    go (ok a, t) h = h
    go (err e, t) h = tt

-- A session that cannot return leaves nothing behind.
pub atomic_raises :
    {E S A : Type 0} (m : Exec E S A) (s : S) → Returns (λ _ _. ⊥) (m s) → (atomic m s).1 ≡ s
atomic_raises {E = E} {S = S} {A = A} m s h = go (m s) h
  where
    go :
        (p : Result E A × S)
        → Returns (λ _ _. ⊥) p
        → let q : Result E A × S = elim p.0 [ ok a ↦ (ok a, p.1) | err e ↦ (err e, s) ] in q.1 ≡ s
    go (ok a, t) h = absurd h
    go (err e, t) h = refl

-- A session that raised is as it was.
pub atomic-err :
    {E S A : Type 0} (m : Exec E S A) (s t : S) (e : E) → atomic m s ≡ (err e, t) → t ≡ s
atomic-err {E = E} {S = S} {A = A} m s t e h = go (m s) h
  where
    go :
        (p : Result E A × S)
        → (let q : Result E A × S = elim p.0 [ ok a ↦ (ok a, p.1) | err d ↦ (err d, s) ] in
            q ≡ (err e, t))
        → t ≡ s
    go (ok a, u) h = absurd (cc h)
    go (err d, u) h = cc h

pub bind-err {ℓ} :
    {E S A B : Type ℓ} (m : Exec E S A) (k : A → Exec E S B) (s t : S) (e : E)
    → m s ≡ (err e, t)
    → (m >>= k) s ≡ (err e, t)
bind-err {E = E} {S = S} {A = A} {B = B} m k s t e h = ap go h
  where
    go : Result E A × S → Result E B × S
    go p = elim p.0 [ ok a ↦ k a p.1 | err d ↦ (err d, p.1) ]

pub bind-ok {ℓ} :
    {E S A B : Type ℓ} (m : Exec E S A) (k : A → Exec E S B) (s t : S) (a : A)
    → m s ≡ (ok a, t)
    → (m >>= k) s ≡ k a t
bind-ok {E = E} {S = S} {A = A} {B = B} m k s t a h = ap go h
  where
    go : Result E A × S → Result E B × S
    go p = elim p.0 [ ok a ↦ k a p.1 | err e ↦ (err e, p.1) ]
