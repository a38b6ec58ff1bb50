-- ===== src/Events/Handlers.antt =====
-- A handler that passes the check takes every well-formed payload (core/event_contract.py).
use lkm_service.Events.Payloads.{Conforms}
use lkm_service.Events.{
  Kind, positional_only, positional_or_keyword, var_positional, keyword_only, var_keyword,
  EventContract, handler_violation, Parameter, Value, find_contract, needed, is_var_positional,
  positional, required, maximum, keyword_only, is_positional,
}
use lkm_service.Prelude.{
  length, ◌≡◌, ◌&&◌, Option, ltb, some, false, refl, text_key, [], arith, Bool-cases, Bool, zero,
  suc, nat_key, any, ◌∷◌, inr, inl, ◌≤◌, none, true, List, String, All, ℕ,
}

-- What is left to bind after a parameter that takes one positional argument if there is one, and
-- its default otherwise.
abbrev TakesOne : Bool → ℕ → (ℕ → Type 0) → Type 0
TakesOne has_default zero rest = (has_default ≡ true) × rest 0
TakesOne has_default (suc n) rest = rest n

abbrev BindOne : Parameter → ℕ → (ℕ → Type 0) → Type 0
BindOne p n rest = elim p.kind [
  | positional_only ↦ TakesOne p.has_default n rest
  | positional_or_keyword ↦ TakesOne p.has_default n rest
  | var_positional ↦ rest 0
  | keyword_only ↦ (p.has_default ≡ true) × rest n
  | var_keyword ↦ rest n
]

-- The rule of the language for the call `handler(*args)` with `n` arguments: from left to right each
-- positional parameter takes one or its default, `*args` takes the rest, a keyword-only parameter
-- needs a default, and in the end no argument is left.
unfoldable pub Binds : List Parameter → ℕ → Type 0
Binds [] n = n ≡ 0
Binds (p ∷ params) n = BindOne p n (Binds params)

-- A signature that the language accepts: no positional parameter without a default stands after one
-- with a default.
abbrev pub IsSignature : List Parameter → Type 0
IsSignature [] = Unit
IsSignature (p ∷ params) =
    ((is_positional p && p.has_default) ≡ true → length (needed params) ≡ 0) × IsSignature params

-- No keyword-only parameter without a default.
abbrev pub NeedsNoKeyword : List Parameter → Type 0
NeedsNoKeyword = All (λ p. p.kind ≡ keyword_only → p.has_default ≡ true)

TakesOne-Binds :
    (p : Parameter) (params : List Parameter) (n : ℕ)
    → is_positional p ≡ true
    → IsSignature (p ∷ params)
    → length (needed (p ∷ params)) ≤ n
    → n ≤ length (positional (p ∷ params))
    → ((m : ℕ) → length (needed params) ≤ m → m ≤ length (positional params) → Binds params m)
    → TakesOne p.has_default n (Binds params)
TakesOne-Binds p params n pos legal enough room rest =
    let long : length (positional (p ∷ params)) ≡ suc (length (positional params)) = rw pos refl in
    elim (Bool-cases p.has_default) [
      | inl d ↦
          let last : length (needed params) ≡ 0 = legal.0 (rw (pos, d) refl) in
          with_default n d last room long
      | inr d ↦
          let need : length (needed (p ∷ params)) ≡ suc (length (needed params)) =
            rw pos (rw d refl) in
          without n need enough room long
    ]
  where
    with_default :
        (n : ℕ)
        → p.has_default ≡ true
        → length (needed params) ≡ 0
        → n ≤ length (positional (p ∷ params))
        → length (positional (p ∷ params)) ≡ suc (length (positional params))
        → TakesOne p.has_default n (Binds params)
    with_default zero d last room long = (d, rest 0 (omega (arith, last)) (omega arith))
    with_default (suc n) d last room long = rest n (omega (arith, last)) (omega (arith, room, long))

    without :
        (n : ℕ)
        → length (needed (p ∷ params)) ≡ suc (length (needed params))
        → length (needed (p ∷ params)) ≤ n
        → n ≤ length (positional (p ∷ params))
        → length (positional (p ∷ params)) ≡ suc (length (positional params))
        → TakesOne p.has_default n (Binds params)
    without zero need enough room long = absurd (omega (arith, need, enough))
    without (suc n) need enough room long =
        rest n (omega (arith, need, enough)) (omega (arith, room, long))

BindOne-Binds :
    (p : Parameter) (params : List Parameter) (n : ℕ) (k : Kind)
    → p.kind ≡ k
    → any is_var_positional (p ∷ params) ≡ false
    → IsSignature (p ∷ params)
    → NeedsNoKeyword (p ∷ params)
    → length (needed (p ∷ params)) ≤ n
    → n ≤ length (positional (p ∷ params))
    → (any is_var_positional params ≡ false
        → (m : ℕ) → length (needed params) ≤ m
        → m ≤ length (positional params)
        → Binds params m)
    → BindOne p n (Binds params)
BindOne-Binds p params n positional_only e plain legal keyed enough room rest =
    rw e (TakesOne-Binds p params n (rw e refl) legal enough room (rest (rw e at plain)))
BindOne-Binds p params n positional_or_keyword e plain legal keyed enough room rest =
    rw e (TakesOne-Binds p params n (rw e refl) legal enough room (rest (rw e at plain)))
BindOne-Binds p params n var_positional e plain legal keyed enough room rest =
    absurd (cc (rw e at plain))
BindOne-Binds p params n keyword_only e plain legal keyed enough room rest =
    rw e (keyed.0 e, rest (rw e at plain) n (rw e at enough) (rw e at room))
BindOne-Binds p params n var_keyword e plain legal keyed enough room rest =
    rw e (rest (rw e at plain) n (rw e at enough) (rw e at room))

enough-Binds :
    (params : List Parameter) (n : ℕ)
    → any is_var_positional params ≡ false
    → IsSignature params
    → NeedsNoKeyword params
    → length (needed params) ≤ n
    → n ≤ length (positional params)
    → Binds params n
unfolding Binds
enough-Binds [] n plain legal keyed enough room = omega (arith, room)
enough-Binds (p ∷ params) n plain legal keyed enough room =
    BindOne-Binds p params n p.kind refl plain legal keyed enough room
      (λ q m e r. enough-Binds params m q legal.1 keyed.1 e r)

module _ (contracts : List EventContract) where
  needed_of :
      (fn : String) (params : List Parameter) (c : EventContract)
      → find_contract fn contracts ≡ some c
      → any is_var_positional params ≡ false
      → handler_violation contracts fn (some params) ≡ none
      → (length (needed params) ≤ required c) × (maximum c ≤ length (positional params))
  unfolding handler_violation
  needed_of fn params c found plain h =
      elim (Bool-cases (ltb (required c) (length (needed params)))) [
        | inl e ↦ absurd (cc (rw e at (rw plain at (rw (found, handler_violation) at h))))
        | inr e ↦ elim (Bool-cases (ltb (length (positional params)) (maximum c))) [
          | inl f ↦
              absurd (cc (rw f at (rw e at (rw plain at (rw (found, handler_violation) at h)))))
          | inr f ↦ (ground (arith, e), ground (arith, f))
        ]
      ]

  -- A handler that passes the check for an event, whose signature the language accepts, without
  -- `*args` and without a keyword-only parameter that needs a value: the call `handler(*args)` with
  -- the arguments of any well-formed payload of that event binds by the rule of the language.
  pub handler_violation-Binds :
      (routing_key : Option String) (payload : Value) (params : List Parameter)
      (h : Conforms contracts routing_key payload)
      → any is_var_positional params ≡ false
      → IsSignature params
      → NeedsNoKeyword params
      → handler_violation contracts h.fn (some params) ≡ none
      → Binds params (length h.args)
  handler_violation-Binds rk payload params h plain legal keyed passed =
      let (enough, room) = needed_of h.fn params h.contract h.registered plain passed in
      enough-Binds params (length h.args) plain legal keyed
        (omega (arith, enough, h.conform.enough)) (omega (arith, room, h.conform.fits))
