-- ===== src/Events/Parts.antt =====
-- The checks of `payload_violations` one by one (core/event_contract.py).
use lkm_service.Events.Kinds.{WireKind, IsWired, Fits, value_matches-Fits, Fits-value_matches}
use lkm_service.Events.{
  null, text, boolean, integer, real, array, object, mismatches, Value, args_violations,
  extra_violations, routing_violations, envelope_keys, EventContract, event_id_violations, required,
  Arg, text, object, boolean, maximum, value_matches, integer, real, array, args_of, find_contract,
  Values, named, items,
}
use lkm_service.Prelude.{
  some, ◌≡◌, refl, ◌++◌, [], inr, true, List, String, none, length, ℕ, Option, contains, Bool-cases,
  ◌≤◌, nat_key, ltb, ◌+◌, false, All, inl, text_key, ◌∷◌, arith, subst, ◌==◌,
}

pub append_nil : {A : Type 0} (l m : List A) → l ++ m ≡ [] → (l ≡ []) × (m ≡ [])
append_nil [] m h = (refl, h)
append_nil (x ∷ l) m h = absurd (cc h)

-- The name of an event is a text that is not empty.
pub named-text :
    (o : Option Value) (fn : String)
    → named o ≡ some fn
    → (o ≡ some (text fn)) × ((fn == "") ≡ false)
named-text none fn h = absurd (cc h)
named-text (some (text t)) fn h = elim (Bool-cases (t == "")) [
  | inl e ↦ absurd (cc (rw e at h))
  | inr e ↦ let it : t ≡ fn = cc (rw e at h) in (cc it, rw it at e)
]
named-text (some null) fn h = absurd (cc h)
named-text (some (boolean x)) fn h = absurd (cc h)
named-text (some (integer x)) fn h = absurd (cc h)
named-text (some (real x)) fn h = absurd (cc h)
named-text (some (array x)) fn h = absurd (cc h)
named-text (some (object x)) fn h = absurd (cc h)

-- The arguments that are given: none where there is no array of them.
pub data Given : Option Value → List Value → Type 0 where
  no_array : Given none []
  an_array : (l : Values) → Given (some (array l)) (items l)

pub args_of-Given : (o : Option Value) (args : List Value) → args_of o ≡ some args → Given o args
args_of-Given none args h = let e : [] ≡ args = cc h in subst (Given none) e no_array
args_of-Given (some (array l)) args h =
    let e : items l ≡ args = cc h in subst (Given (some (array l))) e (an_array l)
args_of-Given (some null) args h = absurd (cc h)
args_of-Given (some (boolean x)) args h = absurd (cc h)
args_of-Given (some (integer x)) args h = absurd (cc h)
args_of-Given (some (real x)) args h = absurd (cc h)
args_of-Given (some (text x)) args h = absurd (cc h)
args_of-Given (some (object x)) args h = absurd (cc h)

pub Given-args_of : (o : Option Value) (args : List Value) → Given o args → args_of o ≡ some args
Given-args_of o args no_array = refl
Given-args_of o args (an_array l) = refl

pub find_contract-fn :
    (fn : String) (cs : List EventContract) (c : EventContract)
    → find_contract fn cs ≡ some c
    → IsWired cs
    → (c.fn ≡ fn) × All (λ a. WireKind a.kind) c.args
unfolding find_contract
find_contract-fn fn [] c h w = absurd (cc h)
find_contract-fn fn (d ∷ cs) c h w = elim (Bool-cases (d.fn == fn)) [
  | inl e ↦ let it : d ≡ c = cc (rw e at h) in rw (← it) ((text_key.same_iff d.fn fn).0 e, w.0)
  | inr e ↦ find_contract-fn fn cs c (rw e at h) w.1
]

-- Each argument has the declared kind.
abbrev pub Typed : List Value → List Arg → Type 0
Typed [] args = Unit
Typed (v ∷ l) [] = Unit
Typed (v ∷ l) (a ∷ args) = Fits a v × Typed l args

pub mismatches-Typed :
    (n : ℕ) (l : List Value) (args : List Arg)
    → All (λ a. WireKind a.kind) args
    → mismatches n l args ≡ []
    → Typed l args
unfolding mismatches
mismatches-Typed n [] args w h = tt
mismatches-Typed n (v ∷ l) [] w h = tt
mismatches-Typed n (v ∷ l) (a ∷ args) w h = elim (Bool-cases (value_matches v a)) [
  | inl e ↦
      (value_matches-Fits v a w.0 e, mismatches-Typed (n + 1) l args w.1 (rw (e, mismatches) at h))
  | inr e ↦ absurd (cc (rw (e, mismatches) at h))
]

pub no_mismatches :
    (n : ℕ) (l : List Value) (args : List Arg) → Typed l args → mismatches n l args ≡ []
unfolding mismatches
no_mismatches n [] args h = refl
no_mismatches n (v ∷ l) [] h = refl
no_mismatches n (v ∷ l) (a ∷ args) h =
    rw (Fits-value_matches v a h.0, mismatches) (no_mismatches (n + 1) l args h.1)

-- Enough arguments, not too many, each of its kind.
pub record ArgsConform (c : EventContract) (args : List Value) : Type 0 where
  pub enough : required c ≤ length args
  pub fits : length args ≤ maximum c
  pub typed : Typed args c.args

pub args-ArgsConform :
    (c : EventContract) (args : List Value)
    → All (λ a. WireKind a.kind) c.args
    → args_violations c args ≡ []
    → ArgsConform c args
unfolding args_violations
args-ArgsConform c args w h = elim (Bool-cases (ltb (length args) (required c))) [
  | inl e ↦ absurd (cc (rw (e, args_violations) at h))
  | inr e ↦ elim (Bool-cases (ltb (maximum c) (length args))) [
    | inl f ↦ absurd (cc (rw f at (rw (e, args_violations) at h)))
    | inr f ↦ record {
      enough = ground (arith, e);
      fits = ground (arith, f);
      typed = mismatches-Typed 0 args c.args w (rw f at (rw (e, args_violations) at h));
    }
  ]
]

pub conform-args :
    (c : EventContract) (args : List Value) → ArgsConform c args → args_violations c args ≡ []
unfolding args_violations
conform-args c args h =
    let e : ltb (length args) (required c) ≡ false = ground (arith, h.enough) in
    let f : ltb (maximum c) (length args) ≡ false = ground (arith, h.fits) in
    rw (e, args_violations) (rw f (no_mismatches 0 args c.args h.typed))

-- An absent event id, a null one or a text.
abbrev pub IsEventId : Option Value → Type 0
IsEventId none = Unit
IsEventId (some null) = Unit
IsEventId (some (text _)) = Unit
IsEventId (some _) = ⊥

pub event_id_violations-IsEventId : (v : Option Value) → event_id_violations v ≡ [] → IsEventId v
event_id_violations-IsEventId none h = tt
event_id_violations-IsEventId (some null) h = tt
event_id_violations-IsEventId (some (text t)) h = tt
event_id_violations-IsEventId (some (boolean b)) h = absurd (cc h)
event_id_violations-IsEventId (some (integer n)) h = absurd (cc h)
event_id_violations-IsEventId (some (real t)) h = absurd (cc h)
event_id_violations-IsEventId (some (array l)) h = absurd (cc h)
event_id_violations-IsEventId (some (object l)) h = absurd (cc h)

pub no_id_violations : (v : Option Value) → IsEventId v → event_id_violations v ≡ []
no_id_violations none h = refl
no_id_violations (some null) h = refl
no_id_violations (some (text t)) h = refl
no_id_violations (some (boolean x)) h = absurd h
no_id_violations (some (integer x)) h = absurd h
no_id_violations (some (real x)) h = absurd h
no_id_violations (some (array x)) h = absurd h
no_id_violations (some (object x)) h = absurd h

-- Only keys of the envelope.
abbrev pub InEnvelope : List String → Type 0
InEnvelope = All (λ k. contains k envelope_keys ≡ true)

pub extra-InEnvelope : (keys : List String) → extra_violations keys ≡ [] → InEnvelope keys
extra-InEnvelope [] h = tt
extra-InEnvelope (k ∷ keys) h = elim (Bool-cases (contains k envelope_keys)) [
  | inl e ↦ (e, extra-InEnvelope keys (rw (e, extra_violations) at h))
  | inr e ↦ absurd (cc (rw (e, extra_violations) at h))
]

pub envelope-extra : (keys : List String) → InEnvelope keys → extra_violations keys ≡ []
envelope-extra [] h = refl
envelope-extra (k ∷ keys) h = rw (h.0, extra_violations) (envelope-extra keys h.1)

abbrev pub IsRouted : EventContract → Option String → Type 0
IsRouted c none = Unit
IsRouted c (some rk) = contains rk c.routing_keys ≡ true

pub routing-IsRouted :
    (c : EventContract) (rk : Option String) → routing_violations c rk ≡ [] → IsRouted c rk
unfolding routing_violations
routing-IsRouted c none h = tt
routing-IsRouted c (some rk) h = ground (arith, h)

pub routed-routing :
    (c : EventContract) (rk : Option String) → IsRouted c rk → routing_violations c rk ≡ []
unfolding routing_violations
routed-routing c none h = refl
routed-routing c (some rk) h = ground (arith, h)
