-- ===== src/Events/Payloads.antt =====
-- Which payloads have no violation (`payload_violations` of core/event_contract.py).
use lkm_service.Events.Parts.{
  IsRouted, InEnvelope, envelope-extra, append_nil, routed-routing, extra-InEnvelope, ArgsConform,
  IsEventId, conform-args, no_id_violations, routing-IsRouted, args-ArgsConform,
  event_id_violations-IsEventId, Given-args_of, Given, find_contract-fn, named-text, args_of-Given,
}
use lkm_service.Events.Kinds.{IsWired, WireKind}
use lkm_service.Events.{
  null, text, boolean, integer, real, array, object, Value, args_violations, extra_violations,
  routing_violations, EventContract, event_id_violations, Members, text, object, boolean, integer,
  keys_of, real, named, entries, array, find_contract, args_of, contract_violations,
  payload_violations, unregistered, args_not_array, fn_missing,
}
use lkm_service.Prelude.{
  some, ◌++◌, List, text_key, [], Option, refl, ◌≡◌, none, String, nat_key, ◌∷◌, ◌↔◌, false, ◌==◌,
  All,
}
use lkm_service.Prelude.Dict.{Dict, lookup}

module _ (contracts : List EventContract) where
  -- A well-formed payload: an object with the envelope's keys, whose name is registered, which may
  -- come by this routing key, and whose arguments and event id are as the contract says.
  pub record Conforms (routing_key : Option String) (payload : Value) : Type 0 where
    pub members : Members
    pub is_an_object : payload ≡ object members
    pub envelope : InEnvelope (keys_of members)
    pub fn : String
    pub name : lookup "fn" (entries members) ≡ some (text fn)
    pub not_empty : (fn == "") ≡ false
    pub contract : EventContract
    pub registered : find_contract fn contracts ≡ some contract
    pub of_name : contract.fn ≡ fn
    pub routed : IsRouted contract routing_key
    pub args : List Value
    pub given : Given (lookup "args" (entries members)) args
    pub conform : ArgsConform contract args
    pub event_id : IsEventId (lookup "event_id" (entries members))

  contract-Conforms :
      (rk : Option String) (fields : Dict String Value) (c : EventContract)
      → All (λ a. WireKind a.kind) c.args
      → contract_violations contracts rk fields c ≡ []
      → IsRouted c rk
        × (args : List Value) × (args_of (lookup "args" fields) ≡ some args)
        × ArgsConform c args
        × IsEventId (lookup "event_id" fields)
  unfolding contract_violations
  contract-Conforms rk fields c w h = go (args_of (lookup "args" fields)) refl h
    where
      go :
          (given : Option (List Value))
          → args_of (lookup "args" fields) ≡ given
          → routing_violations c rk ++ (elim given [
            | none ↦ args_not_array ∷ []
            | some args ↦ args_violations c args ++ event_id_violations (lookup "event_id" fields)
          ])
            ≡ []
          → IsRouted c rk
            × (args : List Value) × (args_of (lookup "args" fields) ≡ some args)
            × ArgsConform c args
            × IsEventId (lookup "event_id" fields)
      go none q k = absurd (cc ((append_nil (routing_violations c rk) (args_not_array ∷ []) k).1))
      go (some args) q k =
          let ids = event_id_violations (lookup "event_id" fields) in
          let (routed, rest) =
            append_nil (routing_violations c rk) (args_violations c args ++ ids) k in
          let (typed, id_ok) = append_nil (args_violations c args) ids rest in
          (
            routing-IsRouted c rk routed,
            args,
            q,
            args-ArgsConform c args w typed,
            event_id_violations-IsEventId (lookup "event_id" fields) id_ok,
          )

  object-Conforms :
      (rk : Option String) (members : Members)
      → IsWired contracts
      → payload_violations contracts rk (object members) ≡ []
      → Conforms rk (object members)
  unfolding payload_violations
  object-Conforms rk members wired h = go (named (lookup "fn" (entries members))) refl h
    where
      go_contract :
          (fn : String) (found : Option EventContract)
          → named (lookup "fn" (entries members)) ≡ some fn
          → find_contract fn contracts ≡ found
          → extra_violations (keys_of members) ++ (elim found [
            | none ↦ unregistered fn ∷ []
            | some c ↦ contract_violations contracts rk (entries members) c
          ])
            ≡ []
          → Conforms rk (object members)
      go_contract fn none q r k =
          absurd (cc ((append_nil (extra_violations (keys_of members)) (unregistered fn ∷ []) k).1))
      go_contract fn (some c) q r k =
          let (extra, rest) =
            append_nil (extra_violations (keys_of members))
              (contract_violations contracts rk (entries members) c) k in
          let (same, w) = find_contract-fn fn contracts c r wired in
          let (routed, args, given, conform, id_ok) =
            contract-Conforms rk (entries members) c w rest in
          let (is_named, full) = named-text (lookup "fn" (entries members)) fn q in
          record {
            members = members;
            is_an_object = refl;
            envelope = extra-InEnvelope (keys_of members) extra;
            fn = fn;
            name = is_named;
            not_empty = full;
            contract = c;
            registered = r;
            of_name = same;
            routed = routed;
            args = args;
            given = args_of-Given (lookup "args" (entries members)) args given;
            conform = conform;
            event_id = id_ok;
          }

      go :
          (fn : Option String)
          → named (lookup "fn" (entries members)) ≡ fn
          → extra_violations (keys_of members) ++ (elim fn [
            | none ↦ fn_missing ∷ []
            | some fn ↦ elim (find_contract fn contracts) [
              | none ↦ unregistered fn ∷ []
              | some c ↦ contract_violations contracts rk (entries members) c
            ]
          ])
            ≡ []
          → Conforms rk (object members)
      go none q k =
          absurd (cc ((append_nil (extra_violations (keys_of members)) (fn_missing ∷ []) k).1))
      go (some fn) q k = go_contract fn (find_contract fn contracts) q refl k

  violations-Conforms :
      (rk : Option String) (payload : Value)
      → IsWired contracts
      → payload_violations contracts rk payload ≡ []
      → Conforms rk payload
  unfolding payload_violations
  violations-Conforms rk null wired h = absurd (cc h)
  violations-Conforms rk (boolean b) wired h = absurd (cc h)
  violations-Conforms rk (integer n) wired h = absurd (cc h)
  violations-Conforms rk (real t) wired h = absurd (cc h)
  violations-Conforms rk (text t) wired h = absurd (cc h)
  violations-Conforms rk (array l) wired h = absurd (cc h)
  violations-Conforms rk (object members) wired h = object-Conforms rk members wired h

  conforms-violations :
      (rk : Option String) (payload : Value)
      → Conforms rk payload
      → payload_violations contracts rk payload ≡ []
  unfolding payload_violations contract_violations
  conforms-violations rk payload h = rw h.is_an_object (
      rw (h.name, h.not_empty, payload_violations)
        (rw (h.registered, contract_violations)
          (rw (
            Given-args_of (lookup "args" (entries h.members)) h.args h.given,
            envelope-extra (keys_of h.members) h.envelope,
            routed-routing h.contract rk h.routed,
            conform-args h.contract h.args h.conform,
            no_id_violations (lookup "event_id" (entries h.members)) h.event_id,
          ))))

  -- If the contracts name known kinds only, a payload has no violation exactly if it is well formed:
  -- an object with the envelope's keys only and the name of a registered event, on a routing key of
  -- its contract, with enough arguments and not too many, each a JSON value of the declared kind or
  -- an allowed null, and with an event id that is absent, null or a text.
  pub payload_violations-Conforms :
      (routing_key : Option String) (payload : Value)
      → IsWired contracts
      → (payload_violations contracts routing_key payload ≡ []) ↔ Conforms routing_key payload
  payload_violations-Conforms rk payload wired =
      (violations-Conforms rk payload wired, conforms-violations rk payload)
