-- ===== src/Events/Tests.antt =====
-- The event contract at concrete inputs.
use lkm_service.Events.Handlers.{Binds, IsSignature, NeedsNoKeyword, handler_violation-Binds}
use lkm_service.Events.Kinds.{IsWired, of_kind, of_text, str_kind}
use lkm_service.Events.Parts.{ArgsConform, IsEventId, Given, an_array}
use lkm_service.Events.Registry.{
  event_contracts, rkey_send_magic, rkey_notify, event_contract, plain_arg,
}
use lkm_service.Events.Payloads.{Conforms, payload_violations-Conforms}
use lkm_service.Events.{
  payload_violations, Parameter, Value, object, positional_or_keyword, EventContract,
  contract_violations, find_contract, member_then, routing_violations, text, args_violations, array,
  mismatches, value_then, value_matches, no_values, no_members, null, unknown_keys,
  wrong_routing_key, too_few, Members, handler_violation, entries,
}
use lkm_service.Prelude.{some, text_key, ◌↔◌, List, false, true, refl, nat_key, [], arith, ◌∷◌, ◌≡◌}
use lkm_service.Prelude.Dict.{lookup}

-- {"fn": "send_magic_link", "args": ["a@b", "https://…"]}
abbrev magic : Value
magic = object (
    member_then "fn" (text "send_magic_link") (
      member_then "args" (array (value_then (text "a@b") (value_then (text "link") no_values)))
        no_members))

magic_run : payload_violations event_contracts (some rkey_send_magic) magic ≡ []
unfolding payload_violations contract_violations find_contract routing_violations args_violations
    mismatches value_matches lookup
magic_run = refl

short_run :
    payload_violations event_contracts
      (some rkey_notify)
      (object (member_then "fn" (text "send_code") (member_then "x" null no_members)))
    ≡ unknown_keys ("x" ∷ []) ∷ wrong_routing_key "send_code" rkey_notify ∷ too_few 0 ∷ []
unfolding payload_violations contract_violations find_contract routing_violations args_violations
    mismatches value_matches lookup
short_run = refl

event_contracts-IsWired : IsWired event_contracts
event_contracts-IsWired = (
  (str_kind, (str_kind, (str_kind, tt))),
  (
    (str_kind, (str_kind, tt)),
    (
      (str_kind, tt),
      (
        (str_kind, (str_kind, (str_kind, tt))),
        (
          (str_kind, tt),
          (
            (str_kind, (str_kind, (str_kind, tt))),
            (
              (str_kind, (str_kind, tt)),
              (
                (str_kind, tt),
                (
                  tt,
                  (
                    tt,
                    (
                      tt,
                      (
                        tt,
                        (tt, (tt, (tt, (tt, (tt, (tt, (tt, (tt, (tt, (tt, (tt, (tt, tt)))))))))))),
                      ),
                    ),
                  ),
                ),
              ),
            ),
          ),
        ),
      ),
    ),
  ),
)

payload_violations-Conforms_example :
    (payload_violations event_contracts (some rkey_send_magic) magic ≡ [])
    ↔ Conforms event_contracts (some rkey_send_magic) magic
payload_violations-Conforms_example =
    payload_violations-Conforms event_contracts (some rkey_send_magic) magic event_contracts-IsWired

abbrev magic_members : Members
magic_members = member_then "fn" (text "send_magic_link") (
    member_then "args" (array (value_then (text "a@b") (value_then (text "link") no_values)))
      no_members)

abbrev magic_contract : EventContract
magic_contract =
    event_contract "send_magic_link" (rkey_send_magic ∷ [])
      (plain_arg "email" "str" ∷ plain_arg "link" "str" ∷ [])

abbrev magic_args : List Value
magic_args = text "a@b" ∷ text "link" ∷ []

magic_name : lookup "fn" (entries magic_members) ≡ some (text "send_magic_link")
unfolding lookup
magic_name = refl

magic_registered : find_contract "send_magic_link" event_contracts ≡ some magic_contract
unfolding find_contract
magic_registered = refl

magic-Given : Given (lookup "args" (entries magic_members)) magic_args
unfolding lookup
magic-Given = an_array (value_then (text "a@b") (value_then (text "link") no_values))

magic-ArgsConform : ArgsConform magic_contract magic_args
unfolding value_matches
magic-ArgsConform = record {
  enough = omega arith;
  fits = omega arith;
  typed = (of_kind (of_text "a@b"), (of_kind (of_text "link"), tt));
}

magic-IsEventId : IsEventId (lookup "event_id" (entries magic_members))
unfolding lookup
magic-IsEventId = tt

abbrev well_formed : Conforms event_contracts (some rkey_send_magic) magic
well_formed = record {
  members = magic_members;
  is_an_object = refl;
  envelope = (refl, (refl, tt));
  fn = "send_magic_link";
  name = magic_name;
  not_empty = refl;
  contract = magic_contract;
  registered = magic_registered;
  of_name = refl;
  routed = refl;
  args = magic_args;
  given = magic-Given;
  conform = magic-ArgsConform;
  event_id = magic-IsEventId;
}

abbrev two_params : List Parameter
two_params =
    record { kind = positional_or_keyword; has_default = false }
    ∷ record { kind = positional_or_keyword; has_default = true }
    ∷ []

two_params-IsSignature : IsSignature two_params
two_params-IsSignature = ((λ h. refl), ((λ h. refl), tt))

two_params-NeedsNoKeyword : NeedsNoKeyword two_params
two_params-NeedsNoKeyword = ((λ h. absurd (cc h)), ((λ h. refl), tt))

handler_violation-Binds_example : Binds two_params 2
unfolding handler_violation find_contract
handler_violation-Binds_example =
    handler_violation-Binds event_contracts (some rkey_send_magic) magic two_params well_formed refl
      two_params-IsSignature two_params-NeedsNoKeyword refl
