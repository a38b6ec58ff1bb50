-- ===== src/Events.antt =====
-- The contract of the events (core/event_contract.py): which payload of an event is well formed,
-- and which handler can take it. A payload is a JSON value as `json.loads` gives it.
pub mod Registry
pub mod Kinds
pub mod Parts
pub mod Payloads
pub mod Handlers
mod Tests
use lkm_service.Prelude.{
  ℕ, zero, suc, ◌+◌, ◌-◌, ◌*◌, ◌≤◌, ◌<◌, ◌≡◌, refl, sym, ap, ◌∙◌, subst, ◌≢◌, ◌↔◌, ◌⊎◌, inl, inr,
  Bool, true, false, not, ◌&&◌, ◌||◌, Option, none, some, List, [], ◌∷◌, ◌++◌, map, min, max,
  String, arith, if◌then◌else◌, ltb, leb, ◌==◌, nat_key, text_key, Bool-cases, Option-cases, All,
  any, all, keep, length, take, drop, is_some, contains,
}
use lkm_service.Prelude.Dict.{Dict, lookup}
use lkm_service.Prelude.Int.{ℤ}

mutual
  pub data Value : Type 0 where
    null : Value
    boolean : Bool → Value
    integer : ℤ → Value
    -- A number with a fraction or an exponent, as it is written.
    real : String → Value
    text : String → Value
    array : Values → Value
    object : Members → Value

  pub data Values : Type 0 where
    no_values : Values
    value_then : Value → Values → Values

  pub data Members : Type 0 where
    no_members : Members
    member_then : String → Value → Members → Members

abbrev pub items : Values → List Value
items no_values = []
items (value_then v l) = v ∷ items l

abbrev pub entries : Members → Dict String Value
entries no_members = []
entries (member_then k v l) = (k, v) ∷ entries l

abbrev pub keys_of : Members → List String
keys_of no_members = []
keys_of (member_then k v l) = k ∷ keys_of l

pub record Arg : Type 0 where
  pub name : String
  pub kind : String
  pub nullable : Bool
  pub optional : Bool

pub record EventContract : Type 0 where
  pub fn : String
  pub routing_keys : List String
  pub args : List Arg

abbrev pub required : EventContract → ℕ
required c = length (keep (λ a. not a.optional) c.args)

abbrev pub maximum : EventContract → ℕ
maximum c = length c.args

abbrev pub envelope_keys : List String
envelope_keys = "fn" ∷ "args" ∷ "event_id" ∷ []

-- The reasons of a violation; the messages' texts are left out.
pub data Violation : Type 0 where
  not_object fn_missing args_not_array event_id_not_text : Violation
  unknown_keys : List String → Violation
  unregistered : String → Violation
  wrong_routing_key : String → String → Violation
  too_few too_many : ℕ → Violation
  wrong_type : ℕ → String → Violation

abbrev pub is_text : Value → Bool
is_text (text _) = true
is_text _ = false

abbrev pub is_integer : Value → Bool
is_integer (integer _) = true
is_integer _ = false

abbrev pub is_real : Value → Bool
is_real (integer _) = true
is_real (real _) = true
is_real _ = false

abbrev pub is_boolean : Value → Bool
is_boolean (boolean _) = true
is_boolean _ = false

abbrev pub is_array : Value → Bool
is_array (array _) = true
is_array _ = false

abbrev pub is_object : Value → Bool
is_object (object _) = true
is_object _ = false

abbrev pub has_kind : String → Value → Bool
has_kind kind v =
    if kind == "str"
    then is_text v
    else if kind == "int"
    then is_integer v
    else if kind == "float"
    then is_real v
    else if kind == "bool"
    then is_boolean v
    else if kind == "list"
    then is_array v
    else is_object v

unfoldable pub value_matches : Value → Arg → Bool
value_matches null arg = arg.nullable
value_matches v arg = has_kind arg.kind v

-- The arguments, from this index on, that do not match.
unfoldable pub mismatches : ℕ → List Value → List Arg → List Violation
mismatches n [] args = []
mismatches n (v ∷ l) [] = []
mismatches n (v ∷ l) (a ∷ args) =
    let rest = mismatches (n + 1) l args in
    if value_matches v a then rest else wrong_type n a.name ∷ rest

unfoldable pub args_violations : EventContract → List Value → List Violation
args_violations c args =
    if ltb (length args) (required c)
    then too_few (length args) ∷ []
    else if ltb (maximum c) (length args)
    then too_many (length args) ∷ []
    else mismatches 0 args c.args

abbrev pub event_id_violations : Option Value → List Violation
event_id_violations none = []
event_id_violations (some null) = []
event_id_violations (some (text _)) = []
event_id_violations (some _) = event_id_not_text ∷ []

abbrev pub extra_violations : List String → List Violation
extra_violations keys = elim (keep (λ k. not (contains k envelope_keys)) keys) [
  | [] ↦ []
  | k ∷ l ↦ unknown_keys (k ∷ l) ∷ []
]

unfoldable pub routing_violations : EventContract → Option String → List Violation
routing_violations c none = []
routing_violations c (some rk) =
    if contains rk c.routing_keys then [] else wrong_routing_key c.fn rk ∷ []

-- The array of the arguments, and an empty one where there is none.
abbrev pub args_of : Option Value → Option (List Value)
args_of none = some []
args_of (some (array l)) = some (items l)
args_of (some _) = none

unfoldable pub find_contract : String → List EventContract → Option EventContract
find_contract fn [] = none
find_contract fn (c ∷ l) = if c.fn == fn then some c else find_contract fn l

-- The registered event that a payload names.
abbrev pub named : Option Value → Option String
named (some (text fn)) = if fn == "" then none else some fn
named _ = none

module _ (contracts : List EventContract) where
  unfoldable pub contract_violations :
      Option String → Dict String Value → EventContract → List Violation
  contract_violations routing_key fields c =
      routing_violations c routing_key ++ (elim (args_of (lookup "args" fields)) [
        | none ↦ args_not_array ∷ []
        | some args ↦ args_violations c args ++ event_id_violations (lookup "event_id" fields)
      ])

  unfoldable pub payload_violations : Option String → Value → List Violation
  payload_violations routing_key (object members) =
      extra_violations (keys_of members) ++ (elim (named (lookup "fn" (entries members))) [
        | none ↦ fn_missing ∷ []
        | some fn ↦ elim (find_contract fn contracts) [
          | none ↦ unregistered fn ∷ []
          | some c ↦ contract_violations routing_key (entries members) c
        ]
      ])
  payload_violations routing_key _ = not_object ∷ []

-- `inspect.Parameter`.
pub data Kind : Type 0 where
  positional_only positional_or_keyword var_positional keyword_only var_keyword : Kind

pub record Parameter : Type 0 where
  pub kind : Kind
  pub has_default : Bool

abbrev pub is_positional : Parameter → Bool
is_positional p = elim p.kind [ positional_only ↦ true | positional_or_keyword ↦ true | _ ↦ false ]

abbrev pub is_var_positional : Parameter → Bool
is_var_positional p = elim p.kind [ var_positional ↦ true | _ ↦ false ]

pub data HandlerViolation : Type 0 where
  no_contract no_signature : HandlerViolation
  needs_more takes_fewer : ℕ → ℕ → HandlerViolation

abbrev pub positional : List Parameter → List Parameter
positional = keep is_positional

abbrev pub needed : List Parameter → List Parameter
needed params = keep (λ p. not p.has_default) (positional params)

-- The parameters of a handler, or `none` where they cannot be read.
unfoldable pub handler_violation :
    List EventContract → String → Option (List Parameter) → Option HandlerViolation
handler_violation contracts fn handler = elim (find_contract fn contracts) [
  | none ↦ some no_contract
  | some c ↦ elim handler [
    | none ↦ some no_signature
    | some params ↦
        if any is_var_positional params
        then none
        else if ltb (required c) (length (needed params))
        then some (needs_more (length (needed params)) (required c))
        else if ltb (length (positional params)) (maximum c)
        then some (takes_fewer (length (positional params)) (maximum c))
        else none
  ]
]
