-- ===== src/Events/Kinds.antt =====
-- Which JSON values have the kind of an argument (`_WIRE_KINDS` and `_value_matches` of
-- core/event_contract.py).
use lkm_service.Prelude.Int.{ℤ}
use lkm_service.Events.{
  null, text, boolean, integer, real, array, object, Value, EventContract, Arg, text, object,
  boolean, value_matches, integer, real, array, Values, is_array, is_boolean, has_kind, is_object,
  is_integer, is_text, is_real, Members,
}
use lkm_service.Prelude.{◌≡◌, refl, true, List, String, nat_key, All, text_key, Bool}

-- The kinds that an argument may have on the wire (`_WIRE_KINDS`).
pub data WireKind : String → Type 0 where
  str_kind : WireKind "str"
  int_kind : WireKind "int"
  float_kind : WireKind "float"
  bool_kind : WireKind "bool"
  list_kind : WireKind "list"
  dict_kind : WireKind "dict"

-- What `_validate_registry` asks of the kinds.
abbrev pub IsWired : List EventContract → Type 0
IsWired = All (λ c. All (λ a. WireKind a.kind) c.args)

-- Which JSON values have which kind: a whole number is also a float, a truth value is no number, and
-- null has no kind.
pub data HasType : String → Value → Type 0 where
  of_text : (t : String) → HasType "str" (text t)
  of_integer : (n : ℤ) → HasType "int" (integer n)
  of_real_integer : (n : ℤ) → HasType "float" (integer n)
  of_real : (t : String) → HasType "float" (real t)
  of_boolean : (b : Bool) → HasType "bool" (boolean b)
  of_array : (l : Values) → HasType "list" (array l)
  of_object : (l : Members) → HasType "dict" (object l)

-- A value that may stand for an argument: one of its kind, or null where that is allowed.
pub data Fits (a : Arg) : Value → Type 0 where
  allowed_null : a.nullable ≡ true → Fits a null
  of_kind : {v : Value} → HasType a.kind v → Fits a v

is_text-HasType : (v : Value) → is_text v ≡ true → HasType "str" v
is_text-HasType null h = absurd (cc h)
is_text-HasType (boolean x) h = absurd (cc h)
is_text-HasType (integer x) h = absurd (cc h)
is_text-HasType (real x) h = absurd (cc h)
is_text-HasType (text x) h = of_text x
is_text-HasType (array x) h = absurd (cc h)
is_text-HasType (object x) h = absurd (cc h)

is_integer-HasType : (v : Value) → is_integer v ≡ true → HasType "int" v
is_integer-HasType null h = absurd (cc h)
is_integer-HasType (boolean x) h = absurd (cc h)
is_integer-HasType (integer x) h = of_integer x
is_integer-HasType (real x) h = absurd (cc h)
is_integer-HasType (text x) h = absurd (cc h)
is_integer-HasType (array x) h = absurd (cc h)
is_integer-HasType (object x) h = absurd (cc h)

is_real-HasType : (v : Value) → is_real v ≡ true → HasType "float" v
is_real-HasType null h = absurd (cc h)
is_real-HasType (boolean x) h = absurd (cc h)
is_real-HasType (integer x) h = of_real_integer x
is_real-HasType (real x) h = of_real x
is_real-HasType (text x) h = absurd (cc h)
is_real-HasType (array x) h = absurd (cc h)
is_real-HasType (object x) h = absurd (cc h)

is_boolean-HasType : (v : Value) → is_boolean v ≡ true → HasType "bool" v
is_boolean-HasType null h = absurd (cc h)
is_boolean-HasType (boolean x) h = of_boolean x
is_boolean-HasType (integer x) h = absurd (cc h)
is_boolean-HasType (real x) h = absurd (cc h)
is_boolean-HasType (text x) h = absurd (cc h)
is_boolean-HasType (array x) h = absurd (cc h)
is_boolean-HasType (object x) h = absurd (cc h)

is_array-HasType : (v : Value) → is_array v ≡ true → HasType "list" v
is_array-HasType null h = absurd (cc h)
is_array-HasType (boolean x) h = absurd (cc h)
is_array-HasType (integer x) h = absurd (cc h)
is_array-HasType (real x) h = absurd (cc h)
is_array-HasType (text x) h = absurd (cc h)
is_array-HasType (array x) h = of_array x
is_array-HasType (object x) h = absurd (cc h)

is_object-HasType : (v : Value) → is_object v ≡ true → HasType "dict" v
is_object-HasType null h = absurd (cc h)
is_object-HasType (boolean x) h = absurd (cc h)
is_object-HasType (integer x) h = absurd (cc h)
is_object-HasType (real x) h = absurd (cc h)
is_object-HasType (text x) h = absurd (cc h)
is_object-HasType (array x) h = absurd (cc h)
is_object-HasType (object x) h = of_object x

has_kind-HasType : (k : String) (v : Value) → WireKind k → has_kind k v ≡ true → HasType k v
has_kind-HasType k v str_kind h = is_text-HasType v h
has_kind-HasType k v int_kind h = is_integer-HasType v h
has_kind-HasType k v float_kind h = is_real-HasType v h
has_kind-HasType k v bool_kind h = is_boolean-HasType v h
has_kind-HasType k v list_kind h = is_array-HasType v h
has_kind-HasType k v dict_kind h = is_object-HasType v h

pub value_matches-Fits :
    (v : Value) (a : Arg) → WireKind a.kind → value_matches v a ≡ true → Fits a v
unfolding value_matches
value_matches-Fits null a w h = allowed_null h
value_matches-Fits (boolean x) a w h = of_kind (has_kind-HasType a.kind (boolean x) w h)
value_matches-Fits (integer x) a w h = of_kind (has_kind-HasType a.kind (integer x) w h)
value_matches-Fits (real x) a w h = of_kind (has_kind-HasType a.kind (real x) w h)
value_matches-Fits (text x) a w h = of_kind (has_kind-HasType a.kind (text x) w h)
value_matches-Fits (array x) a w h = of_kind (has_kind-HasType a.kind (array x) w h)
value_matches-Fits (object x) a w h = of_kind (has_kind-HasType a.kind (object x) w h)

HasType-value_matches :
    (k : String) (v : Value) (a : Arg) → a.kind ≡ k → HasType k v → value_matches v a ≡ true
unfolding value_matches
HasType-value_matches k v a e (of_text x) = rw e refl
HasType-value_matches k v a e (of_integer x) = rw e refl
HasType-value_matches k v a e (of_real_integer x) = rw e refl
HasType-value_matches k v a e (of_real x) = rw e refl
HasType-value_matches k v a e (of_boolean x) = rw e refl
HasType-value_matches k v a e (of_array x) = rw e refl
HasType-value_matches k v a e (of_object x) = rw e refl

pub Fits-value_matches : (v : Value) (a : Arg) → Fits a v → value_matches v a ≡ true
unfolding value_matches
Fits-value_matches v a (allowed_null h) = h
Fits-value_matches v a (of_kind h) = HasType-value_matches a.kind v a refl h
