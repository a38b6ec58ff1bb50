-- ===== src/Rbac.antt =====
-- Roles, their hierarchy and the separation of duties (core/rbac_roles.py). A set of roles is a
-- list, a role a text "level:name". The constraints come from the settings and are arguments.
pub mod Members
pub mod Closure
pub mod Authorized
pub mod Hierarchy
pub mod Choice
pub mod Sessions
mod Tests
use lkm_service.Prelude.{
  Option-cases, ◌-◌, keep, ◌++◌, String, ◌∙◌, nat_key, subst, Bool-cases, any, Bool, refl, take,
  ◌⊎◌, true, ◌<◌, is_some, [], ◌≤◌, ap, suc, inl, ◌||◌, max, ◌≡◌, inr, some, List, leb, ℕ, ◌∷◌,
  ◌&&◌, contains, ◌+◌, arith, Option, All, drop, ◌*◌, false, ltb, ◌↔◌, all, ◌==◌, length, text_key,
  sym, none, map, zero, if◌then◌else◌, min, not, ◌≢◌,
}
use Prim.Native.Nat.{Ordering}
use Prim.Native.String.{compare, ◌++◌ as ◌+++◌}
use text.Mathlib.Text.{starts_with}
use lkm_service.Prelude.Dict.{Dict, lookup}
use lkm_service.Prelude.Exec.{Result, ok, err, and_then}

pub data RbacErr : Type 0 where
  invalid_constraint ssd_violation not_authorized dsd_violation : RbacErr

abbrev pub known_roles : List String
known_roles =
    "local:member" ∷ "normal:member" ∷ "normal:columnist" ∷ "normal:author"
    ∷ "admin:incubated_member" ∷ "admin:org_member" ∷ "admin:content_reviewer"
    ∷ "admin:content_publisher" ∷ "admin:super_admin" ∷ []

-- A senior role, and the junior ones that it inherits directly.
abbrev pub role_inheritance : Dict String (List String)
role_inheritance =
    ("normal:columnist", "normal:member" ∷ [])
    ∷ ("normal:author", "normal:columnist" ∷ [])
    ∷ ("admin:org_member", "admin:incubated_member" ∷ [])
    ∷ ("admin:super_admin", "admin:org_member" ∷ [])
    ∷ []

pub record SeparationConstraint : Type 0 where
  pub roles : List String
  pub max_roles : ℕ

-- The last item comes first.
abbrev pub onto : List String → List String → List String
onto [] acc = acc
onto (x ∷ l) acc = onto l (x ∷ acc)

abbrev pub insert_sorted : String → List String → List String
insert_sorted x [] = x ∷ []
insert_sorted x (y ∷ l) = elim (compare x y) [ Ordering.gt ↦ y ∷ insert_sorted x l | _ ↦ x ∷ y ∷ l ]

abbrev pub sorted : List String → List String
sorted [] = []
sorted (x ∷ l) = insert_sorted x (sorted l)

-- The items of both.
abbrev pub common : List String → List String → List String
common l = keep (λ x. contains x l)

abbrev pub is_subset : List String → List String → Bool
is_subset l m = all (λ x. contains x m) l

abbrev pub has_duplicates : List String → Bool
has_duplicates [] = false
has_duplicates (x ∷ l) = contains x l || has_duplicates l

abbrev pub composite_role : String → String → String
composite_role account_level role = account_level +++ (":" +++ role)

-- A role joins the set once.
abbrev pub add_role : String → List String → List String
add_role r l = if contains r l then l else r ∷ l

abbrev pub add_all : List String → List String → List String
add_all [] acc = acc
add_all (r ∷ l) acc = add_all l (add_role r acc)

-- The known roles and the hierarchy are those above; the laws hold for any.
module _ (known : List String) (inheritance : Dict String (List String)) where
  abbrev pub juniors : String → List String
  juniors role = elim (lookup role inheritance) [ none ↦ [] | some l ↦ l ]

  -- The loop over the stack of pending roles; `none` when the fuel is too small.
  unfoldable pub closing : ℕ → List String → List String → Option (List String)
  closing n [] result = some result
  closing zero (role ∷ pending) result = none
  closing (suc n) (role ∷ pending) result = elim (contains role result) [
    | true ↦ closing n pending result
    | false ↦ closing n (onto (juniors role) pending) (role ∷ result)
  ]

  -- The juniors that roles outside `result` may still push.
  abbrev pub pushes : List String → List String → ℕ
  pushes [] result = 0
  pushes (k ∷ l) result = (if contains k result then 0 else length (juniors k)) + pushes l result

  unfoldable pub role_closure : List String → List String
  role_closure roles =
      let pending = onto (keep (λ r. contains r known) roles) [] in
      elim (closing (length pending + pushes known []) pending []) [ none ↦ [] | some l ↦ sorted l ]

  unfoldable pub satisfies_constraints :
      List String → List SeparationConstraint → Result RbacErr Bool
  satisfies_constraints roles [] = ok true
  satisfies_constraints roles (item ∷ constraints) =
      let rest = satisfies_constraints roles constraints in
      if not (is_subset item.roles known)
        || not (ltb 0 item.max_roles && ltb item.max_roles (length item.roles))
      then err invalid_constraint
      else if ltb item.max_roles (length (common (role_closure roles) item.roles))
      then ok false
      else rest

  unfoldable pub assigned_roles : String → String → List String → List String
  assigned_roles account_level primary_role extra = sorted (
      add_all (keep (λ r. starts_with r (account_level +++ ":") && contains r known) extra)
        (composite_role account_level primary_role ∷ []))

  unfoldable pub authorized_roles : String → String → List String → List String
  authorized_roles account_level primary_role extra =
      role_closure (assigned_roles account_level primary_role extra)

  -- The roles that join one by one, as long as the constraints allow them; last chosen first.
  unfoldable pub choose :
      List SeparationConstraint → List String → List String → Result RbacErr (List String)
  choose dsd [] chosen = ok chosen
  choose dsd (role ∷ candidates) chosen = elim (contains role (role_closure (onto chosen []))) [
    | true ↦ choose dsd candidates chosen
    | false ↦ elim (satisfies_constraints (onto (role ∷ chosen) []) dsd) [
      | err e ↦ err e
      | ok true ↦ choose dsd candidates (role ∷ chosen)
      | ok false ↦ choose dsd candidates chosen
    ]
  ]

  unfoldable pub selection :
      List SeparationConstraint
      → List String
      → List String
      → List String
      → Option (List String)
      → Result RbacErr (List String)
  selection dsd primary direct available none =
      elim (choose dsd (primary ++ (direct ++ available)) []) [
        | err e ↦ err e
        | ok chosen ↦ ok (sorted chosen)
      ]
  selection dsd primary direct available (some selected) =
      if has_duplicates selected || not (is_subset selected available)
      then err not_authorized
      else ok (sorted selected)

  -- The last check of `activated_roles`.
  unfoldable pub checked :
      List SeparationConstraint → RbacErr → List String → Result RbacErr (List String)
  checked constraints e roles = elim (satisfies_constraints roles constraints) [
    | err e' ↦ err e'
    | ok true ↦ ok roles
    | ok false ↦ err e
  ]

  unfoldable pub activated_roles :
      List SeparationConstraint
      → List SeparationConstraint
      → String
      → String
      → List String
      → Option (List String)
      → Result RbacErr (List String)
  activated_roles ssd dsd account_level primary_role extra selected_roles =
      let direct = assigned_roles account_level primary_role extra in
      let available = role_closure direct in
      and_then (checked ssd ssd_violation available) (λ _.
        and_then
          (selection dsd (composite_role account_level primary_role ∷ []) direct available
            selected_roles)
          (checked dsd dsd_violation))
