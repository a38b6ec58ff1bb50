-- ===== src/Rbac/Tests.antt =====
-- The roles of the service at concrete inputs.
use lkm_service.Rbac.Authorized.{ClosureOf, role_closure-ClosureOf}
use lkm_service.Rbac.Hierarchy.{names_known-IsClosed}
use lkm_service.Rbac.Sessions.{Session, activated_roles-Session}
use lkm_service.Rbac.Closure.{IsClosed}
use lkm_service.Rbac.{
  activated_roles, role_closure, SeparationConstraint, checked, known_roles, closing, selection,
  role_inheritance, choose, satisfies_constraints, assigned_roles, authorized_roles,
}
use lkm_service.Prelude.{refl, [], ◌≡◌, nat_key, text_key, ◌∷◌, none}
use lkm_service.Prelude.Dict.{lookup}
use lkm_service.Prelude.Exec.{ok}

closure_run :
    role_closure known_roles role_inheritance ("normal:author" ∷ "root" ∷ [])
    ≡ "normal:author" ∷ "normal:columnist" ∷ "normal:member" ∷ []
unfolding role_closure closing lookup
closure_run = refl

hierarchy-IsClosed : IsClosed known_roles role_inheritance
hierarchy-IsClosed = names_known-IsClosed known_roles role_inheritance refl

role_closure-ClosureOf_example :
    ClosureOf known_roles role_inheritance
      ("normal:author" ∷ [])
      (role_closure known_roles role_inheritance ("normal:author" ∷ []))
role_closure-ClosureOf_example =
    role_closure-ClosureOf known_roles role_inheritance hierarchy-IsClosed ("normal:author" ∷ [])

abbrev one_duty : SeparationConstraint
one_duty = record {
  roles = "admin:content_reviewer" ∷ "admin:content_publisher" ∷ [];
  max_roles = 1;
}

session_run :
    activated_roles known_roles role_inheritance []
      (one_duty ∷ [])
      "admin"
      "org_member"
      ("admin:content_reviewer" ∷ "admin:content_publisher" ∷ [])
      none
    ≡ ok ("admin:content_publisher" ∷ "admin:org_member" ∷ [])
unfolding activated_roles checked selection choose satisfies_constraints assigned_roles role_closure
    closing lookup
session_run = refl

activated_roles-Session_example :
    Session known_roles role_inheritance []
      (one_duty ∷ [])
      (authorized_roles known_roles role_inheritance "admin" "org_member"
        ("admin:content_reviewer" ∷ "admin:content_publisher" ∷ []))
      ("admin:content_publisher" ∷ "admin:org_member" ∷ [])
activated_roles-Session_example =
    activated_roles-Session known_roles role_inheritance [] (one_duty ∷ []) "admin" "org_member"
      ("admin:content_reviewer" ∷ "admin:content_publisher" ∷ []) none
      ("admin:content_publisher" ∷ "admin:org_member" ∷ []) hierarchy-IsClosed refl session_run
