-- ===== src/Rbac/Authorized.antt =====
-- `role_closure` of core/rbac_roles.py against the inheritance of roles.
use lkm_service.Rbac.Members.{contains-onto, contains-keep, contains-sorted}
use lkm_service.Rbac.{onto, role_closure, juniors, pushes}
use lkm_service.Rbac.Closure.{
  Complete, Inherits, IsClosed, itself, closing-total, deeper, closing-Complete, closing-keeps,
}
use lkm_service.Prelude.{
  ◌+◌, ◌≡◌, sym, ◌∙◌, true, ◌&&◌, List, [], String, arith, nat_key, text_key, keep, length,
  contains,
}
use lkm_service.Prelude.Dict.{Dict}

module _ (known : List String) (inheritance : Dict String (List String)) where
  -- One of the known roles of the set authorizes it.
  pub record Authorized (roles : List String) (role : String) : Type 0 where
    pub root : String
    pub given : contains root roles ≡ true
    pub root_known : contains root known ≡ true
    pub inherits : Inherits known inheritance root role

  pub record ClosureOf (roles out : List String) : Type 0 where
    pub sound : (role : String) → contains role out ≡ true → Authorized roles role
    pub complete : (role : String) → Authorized roles role → contains role out ≡ true

  append-Inherits :
      (root senior role : String)
      → contains role (juniors known inheritance senior) ≡ true
      → Inherits known inheritance root senior
      → Inherits known inheritance root role
  append-Inherits root senior role h (itself _) = deeper root role role h (itself role)
  append-Inherits root senior role h (deeper _ junior _ first rest) =
      deeper root junior role first (append-Inherits junior senior role h rest)

  down :
      (pending out : List String)
      → Complete known inheritance pending [] out
      → (root role : String) → Inherits known inheritance root role
      → contains root out ≡ true
      → contains role out ≡ true
  down pending out c root role (itself _) h = h
  down pending out c root role (deeper _ junior _ first rest) h =
      down pending out c junior role rest (c.junior root junior h first)

  abbrev start : List String → List String
  start roles = onto (keep (λ r. contains r known) roles) []

  starts :
      (roles : List String) (x : String)
      → contains x (start roles) ≡ (contains x roles && contains x known)
  starts roles x =
      contains-onto x (keep (λ r. contains r known) roles) []
      ∙ ground (arith, contains-keep (λ r. contains r known) x roles)

  -- The set that `role_closure` returns is exactly what the known roles of its argument authorize,
  -- over any number of levels, if the hierarchy names known roles only; the loop always ends.
  pub role_closure-ClosureOf :
      IsClosed known inheritance
      → (roles : List String) → ClosureOf roles (role_closure known inheritance roles)
  unfolding role_closure
  role_closure-ClosureOf closed roles =
      let pending = start roles in
      let (out, found) =
        closing-total known inheritance (length pending + pushes known inheritance known []) pending
          [] closed (λ x q. ground (arith, starts roles x, q)) (omega arith) in
      let whole =
        closing-Complete known inheritance (length pending + pushes known inheritance known [])
          pending [] out (record { junior = λ senior x p q. absurd (cc p) }) found in
      rw (found, role_closure)
        (record {
          sound = λ role p.
              closing-keeps known inheritance (Authorized roles)
                (λ senior x h a. record {
                  root = a.root;
                  given = a.given;
                  root_known = a.root_known;
                  inherits = append-Inherits a.root senior x h a.inherits;
                })
                (length pending + pushes known inheritance known []) pending [] out
                (λ x q. record {
                  root = x;
                  given = ground (arith, starts roles x, q);
                  root_known = ground (arith, starts roles x, q);
                  inherits = itself x;
                })
                found role (sym (contains-sorted role out) ∙ p);
          complete = λ role a.
              contains-sorted role out
              ∙ down pending out whole a.root role a.inherits (
                  whole.started a.root
                    (starts roles a.root ∙ ground (arith, a.given, a.root_known)));
        })
