-- ===== src/Rbac/Sessions.antt =====
-- The roles that a session activates (`activated_roles` of core/rbac_roles.py).
use lkm_service.Rbac.Choice.{choose_from, IsSeparated, checked-IsSeparated}
use lkm_service.Rbac.Authorized.{role_closure-ClosureOf}
use lkm_service.Rbac.Members.{
  is_subset_member, contains-sorted, contains-keep, contains-append, contains-add_all,
}
use lkm_service.Rbac.Closure.{IsClosed, itself}
use lkm_service.Rbac.{
  SeparationConstraint, choose, role_closure, add_all, checked, is_subset, RbacErr, selection,
  assigned_roles, authorized_roles, composite_role, sorted, has_duplicates, activated_roles,
  ssd_violation, dsd_violation,
}
use lkm_service.Prelude.{
  Bool-cases, nat_key, inr, ◌∷◌, List, ◌≡◌, sym, ◌&&◌, ◌||◌, [], ◌==◌, inl, keep, true, String,
  ◌++◌, Option, some, text_key, arith, contains, ◌∙◌, refl, not, none,
}
use Prim.Native.String.{◌++◌ as ◌+++◌}
use text.Mathlib.Text.{starts_with}
use lkm_service.Prelude.Dict.{Dict}
use lkm_service.Prelude.Exec.{Result, ok, err, and_then-ok, and_then}

module _ (known : List String) (inheritance : Dict String (List String)) where
  -- A role that `choose` may take from is authorized, if the primary role is a known one.
  candidate :
      (account_level primary_role : String) (extra : List String) (x : String)
      → IsClosed known inheritance
      → contains (composite_role account_level primary_role) known ≡ true
      → contains x (
          composite_role account_level primary_role
          ∷ (assigned_roles known inheritance account_level primary_role extra
              ++ authorized_roles known inheritance account_level primary_role extra))
        ≡ true
      → contains x (authorized_roles known inheritance account_level primary_role extra) ≡ true
  unfolding assigned_roles authorized_roles
  candidate account_level primary_role extra x closed primary h =
      let own = composite_role account_level primary_role in
      let added = keep (λ r. starts_with r (account_level +++ ":") && contains r known) extra in
      let direct = sorted (add_all added (own ∷ [])) in
      let spec = role_closure-ClosureOf known inheritance closed direct in
      let members : contains x direct ≡ (contains x added || own == x) =
        contains-sorted x (add_all added (own ∷ []))
        ∙ ground (arith, contains-add_all x added (own ∷ [])) in
      elim (Bool-cases (contains x direct)) [
        | inl inside ↦ spec.complete x (record {
          root = x;
          given = inside;
          root_known = elim (Bool-cases (own == x)) [
            | inl e ↦ let same : own ≡ x = (text_key.same_iff own x).0 e in rw (← same) primary
            | inr e ↦ ground (
              arith,
              members,
              inside,
              e,
              contains-keep (λ r. starts_with r (account_level +++ ":") && contains r known) x
                  extra,
            )
          ];
          inherits = itself x;
        })
        | inr outside ↦ ground (
          arith,
          h,
          members,
          outside,
          contains-append x direct (role_closure known inheritance direct),
        )
      ]

  -- What a session may hold: only authorized roles, separated as the constraints demand.
  pub record Session (ssd dsd : List SeparationConstraint) (available selected : List String)
      : Type 0 where
    pub authorized : (x : String) → contains x selected ≡ true → contains x available ≡ true
    pub separated : IsSeparated known inheritance selected dsd
    pub assigned : IsSeparated known inheritance available ssd

  selection-authorized :
      (dsd : List SeparationConstraint) (account_level primary_role : String) (extra : List String)
      (selected_roles : Option (List String)) (out : List String) (x : String)
      → IsClosed known inheritance
      → contains (composite_role account_level primary_role) known ≡ true
      → selection known inheritance dsd
          (composite_role account_level primary_role ∷ [])
          (assigned_roles known inheritance account_level primary_role extra)
          (authorized_roles known inheritance account_level primary_role extra)
          selected_roles
        ≡ ok out
      → contains x out ≡ true
      → contains x (authorized_roles known inheritance account_level primary_role extra) ≡ true
  unfolding selection
  selection-authorized dsd account_level primary_role extra none out x closed primary h p =
      let own = composite_role account_level primary_role in
      let direct = assigned_roles known inheritance account_level primary_role extra in
      let available = authorized_roles known inheritance account_level primary_role extra in
      go (choose known inheritance dsd (own ∷ (direct ++ available)) []) refl h
    where
      go :
          (r : Result RbacErr (List String))
          → choose known inheritance dsd
              (composite_role account_level primary_role
                ∷ (assigned_roles known inheritance account_level primary_role extra
                    ++ authorized_roles known inheritance account_level primary_role extra))
              []
            ≡ r
          → (elim r [ err e ↦ err e | ok chosen ↦ ok (sorted chosen) ]) ≡ ok out
          → contains x (authorized_roles known inheritance account_level primary_role extra) ≡ true
      go (err e) q k = absurd (cc k)
      go (ok chosen) q k =
          let same : sorted chosen ≡ out = cc k in
          candidate account_level primary_role extra x closed primary (
            ground (
              arith,
              choose_from known inheritance dsd
                  (composite_role account_level primary_role
                    ∷ (assigned_roles known inheritance account_level primary_role extra
                        ++ authorized_roles known inheritance account_level primary_role extra))
                  [] chosen x q (sym (contains-sorted x chosen) ∙ rw same p),
            ))
  selection-authorized dsd account_level primary_role extra (some selected) out x closed primary h
        p =
      let available = authorized_roles known inheritance account_level primary_role extra in
      elim (Bool-cases (has_duplicates selected || not (is_subset selected available))) [
        | inl bad ↦ absurd (cc (rw bad at h))
        | inr good ↦
            let same : sorted selected ≡ out = cc (rw good at h) in
            is_subset_member selected available x (ground (arith, good))
              (sym (contains-sorted x selected) ∙ rw same p)
      ]

  -- A session whose roles are activated holds only roles that its account's assignments authorize,
  -- and neither they nor the authorized ones break a separation constraint, whether the roles are
  -- chosen by the token or by default; the hierarchy names known roles only, and the primary role is
  -- known.
  pub activated_roles-Session :
      (ssd dsd : List SeparationConstraint) (account_level primary_role : String)
      (extra : List String) (selected_roles : Option (List String)) (out : List String)
      → IsClosed known inheritance
      → contains (composite_role account_level primary_role) known ≡ true
      → activated_roles known inheritance ssd dsd account_level primary_role extra selected_roles
        ≡ ok out
      → Session ssd dsd (authorized_roles known inheritance account_level primary_role extra) out
  unfolding activated_roles authorized_roles
  activated_roles-Session ssd dsd account_level primary_role extra selected_roles out closed primary
        h =
      let direct = assigned_roles known inheritance account_level primary_role extra in
      let available = role_closure known inheritance direct in
      let primaries = composite_role account_level primary_role ∷ [] in
      let (allowed, first, rest) =
        and_then-ok (checked known inheritance ssd ssd_violation available)
          (λ _.
            and_then (selection known inheritance dsd primaries direct available selected_roles)
              (checked known inheritance dsd dsd_violation))
          out h in
      let (selected, second, third) =
        and_then-ok (selection known inheritance dsd primaries direct available selected_roles)
          (checked known inheritance dsd dsd_violation) out rest in
      let (same, apart) =
        checked-IsSeparated known inheritance dsd dsd_violation selected out third in
      record {
        authorized = λ x p.
            selection-authorized dsd account_level primary_role extra selected_roles selected x
              closed primary second (rw same p);
        separated = rw (← same) apart;
        assigned =
            (checked-IsSeparated known inheritance ssd ssd_violation available allowed first).1;
      }
