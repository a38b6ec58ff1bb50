-- ===== src/Rbac/Choice.antt =====
-- The greedy choice of roles and the check of the constraints (core/rbac_roles.py).
use lkm_service.Rbac.{
  SeparationConstraint, choose, satisfies_constraints, role_closure, checked, is_subset, common,
  RbacErr, onto,
}
use lkm_service.Prelude.{
  true, text_key, String, refl, arith, All, ◌∷◌, ◌≤◌, contains, ◌||◌, nat_key, [], ◌&&◌, length,
  false, inl, inr, List, ltb, ◌≡◌, Bool-cases, not, Bool,
}
use lkm_service.Prelude.Dict.{Dict}
use lkm_service.Prelude.Exec.{Result, ok, err}

module _ (known : List String) (inheritance : Dict String (List String)) where
  abbrev closure : List String → List String
  closure = role_closure known inheritance

  -- No constraint has more roles in the closure than it allows.
  abbrev pub IsSeparated : List String → List SeparationConstraint → Type 0
  IsSeparated roles =
      All
        (λ item. length (common (role_closure known inheritance roles) item.roles) ≤ item.max_roles)

  satisfies_constraints-IsSeparated :
      (roles : List String) (constraints : List SeparationConstraint)
      → satisfies_constraints known inheritance roles constraints ≡ ok true
      → IsSeparated roles constraints
  unfolding satisfies_constraints
  satisfies_constraints-IsSeparated roles [] h = tt
  satisfies_constraints-IsSeparated roles (item ∷ constraints) h =
      elim (Bool-cases (
        not (is_subset item.roles known)
        || not (ltb 0 item.max_roles && ltb item.max_roles (length item.roles)))) [
          | inl bad ↦ absurd (cc (rw bad at h))
          | inr good ↦
              elim (Bool-cases (ltb item.max_roles (length (common (closure roles) item.roles)))) [
                | inl over ↦ absurd (cc (rw (good, over) at h))
                | inr fits ↦ (
                  ground (arith, fits),
                  satisfies_constraints-IsSeparated roles constraints (rw (good, fits) at h),
                )
              ]
        ]

  pub checked-IsSeparated :
      (constraints : List SeparationConstraint) (e : RbacErr) (roles out : List String)
      → checked known inheritance constraints e roles ≡ ok out
      → (roles ≡ out) × IsSeparated roles constraints
  unfolding checked
  checked-IsSeparated constraints e roles out h =
      go (satisfies_constraints known inheritance roles constraints) refl h
    where
      go :
          (r : Result RbacErr Bool)
          → satisfies_constraints known inheritance roles constraints ≡ r
          → (elim r [ err e' ↦ err e' | ok true ↦ ok roles | ok false ↦ err e ]) ≡ ok out
          → (roles ≡ out) × IsSeparated roles constraints
      go (err e') q k = absurd (cc k)
      go (ok true) q k = (cc k, satisfies_constraints-IsSeparated roles constraints q)
      go (ok false) q k = absurd (cc k)

  pub choose_from :
      (dsd : List SeparationConstraint) (candidates chosen out : List String) (x : String)
      → choose known inheritance dsd candidates chosen ≡ ok out
      → contains x out ≡ true
      → (contains x candidates || contains x chosen) ≡ true
  unfolding choose
  choose_from dsd [] chosen out x h p = let same : chosen ≡ out = cc h in rw same p
  choose_from dsd (role ∷ candidates) chosen out x h p =
      elim (Bool-cases (contains role (closure (onto chosen [])))) [
        | inl e ↦ ground (arith, choose_from dsd candidates chosen out x (rw (e, choose) at h) p)
        | inr e ↦
            go (satisfies_constraints known inheritance (onto (role ∷ chosen) []) dsd)
              (λ k. choose_from dsd candidates (role ∷ chosen) out x k p)
              (λ k. choose_from dsd candidates chosen out x k p) (rw (e, choose) at h)
      ]
    where
      go :
          (r : Result RbacErr Bool)
          → (choose known inheritance dsd candidates (role ∷ chosen) ≡ ok out
              → (contains x candidates || contains x (role ∷ chosen)) ≡ true)
          → (choose known inheritance dsd candidates chosen ≡ ok out
              → (contains x candidates || contains x chosen) ≡ true)
          → (elim r [
            | err e ↦ err e
            | ok true ↦ choose known inheritance dsd candidates (role ∷ chosen)
            | ok false ↦ choose known inheritance dsd candidates chosen
          ])
            ≡ ok out
          → (contains x (role ∷ candidates) || contains x chosen) ≡ true
      go (err e) added skipped k = absurd (cc k)
      go (ok true) added skipped k = ground (arith, added k)
      go (ok false) added skipped k = ground (arith, skipped k)
