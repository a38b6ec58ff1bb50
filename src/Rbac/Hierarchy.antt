-- ===== src/Rbac/Hierarchy.antt =====
-- The check of the hierarchy's roles when the module is loaded (`_validate_hierarchy` of
-- core/rbac_roles.py): every role that an edge names is known.
use lkm_service.Rbac.Members.{is_subset_member}
use lkm_service.Rbac.{is_subset, juniors}
use lkm_service.Rbac.Closure.{IsClosed}
use lkm_service.Prelude.{
  ◌==◌, nat_key, arith, [], text_key, some, ◌&&◌, Bool-cases, List, contains, true, String, ◌≡◌,
  Bool, inl, ◌∷◌, inr, Option-cases, refl, all,
}
use lkm_service.Prelude.Dict.{Dict, lookup}

abbrev pub names_known : List String → Dict String (List String) → Bool
names_known known [] = true
names_known known ((senior, l) ∷ inheritance) =
    all (λ junior. contains senior known && contains junior known) l
    && names_known known inheritance

module _ (known : List String) where
  edges_known :
      (senior : String) (l : List String)
      → all (λ junior. contains senior known && contains junior known) l ≡ true
      → is_subset l known ≡ true
  edges_known senior [] h = refl
  edges_known senior (j ∷ l) h = ground (arith, edges_known senior l)

  found_known :
      (inheritance : Dict String (List String)) (senior : String) (l : List String)
      → names_known known inheritance ≡ true
      → lookup senior inheritance ≡ some l
      → is_subset l known ≡ true
  unfolding lookup
  found_known [] senior l h k = absurd (cc k)
  found_known ((s, m) ∷ inheritance) senior l h k = elim (Bool-cases (s == senior)) [
    | inl e ↦ let same : m ≡ l = cc (rw e at k) in rw (← same) (edges_known s m (ground (arith, h)))
    | inr e ↦ found_known inheritance senior l (ground (arith, h)) (rw e at k)
  ]

  pub names_known-IsClosed :
      (inheritance : Dict String (List String))
      → names_known known inheritance ≡ true
      → IsClosed known inheritance
  names_known-IsClosed inheritance h = record {
    junior = λ senior role p q. elim (Option-cases (lookup senior inheritance)) [
      | inl e ↦ absurd (cc (rw (e, juniors) at q))
      | inr (l, e) ↦
          is_subset_member l known role (found_known inheritance senior l h e)
            (rw (e, juniors) at q)
    ];
  }
