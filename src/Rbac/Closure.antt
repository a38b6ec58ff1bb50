-- ===== src/Rbac/Closure.antt =====
-- The closure of a set of roles (`role_closure` of core/rbac_roles.py) and the inheritance it is
-- to follow.
use lkm_service.Rbac.Members.{contains-onto, length-onto}
use lkm_service.Rbac.{juniors, onto, pushes, closing}
use lkm_service.Prelude.{
  contains, inr, ◌+◌, List, text_key, String, arith, Bool-cases, ◌≡◌, zero, true, eqb_self, nat_key,
  length, ◌==◌, inl, ℕ, some, [], ◌≤◌, false, refl, suc, ◌∷◌, ◌||◌,
}
use lkm_service.Prelude.Dict.{Dict}

module _ (known : List String) (inheritance : Dict String (List String)) where
  abbrev below : String → List String
  below = juniors known inheritance

  -- A senior role authorizes a junior one over any number of levels.
  pub data Inherits : String → String → Type 0 where
    itself : (role : String) → Inherits role role
    deeper :
        (senior junior role : String)
        → contains junior (juniors known inheritance senior) ≡ true
        → Inherits junior role
        → Inherits senior role

  -- The hierarchy names known roles only.
  pub record IsClosed : Type 0 where
    pub junior :
        (senior role : String)
        → contains senior known ≡ true
        → contains role (juniors known inheritance senior) ≡ true
        → contains role known ≡ true

  -- The juniors of each role of the set are in it or pending.
  pub record Covers (pending result : List String) : Type 0 where
    pub junior :
        (senior role : String)
        → contains senior result ≡ true
        → contains role (below senior) ≡ true
        → (contains role result || contains role pending) ≡ true

  -- What the loop returns holds what it started from, and the juniors of all it holds.
  pub record Complete (pending result out : List String) : Type 0 where
    pub started :
        (x : String) → (contains x result || contains x pending) ≡ true → contains x out ≡ true
    pub junior :
        (senior role : String)
        → contains senior out ≡ true
        → contains role (below senior) ≡ true
        → contains role out ≡ true

  skip-Covers :
      (role : String) (pending result : List String)
      → contains role result ≡ true
      → Covers (role ∷ pending) result
      → Covers pending result
  skip-Covers role pending result h c = record {
    junior = λ senior x p q. elim (Bool-cases (role == x)) [
      | inl e ↦ let same : role ≡ x = (text_key.same_iff role x).0 e in ground (arith, rw same at h)
      | inr e ↦ ground (arith, c.junior senior x p q, e)
    ];
  }

  add-Covers :
      (role : String) (pending result : List String)
      → Covers (role ∷ pending) result
      → Covers (onto (below role) pending) (role ∷ result)
  add-Covers role pending result c = record {
    junior = λ senior x p q. elim (Bool-cases (role == senior)) [
      | inl e ↦
          let same : role ≡ senior = (text_key.same_iff role senior).0 e in
          ground (arith, contains-onto x (below role) pending, rw (← same) at q)
      | inr e ↦
          ground (
            arith,
            contains-onto x (below role) pending,
            c.junior senior x (ground (arith, p, e)) q,
          )
    ];
  }

  pub closing-Complete :
      (n : ℕ) (pending result out : List String)
      → Covers pending result
      → closing known inheritance n pending result ≡ some out
      → Complete pending result out
  unfolding closing
  closing-Complete zero [] result out c h =
      let same : result ≡ out = cc h in
      rw (← same) (record {
        started = λ x k. ground (arith, k);
        junior = λ senior x p q. ground (arith, c.junior senior x p q);
      })
  closing-Complete (suc n) [] result out c h =
      let same : result ≡ out = cc h in
      rw (← same) (record {
        started = λ x k. ground (arith, k);
        junior = λ senior x p q. ground (arith, c.junior senior x p q);
      })
  closing-Complete zero (role ∷ pending) result out c h = absurd (cc h)
  closing-Complete (suc n) (role ∷ pending) result out c h =
      elim (Bool-cases (contains role result)) [
        | inl seen ↦
            let k =
              closing-Complete n pending result out (skip-Covers role pending result seen c)
                (rw (seen, closing) at h) in
            record {
              started = λ x q. elim (Bool-cases (role == x)) [
                | inl e ↦
                    let same : role ≡ x = (text_key.same_iff role x).0 e in
                    k.started x (ground (arith, rw same at seen))
                | inr e ↦ k.started x (ground (arith, q, e))
              ];
              junior = k.junior;
            }
        | inr fresh ↦
            let k =
              closing-Complete n (onto (below role) pending) (role ∷ result) out
                (add-Covers role pending result c) (rw (fresh, closing) at h) in
            record {
              started =
                  λ x q. k.started x (ground (arith, q, contains-onto x (below role) pending));
              junior = k.junior;
            }
      ]

  -- A predicate of the roles that its seniors pass on to their juniors.
  abbrev Inherited : (String → Type 0) → Type 0
  Inherited Q =
      (senior role : String)
      → contains role (juniors known inheritance senior) ≡ true
      → Q senior
      → Q role

  pub closing-keeps :
      (Q : String → Type 0)
      → Inherited Q
      → (n : ℕ) (pending result out : List String)
      → ((x : String) → (contains x result || contains x pending) ≡ true → Q x)
      → closing known inheritance n pending result ≡ some out
      → (x : String) → contains x out ≡ true
      → Q x
  unfolding closing
  closing-keeps Q k zero [] result out all_q h x p =
      let same : result ≡ out = cc h in all_q x (ground (arith, rw (← same) at p))
  closing-keeps Q k (suc n) [] result out all_q h x p =
      let same : result ≡ out = cc h in all_q x (ground (arith, rw (← same) at p))
  closing-keeps Q k zero (role ∷ pending) result out all_q h x p = absurd (cc h)
  closing-keeps Q k (suc n) (role ∷ pending) result out all_q h x p =
      elim (Bool-cases (contains role result)) [
        | inl seen ↦
            closing-keeps Q k n pending result out (λ y q. all_q y (ground (arith, q)))
              (rw (seen, closing) at h) x p
        | inr fresh ↦
            closing-keeps Q k n (onto (below role) pending) (role ∷ result) out
              (λ y q. elim (Bool-cases (contains y (below role))) [
                | inl e ↦ k role y e (all_q role (ground (arith, eqb_self role)))
                | inr e ↦ all_q y (ground (arith, q, e, contains-onto y (below role) pending))
              ])
              (rw (fresh, closing) at h) x p
      ]

  pushes-more :
      (l result : List String) (role : String)
      → pushes known inheritance l (role ∷ result) ≤ pushes known inheritance l result
  pushes-more [] result role = omega arith
  pushes-more (x ∷ l) result role =
      let fewer = pushes-more l result role in
      elim (Bool-cases (contains x result)) [
        | inl e ↦ rw e (elim (Bool-cases (role == x)) [
          | inl f ↦ rw f (omega (arith, fewer))
          | inr f ↦ rw f (omega (arith, fewer))
        ])
        | inr e ↦ rw e (elim (Bool-cases (role == x)) [
          | inl f ↦ rw f (omega (arith, fewer))
          | inr f ↦ rw f (omega (arith, fewer))
        ])
      ]

  pushes-fresh :
      (l result : List String) (role : String)
      → contains role result ≡ false
      → contains role l ≡ true
      → pushes known inheritance l (role ∷ result) + length (below role)
        ≤ pushes known inheritance l result
  pushes-fresh [] result role h k = absurd (cc k)
  pushes-fresh (x ∷ l) result role h k = elim (Bool-cases (role == x)) [
    | inl e ↦
        let same : role ≡ x = (text_key.same_iff role x).0 e in
        let unseen = rw same at h in
        rw (e, unseen) (rw same (omega (arith, pushes-more l result x)))
    | inr e ↦
        let fewer =
          pushes-fresh l result role h
            (ground (arith, k, e, text_key.same_iff x role, text_key.same_iff role x)) in
        elim (Bool-cases (contains x result)) [
          | inl f ↦ rw (e, f) (omega (arith, fewer))
          | inr f ↦ rw (e, f) (omega (arith, fewer))
        ]
  ]

  -- With that much fuel the loop ends.
  pub closing-total :
      (n : ℕ) (pending result : List String)
      → IsClosed
      → ((x : String) → contains x pending ≡ true → contains x known ≡ true)
      → length pending + pushes known inheritance known result ≤ n
      → (out : List String) × (closing known inheritance n pending result ≡ some out)
  unfolding closing
  closing-total zero [] result c k h = (result, refl)
  closing-total (suc n) [] result c k h = (result, refl)
  closing-total zero (role ∷ pending) result c k h = absurd (omega (arith, h))
  closing-total (suc n) (role ∷ pending) result c k h = elim (Bool-cases (contains role result)) [
    | inl seen ↦
        rw (seen, closing)
          (closing-total n pending result c (λ x q. k x (ground (arith, q))) (omega (arith, h)))
    | inr fresh ↦
        rw (fresh, closing)
          (closing-total n (onto (below role) pending) (role ∷ result) c
            (λ x q. elim (Bool-cases (contains x (below role))) [
              | inl e ↦ c.junior role x (k role (ground (arith, eqb_self role))) e
              | inr e ↦ k x (ground (arith, q, e, contains-onto x (below role) pending))
            ])
            (omega (
              arith,
              h,
              length-onto (below role) pending,
              pushes-fresh known result role fresh (k role (ground (arith, eqb_self role))),
            )))
  ]
