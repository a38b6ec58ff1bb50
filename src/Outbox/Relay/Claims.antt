-- ===== src/Outbox/Relay/Claims.antt =====
-- Which row a claim takes (core/outbox_relay.py).
use lkm_service.Prelude.{
  ℕ, ◌≡◌, refl, ◌≢◌, true, false, Option, none, some, List, [], ◌∷◌, All, nat_key, arith,
  if◌then◌else◌, inl, inr, Bool-cases, subst, sym,
}
use lkm_service.Outbox.{Message, Tables}
use lkm_service.Outbox.Relay.{
  Settings, claimable, precedes, earlier, next_claimable, has_key, find_row, alter, claim, lock,
}

module _ {P : Type 0} (c : Settings) (now : ℕ) where
  -- `m` comes before every claimable row of the list.
  abbrev pub IsFirst : Message P → List (Message P) → Type 0
  IsFirst m = All (λ n. claimable c now n ≡ true → precedes m n ≡ true)

  abbrev pub NoneClaimable : List (Message P) → Type 0
  NoneClaimable = All (λ n. claimable c now n ≡ false)

  precedes_refl : (m : Message P) → precedes m m ≡ true
  unfolding precedes
  precedes_refl m = ground arith

  precedes_trans :
      (m n o : Message P) → precedes m n ≡ true → precedes n o ≡ true → precedes m o ≡ true
  unfolding precedes
  precedes_trans m n o p q = ground arith

  precedes_total : (m n : Message P) → precedes m n ≡ false → precedes n m ≡ true
  unfolding precedes
  precedes_total m n p = ground arith

  weaken-IsFirst :
      (m n : Message P) (l : List (Message P)) → precedes m n ≡ true → IsFirst n l → IsFirst m l
  weaken-IsFirst m n [] p h = tt
  weaken-IsFirst m n (o ∷ l) p h = (λ k. precedes_trans m n o p (h.0 k), weaken-IsFirst m n l p h.1)

  none-IsFirst : (m : Message P) (l : List (Message P)) → NoneClaimable l → IsFirst m l
  none-IsFirst m [] h = tt
  none-IsFirst m (o ∷ l) h = (λ k. cc h.0, none-IsFirst m l h.1)

  abbrev pub Chosen : List (Message P) → Option (Message P) → Type 0
  Chosen l none = NoneClaimable l
  Chosen l (some m) =
      (claimable c now m ≡ true) × IsFirst m l × (find_row m.id m.created_at l ≢ none)

  find_row_cons :
      (id created_at : ℕ) (m : Message P) (l : List (Message P))
      → find_row id created_at l ≢ none
      → find_row id created_at (m ∷ l) ≢ none
  unfolding find_row
  find_row_cons id created_at m l h e = elim (Bool-cases (has_key id created_at m)) [
    | inl k ↦ cc (rw k at e)
    | inr k ↦ h (rw k at e)
  ]

  find_row_head : (m : Message P) (l : List (Message P)) → find_row m.id m.created_at (m ∷ l) ≢ none
  unfolding find_row
  find_row_head m l e = ground arith

  abbrev picked : Message P → Option (Message P) → Option (Message P)
  picked m rest = if claimable c now m then some (earlier m rest) else rest

  pick_first :
      (m n : Message P)
      → claimable c now m ≡ true
      → precedes m n ≡ true
      → picked m (some n) ≡ some m
  unfolding earlier
  pick_first m n e p = rw (e, p)

  pick_later :
      (m n : Message P)
      → claimable c now m ≡ true
      → precedes m n ≡ false
      → picked m (some n) ≡ some n
  unfolding earlier
  pick_later m n e p = rw (e, p)

  pick_only : (m : Message P) → claimable c now m ≡ true → picked m none ≡ some m
  unfolding earlier
  pick_only m e = rw e

  pick_rest :
      (m : Message P) (rest : Option (Message P)) → claimable c now m ≡ false → picked m rest ≡ rest
  pick_rest m rest e = rw e

  picked-Chosen :
      (m : Message P) (l : List (Message P)) (rest : Option (Message P))
      → Chosen l rest
      → Chosen (m ∷ l) (picked m rest)
  picked-Chosen m l none h = elim (Bool-cases (claimable c now m)) [
    | inl e ↦
        subst (Chosen (m ∷ l)) (sym (pick_only m e))
          (e, (λ _. precedes_refl m, none-IsFirst m l h), find_row_head m l)
    | inr e ↦ subst (Chosen (m ∷ l)) (sym (pick_rest m none e)) (e, h)
  ]
  picked-Chosen m l (some n) h = elim (Bool-cases (claimable c now m)) [
    | inl e ↦ elim (Bool-cases (precedes m n)) [
      | inl p ↦
          subst (Chosen (m ∷ l)) (sym (pick_first m n e p))
            (e, (λ _. precedes_refl m, weaken-IsFirst m n l p h.1), find_row_head m l)
      | inr p ↦
          subst (Chosen (m ∷ l)) (sym (pick_later m n e p))
            (h.0, (λ _. precedes_total m n p, h.1), find_row_cons n.id n.created_at m l h.2)
    ]
    | inr e ↦
        subst (Chosen (m ∷ l)) (sym (pick_rest m (some n) e))
          (h.0, (λ k. cc (e, k), h.1), find_row_cons n.id n.created_at m l h.2)
  ]

  pub next_claimable-Chosen : (l : List (Message P)) → Chosen l (next_claimable c now l)
  unfolding next_claimable
  next_claimable-Chosen [] = tt
  next_claimable-Chosen (m ∷ l) =
      picked-Chosen m l (next_claimable c now l) (next_claimable-Chosen l)

  -- What a claim returns: nothing only if no row is claimable, and else the row of the smallest
  -- (attempt_count, id) among the claimable ones, locked.
  abbrev pub Claimed : ℕ → Tables P → Option (Message P) × Tables P → Type 0
  Claimed token db (none, db') = NoneClaimable db.events × (db' ≡ db)
  Claimed token db (some m, db') =
      (r : Message P) × (m ≡ lock token now r)
      × (claimable c now r ≡ true)
      × All (λ n. claimable c now n ≡ true → precedes r n ≡ true) db.events
      × (find_row r.id r.created_at db.events ≢ none)
      × (db'
          ≡ record db { events = alter r.id r.created_at (λ x. some (lock token now x)) db.events })

  abbrev claim_of : ℕ → Tables P → Option (Message P) → Option (Message P) × Tables P
  claim_of token db chosen = elim chosen [
    | none ↦ (none, db)
    | some m ↦ (
      some (lock token now m),
      record db { events = alter m.id m.created_at (λ r. some (lock token now r)) db.events },
    )
  ]

  claim_of-Claimed :
      (token : ℕ) (db : Tables P) (chosen : Option (Message P))
      → Chosen db.events chosen
      → Claimed token db (claim_of token db chosen)
  claim_of-Claimed token db none h = (h, refl)
  claim_of-Claimed token db (some m) h = (m, refl, h.0, h.1, h.2, refl)

  pub claim-Claimed : (token : ℕ) (db : Tables P) → Claimed token db (claim c token now db)
  unfolding claim
  claim-Claimed token db =
      claim_of-Claimed token db (next_claimable c now db.events) (next_claimable-Chosen db.events)
