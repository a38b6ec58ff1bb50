-- ===== src/Outbox/Relay/Fencing.antt =====
-- A claimed row is nobody else's (core/outbox_relay.py): its token fences off a process whose
-- claim has gone stale, and no process takes it while the claim is fresh.
use lkm_service.Prelude.{
  ℕ, ◌+◌, ◌≤◌, ◌≡◌, refl, ◌≢◌, String, Bool, true, false, Option, none, some, List, [], ◌∷◌,
  nat_key, arith, Option-cases, inl, inr, Bool-cases, nat_eqb_iff, subst,
}
use lkm_service.Outbox.{Message, Tables}
use lkm_service.Outbox.Relay.{
  Settings, stale_after, claimable, claim, settle, lost, holds, lock, find_row, alter,
  next_claimable, has_key, earlier, precedes,
}
use lkm_service.Outbox.Relay.Rows.{KeepsKey, find_row-alter, lock-KeepsKey}
use lkm_service.Outbox.Relay.Claims.{Claimed, claim-Claimed, Chosen, next_claimable-Chosen}

module _ {P : Type 0} where
  -- No two rows have one primary key.
  abbrev pub HasUniqueKeys : List (Message P) → Type 0
  HasUniqueKeys [] = Unit
  HasUniqueKeys (m ∷ l) = (find_row m.id m.created_at l ≡ none) × HasUniqueKeys l

  locked_row :
      (c : Settings) (token now : ℕ) (db db' : Tables P) (m : Message P)
      → claim c token now db ≡ (some m, db')
      → (r : Message P) × (find_row m.id m.created_at db'.events ≡ some (lock token now r))
  locked_row c token now db db' m h =
      let (r, e, _, _, there, at) =
        subst (Claimed c now token db) h (claim-Claimed c now token db) in
      elim (Option-cases (find_row r.id r.created_at db.events)) [
        | inl gone ↦ absurd (there gone)
        | inr (r', found) ↦ (
          r',
          rw (e, at)
              (find_row-alter r.id r.created_at (lock token now) r' db.events
                (lock-KeepsKey token now) found),
        )
      ]

  settle_lost :
      (token now : ℕ) (m r : Message P) (reason : Option String) (delivered : Bool) (db : Tables P)
      → find_row m.id m.created_at db.events ≡ some r
      → holds token r ≡ false
      → settle token now m reason delivered db ≡ (lost, db)
  unfolding settle
  settle_lost token now m r reason delivered db found other = rw (found, settle) (rw other)

  -- When a process has claimed a row under its token, the settlement of any other token for that
  -- row, whatever the bus has answered, changes nothing.
  pub settle-claim :
      (c : Settings) (token other now later : ℕ) (db db' : Tables P) (m m' : Message P)
      (reason : Option String) (delivered : Bool)
      → claim c token now db ≡ (some m, db')
      → other ≢ token
      → m'.id ≡ m.id
      → m'.created_at ≡ m.created_at
      → settle other later m' reason delivered db' ≡ (lost, db')
  settle-claim c token other now later db db' m m' reason delivered h ne p q =
      let (r, found) = locked_row c token now db db' m h in
      settle_lost other later m' (lock token now r) reason delivered db' (rw (p, q) found)
        (ground (arith, nat_eqb_iff token other))

  pub found_later :
      (m x : Message P) (l : List (Message P))
      → find_row x.id x.created_at l ≡ none
      → find_row m.id m.created_at l ≡ some m
      → find_row m.id m.created_at (x ∷ l) ≡ some m
  unfolding find_row
  found_later m x l u h = elim (Bool-cases (has_key m.id m.created_at x)) [
    | inl k ↦ absurd (clash m x l k u h)
    | inr k ↦ rw k h
  ]
    where
      clash :
          (m x : Message P) (l : List (Message P))
          → has_key m.id m.created_at x ≡ true
          → find_row x.id x.created_at l ≡ none
          → find_row m.id m.created_at l ≡ some m
          → ⊥
      clash m x l k u h =
          let p : x.id ≡ m.id = ground arith in
          let q : x.created_at ≡ m.created_at = ground arith in ground (arith, h, u)

  pub found_head :
      (m : Message P) (l : List (Message P)) → find_row m.id m.created_at (m ∷ l) ≡ some m
  unfolding find_row
  found_head m l = ground arith

  next_found :
      (c : Settings) (now : ℕ) (m : Message P) (l : List (Message P))
      → HasUniqueKeys l
      → next_claimable c now l ≡ some m
      → find_row m.id m.created_at l ≡ some m
  unfolding next_claimable earlier
  next_found c now m [] u h = cc
  next_found c now m (x ∷ l) u h = elim (Bool-cases (claimable c now x)) [
    | inr e ↦ found_later m x l u.0 (next_found c now m l u.1 (rw e at h))
    | inl e ↦ elim (Option-cases (next_claimable c now l)) [
      | inl none_left ↦ let p : m ≡ x = cc (rw (e, none_left) at h) in rw p (found_head x l)
      | inr (n, some_left) ↦ elim (Bool-cases (precedes x n)) [
        | inl first ↦ let p : m ≡ x = cc (rw (e, some_left, first) at h) in rw p (found_head x l)
        | inr second ↦
            let p : m ≡ n = cc (rw (e, some_left, second) at h) in
            rw p (found_later n x l u.0 (next_found c now n l u.1 some_left))
      ]
    ]
  ]

  find_row-alter_ne :
      (id created_at i t : ℕ) (f : Message P → Message P) (l : List (Message P))
      → KeepsKey f
      → find_row i t l ≡ none
      → find_row i t (alter id created_at (λ m. some (f m)) l) ≡ none
  unfolding alter find_row
  find_row-alter_ne id created_at i t f [] k h = refl
  find_row-alter_ne id created_at i t f (m ∷ l) k h =
      ground (arith, k.id m, k.created m, find_row-alter_ne id created_at i t f l k)

  pub alter-HasUniqueKeys :
      (id created_at : ℕ) (f : Message P → Message P) (l : List (Message P))
      → KeepsKey f
      → HasUniqueKeys l
      → HasUniqueKeys (alter id created_at (λ m. some (f m)) l)
  unfolding alter
  alter-HasUniqueKeys id created_at f [] k u = tt
  alter-HasUniqueKeys id created_at f (m ∷ l) k u = elim (Bool-cases (has_key id created_at m)) [
    | inl e ↦ rw e (rw (k.id m, k.created m) u.0, u.1)
    | inr e ↦ rw e (
      find_row-alter_ne id created_at m.id m.created_at f l k u.0,
      alter-HasUniqueKeys id created_at f l k u.1,
    )
  ]

  held_rows :
      (c : Settings) (now t : ℕ) (m : Message P)
      → m.locked_at ≡ some t
      → now ≤ t + stale_after c
      → claimable c now m ≡ false
  unfolding claimable
  held_rows c now t m h fresh = ground (arith, h)

  -- A row that is locked, and whose lock is not stale, is not claimed again.
  pub claim_skips :
      (c : Settings) (token now t : ℕ) (db db' : Tables P) (m held : Message P)
      → HasUniqueKeys db.events
      → find_row m.id m.created_at db.events ≡ some held
      → held.locked_at ≡ some t
      → now ≤ t + stale_after c
      → claim c token now db ≢ (some m, db')
  unfolding claim
  claim_skips c token now t db db' m held u found at fresh h =
      elim (Option-cases (next_claimable c now db.events)) [
        | inl e ↦ cc (rw (e, claim) at h)
        | inr (r, e) ↦
            let p : m ≡ lock token now r = cc (rw (e, claim) at h) in
            let q = next_found c now r db.events u e in
            let same : r ≡ held = cc (rw p at found, q) in
            let ready =
              (subst (Chosen c now db.events) e (next_claimable-Chosen c now db.events)).0 in
            cc (ready, held_rows c now t r (rw same at) fresh)
      ]

  claim-HasUniqueKeys :
      (c : Settings) (token now : ℕ) (db db' : Tables P) (m : Message P)
      → HasUniqueKeys db.events
      → claim c token now db ≡ (some m, db')
      → HasUniqueKeys db'.events
  claim-HasUniqueKeys c token now db db' m u h =
      let (r, _, _, _, _, at) = subst (Claimed c now token db) h (claim-Claimed c now token db) in
      rw at (
        alter-HasUniqueKeys r.id r.created_at (lock token now) db.events (lock-KeepsKey token now)
          u)

  -- Two claims in a row take two rows, as long as the first is fresh: from a table whose primary
  -- keys are unique, a claim made within the stale limit after another never returns the row
  -- that the other has taken.
  pub claim-claim :
      (c : Settings) (token token' now later : ℕ) (db db' db'' : Tables P) (m m' : Message P)
      → HasUniqueKeys db.events
      → claim c token now db ≡ (some m, db')
      → later ≤ now + stale_after c
      → m'.id ≡ m.id
      → m'.created_at ≡ m.created_at
      → claim c token' later db' ≢ (some m', db'')
  claim-claim c token token' now later db db' db'' m m' u h fresh p q =
      let (r, found) = locked_row c token now db db' m h in
      claim_skips c token' later now db' db'' m' (lock token now r)
        (claim-HasUniqueKeys c token now db db' m u h) (rw (p, q) found) refl fresh
