-- ===== src/Outbox/Relay/Conservation.antt =====
-- No event is lost and none is doubled (`relay_poll` of core/outbox_relay.py): each transaction
-- keeps the number of rows that an event has in the three tables.
use lkm_service.Prelude.{
  ℕ, ◌+◌, ◌≡◌, refl, String, Bool, true, false, Option, none, some, List, [], ◌∷◌, ◌==◌, nat_key,
  arith, Option-cases, inl, inr, Bool-cases,
}
use lkm_service.Outbox.{Message, Failure, Archived, Tables, max_tries}
use lkm_service.Outbox.Relay.{
  Settings, find_row, claim, settle, settle_row, give_back, holds, next_claimable, fold, replace,
  lock, clear_lock, ltb, count, mark_published, leb, count_attempt, postpone,
}
use lkm_service.Outbox.Relay.Rows.{
  one_if, count_rows, count_rows-alter, count_rows-alter_constant, count_rows-alter_delete,
  find_row_key, lock-KeepsKey,
}

module _ {P : Type 0} where
  abbrev pub count_failures : ℕ → List (Failure P) → ℕ
  count_failures ev [] = 0
  count_failures ev (f ∷ l) = one_if (f.event_id == ev) + count_failures ev l

  abbrev pub count_archived : ℕ → List (Archived P) → ℕ
  count_archived ev [] = 0
  count_archived ev (a ∷ l) = one_if (a.event_id == ev) + count_archived ev l

  -- The rows of an event in outbox_events, event_failures and outbox_archived.
  abbrev pub occurrences : ℕ → Tables P → ℕ
  occurrences ev db =
      count_rows ev db.events + count_failures ev db.failures + count_archived ev db.archived

  pub occurrences-claim :
      (ev : ℕ) (c : Settings) (token now : ℕ) (db : Tables P)
      → occurrences ev (claim c token now db).1 ≡ occurrences ev db
  unfolding claim
  occurrences-claim ev c token now db = elim (Option-cases (next_claimable c now db.events)) [
    | inl e ↦ rw (e, claim)
    | inr (m, e) ↦
        rw (e, claim)
          (omega (
            arith,
            count_rows-alter ev m.id m.created_at (lock token now) db.events
                (lock-KeepsKey token now),
          ))
  ]

  occurrences-replace :
      (ev : ℕ) (id created_at : ℕ) (r n : Message P) (db : Tables P)
      → find_row id created_at db.events ≡ some r
      → r.id ≡ id
      → r.created_at ≡ created_at
      → n.event_id ≡ r.event_id
      → occurrences ev (replace r n db) ≡ occurrences ev db
  occurrences-replace ev id created_at r n db found p q same =
      rw (p, q) (omega (arith, count_rows-alter_constant ev id created_at r n db.events found same))

  occurrences-fold :
      (ev : ℕ) (id created_at : ℕ) (r m : Message P) (reason : String) (db : Tables P)
      → find_row id created_at db.events ≡ some r
      → r.id ≡ id
      → r.created_at ≡ created_at
      → m.event_id ≡ r.event_id
      → occurrences ev (fold r m reason db) ≡ occurrences ev db
  occurrences-fold ev id created_at r m reason db found p q same =
      rw (p, q, same) (omega (arith, count_rows-alter_delete ev id created_at r db.events found))

  settle_row-keeps :
      (ev id created_at now : ℕ) (r : Message P) (reason : Option String) (delivered : Bool)
      (db : Tables P)
      → find_row id created_at db.events ≡ some r
      → r.id ≡ id
      → r.created_at ≡ created_at
      → occurrences ev (settle_row now r reason delivered db).1 ≡ occurrences ev db
  settle_row-keeps ev id created_at now r (some reason) delivered db found p q =
      elim (Bool-cases (ltb 255 (count reason))) [
        | inl long ↦ rw long
        | inr short ↦ rw short (occurrences-fold ev id created_at r r reason db found p q refl)
      ]
  settle_row-keeps ev id created_at now r none true db found p q =
      occurrences-replace ev id created_at r (mark_published now r) db found p q refl
  settle_row-keeps ev id created_at now r none false db found p q =
      elim (Bool-cases (leb max_tries (r.attempt_count + 1))) [
        | inl last ↦ rw last (
            occurrences-fold ev id created_at r (count_attempt r)
              "relay exhausted: max tries reached" db found p q refl)
        | inr more ↦ rw more (
            occurrences-replace ev id created_at r (postpone now (count_attempt r)) db found p q
              refl)
      ]

  pub occurrences-settle :
      (ev token now : ℕ) (m : Message P) (reason : Option String) (delivered : Bool) (db : Tables P)
      → occurrences ev (settle token now m reason delivered db).1 ≡ occurrences ev db
  unfolding settle
  occurrences-settle ev token now m reason delivered db =
      elim (Option-cases (find_row m.id m.created_at db.events)) [
        | inl e ↦ rw (e, settle)
        | inr (r, e) ↦ elim (Bool-cases (holds token r)) [
          | inl own ↦
              let (p, q) = find_row_key m.id m.created_at r db.events e in
              rw (e, settle)
                (rw own (settle_row-keeps ev m.id m.created_at now r reason delivered db e p q))
          | inr other ↦ rw (e, settle) (rw other)
        ]
      ]

  pub occurrences-give_back :
      (ev token : ℕ) (m : Message P) (db : Tables P)
      → occurrences ev (give_back token m db) ≡ occurrences ev db
  unfolding give_back
  occurrences-give_back ev token m db = elim (Option-cases (find_row m.id m.created_at db.events)) [
    | inl e ↦ rw (e, give_back)
    | inr (r, e) ↦ elim (Bool-cases (holds token r)) [
      | inl own ↦
          let (p, q) = find_row_key m.id m.created_at r db.events e in
          rw (e, give_back)
            (rw own (occurrences-replace ev m.id m.created_at r (clear_lock r) db e p q refl))
      | inr other ↦ rw (e, give_back) (rw other)
    ]
  ]
