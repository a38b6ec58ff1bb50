-- ===== src/Outbox/Relay/Sound.antt =====
-- The invariant of the outbox rows under the transactions of the relay (core/outbox_relay.py).
use lkm_service.Prelude.{
  ℕ, ◌+◌, ◌≤◌, ◌<◌, ◌≡◌, refl, String, Bool, true, false, not, Option, none, some, All, nat_key,
  arith, Option-cases, inl, inr, Bool-cases, is_some, ltb, leb,
}
use lkm_service.Outbox.{Message, Failure, Tables, max_tries}
use lkm_service.Outbox.Relay.{
  Settings, find_row, claim, settle, settle_row, give_back, holds, next_claimable, fold, replace,
  lock, clear_lock, is_pending, count, mark_published, count_attempt, postpone,
}
use lkm_service.Outbox.Relay.Rows.{All-alter, All-alter_constant, All-alter_delete, All-find_row}

module _ {P : Type 0} where
  -- Fewer than `max_tries` failures; a publication time exactly on a published row; a claim time
  -- exactly with a claim token.
  pub record IsSound (m : Message P) : Type 0 where
    pub tries : m.attempt_count < max_tries
    pub stamped : is_some m.published_at ≡ not (is_pending m.status)
    pub locked : is_some m.locked_at ≡ is_some m.locked_by

  abbrev pub FailureIsSound : Failure P → Type 0
  FailureIsSound f = f.attempt_count ≤ max_tries

  pub record AllSound (db : Tables P) : Type 0 where
    pub rows : All IsSound db.events
    pub failed : All FailureIsSound db.failures

  lock-IsSound : (token now : ℕ) (m : Message P) → IsSound m → IsSound (lock token now m)
  lock-IsSound token now m h = record { tries = h.tries; stamped = h.stamped; locked = refl }

  pub claim-AllSound :
      (c : Settings) (token now : ℕ) (db : Tables P)
      → AllSound db
      → AllSound (claim c token now db).1
  unfolding claim
  claim-AllSound c token now db h = elim (Option-cases (next_claimable c now db.events)) [
    | inl e ↦ rw (e, claim) h
    | inr (m, e) ↦
        rw (e, claim)
          (record {
            rows =
                All-alter IsSound m.id m.created_at (lock token now) db.events
                  (lock-IsSound token now) h.rows;
            failed = h.failed;
          })
  ]

  replace-AllSound :
      (r m : Message P) (db : Tables P) → IsSound m → AllSound db → AllSound (replace r m db)
  replace-AllSound r m db s h = record {
    rows = All-alter_constant IsSound r.id r.created_at m db.events s h.rows;
    failed = h.failed;
  }

  fold-AllSound :
      (r m : Message P) (reason : String) (db : Tables P)
      → m.attempt_count ≤ max_tries
      → AllSound db
      → AllSound (fold r m reason db)
  fold-AllSound r m reason db s h = record {
    rows = All-alter_delete IsSound r.id r.created_at db.events h.rows;
    failed = (s, h.failed);
  }

  settle_row-AllSound :
      (now : ℕ) (r : Message P) (reason : Option String) (delivered : Bool) (db : Tables P)
      → IsSound r
      → AllSound db
      → AllSound (settle_row now r reason delivered db).1
  settle_row-AllSound now r (some reason) delivered db s h =
      elim (Bool-cases (ltb 255 (count reason))) [
        | inl long ↦ rw long h
        | inr short ↦ rw short (fold-AllSound r r reason db (omega (arith, s.tries)) h)
      ]
  settle_row-AllSound now r none true db s h =
      replace-AllSound r (mark_published now r) db
        (record { tries = s.tries; stamped = refl; locked = refl }) h
  settle_row-AllSound now r none false db s h =
      elim (Bool-cases (leb max_tries (r.attempt_count + 1))) [
        | inl last ↦ rw last (
            fold-AllSound r (count_attempt r) "relay exhausted: max tries reached" db
              (omega (arith, s.tries)) h)
        | inr more ↦ rw more (
            replace-AllSound r (postpone now (count_attempt r)) db
              (record { tries = ground arith; stamped = s.stamped; locked = refl }) h)
      ]

  pub settle-AllSound :
      (token now : ℕ) (m : Message P) (reason : Option String) (delivered : Bool) (db : Tables P)
      → AllSound db
      → AllSound (settle token now m reason delivered db).1
  unfolding settle
  settle-AllSound token now m reason delivered db h =
      elim (Option-cases (find_row m.id m.created_at db.events)) [
        | inl e ↦ rw (e, settle) h
        | inr (r, e) ↦
            let s = All-find_row IsSound m.id m.created_at r db.events e h.rows in
            elim (Bool-cases (holds token r)) [
              | inl own ↦
                  rw (e, settle) (rw own (settle_row-AllSound now r reason delivered db s h))
              | inr other ↦ rw (e, settle) (rw other h)
            ]
      ]

  pub give_back-AllSound :
      (token : ℕ) (m : Message P) (db : Tables P) → AllSound db → AllSound (give_back token m db)
  unfolding give_back
  give_back-AllSound token m db h = elim (Option-cases (find_row m.id m.created_at db.events)) [
    | inl e ↦ rw (e, give_back) h
    | inr (r, e) ↦
        let s = All-find_row IsSound m.id m.created_at r db.events e h.rows in
        elim (Bool-cases (holds token r)) [
          | inl own ↦
              rw (e, give_back)
                (rw own (
                  replace-AllSound r (clear_lock r) db
                    (record { tries = s.tries; stamped = s.stamped; locked = refl }) h))
          | inr other ↦ rw (e, give_back) (rw other h)
        ]
  ]
