-- ===== src/Outbox/Archive.antt =====
-- The archive of published rows (`archive_published` of core/outbox_relay.py): one transaction
-- that moves the oldest of them, in the order of their ids, up to a limit.
pub mod Laws
use lkm_service.Prelude.{
  ℕ, zero, suc, ◌+◌, Bool, false, Option, none, some, List, [], ◌∷◌, not, ◌&&◌, if◌then◌else◌, ltb,
  leb,
}
use lkm_service.Outbox.{Message, Archived, Tables}
use lkm_service.Outbox.Relay.{is_pending, alter}

module _ {P : Type 0} where
  -- `status = published AND published_at < now - retention`.
  unfoldable pub archivable : ℕ → ℕ → Message P → Bool
  archivable retention now m =
      not (is_pending m.status)
      && (elim m.published_at [ none ↦ false | some t ↦ ltb (t + retention) now ])

  abbrev pub smaller : Message P → Option (Message P) → Message P
  smaller m none = m
  smaller m (some n) = if leb m.id n.id then m else n

  -- The next row by id.
  unfoldable pub next_archivable : ℕ → ℕ → List (Message P) → Option (Message P)
  next_archivable retention now [] = none
  next_archivable retention now (m ∷ l) =
      let rest = next_archivable retention now l in
      if archivable retention now m then some (smaller m rest) else rest

  abbrev pub archived_row : ℕ → Message P → Archived P
  archived_row now m = record {
    event_id = m.event_id;
    routing_key = m.routing_key;
    payload = m.payload;
    attempt_count = m.attempt_count;
    created_at = m.created_at;
    published_at = m.published_at;
    archived_at = now;
  }

  abbrev pub move_row : ℕ → Message P → Tables P → Tables P
  move_row now m db = record db {
    events = alter m.id m.created_at (λ _. none) db.events;
    archived = archived_row now m ∷ db.archived;
  }

  -- At most `limit` rows; the number of rows moved.
  unfoldable pub archive_published : ℕ → ℕ → ℕ → Tables P → ℕ × Tables P
  archive_published retention now zero db = (0, db)
  archive_published retention now (suc limit) db = elim (next_archivable retention now db.events) [
    | none ↦ (0, db)
    | some m ↦
        let (n, db') = archive_published retention now limit (move_row now m db) in (suc n, db')
  ]
