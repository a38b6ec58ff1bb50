-- ===== src/Outbox/Enqueue.antt =====
-- Entry into the outbox (`enqueue_outbox` of core/db/outbox.py): a row of outbox_event_keys and
-- the message, in the transaction of the caller.
pub mod Laws
use lkm_service.Prelude.{
  ℕ, String, Bool, true, false, Option, none, some, List, [], ◌∷◌, ◌==◌, nat_key, any, contains,
  ◌&&◌, ◌||◌, not, if◌then◌else◌, is_some,
}
use lkm_service.Prelude.Exec.{Result, ok, err}
use lkm_service.Outbox.{pending, Message, Tables}
use lkm_service.Outbox.Relay.{is_pending}

-- `ValueError("replay requires an event_id")`.
pub data EnqueueErr : Type 0 where
  replay_needs_id : EnqueueErr

-- The fresh values that a call draws: a uuid for the event, one for the row, and the time.
pub record Fresh : Type 0 where
  pub event : ℕ
  pub row : ℕ
  pub now : ℕ

module _ {P : Type 0} where
  -- `_legacy_event_exists`: a row from before the key table.
  unfoldable pub legacy_event_exists : ℕ → Tables P → Bool
  legacy_event_exists ev db =
      any (λ m. m.event_id == ev) db.events
      || (any (λ a. a.event_id == ev) db.archived || any (λ f. f.event_id == ev) db.failures)

  unfoldable pub has_pending : ℕ → List (Message P) → Bool
  has_pending ev l = any (λ m. m.event_id == ev && is_pending m.status) l

  abbrev pub new_message : ℕ → String → P → Fresh → Message P
  new_message ev routing_key payload fresh = record {
    id = fresh.row;
    event_id = ev;
    routing_key = routing_key;
    payload = payload;
    status = pending;
    attempt_count = 0;
    created_at = fresh.now;
    next_retry_at = fresh.now;
    published_at = none;
    locked_at = none;
    locked_by = none;
  }

  abbrev pub add_message : Message P → Tables P → Bool × Tables P
  add_message m db = (true, record db { events = m ∷ db.events })

  -- The key was new: an explicit id may still be one that a legacy row carries.
  unfoldable pub first_time : Bool → Bool → Message P → Tables P → Bool × Tables P
  first_time explicit replay m db =
      if explicit && (not replay && legacy_event_exists m.event_id db)
      then (false, db)
      else if replay && has_pending m.event_id db.events
      then (false, db)
      else add_message m db

  -- The key was there: only a replay goes on, unless the event is still pending.
  unfoldable pub again : Bool → Message P → Tables P → Bool × Tables P
  again replay m db =
      if not replay
      then (false, db)
      else if has_pending m.event_id db.events
      then (false, db)
      else add_message m db

  unfoldable pub insert_event : Bool → Bool → Message P → Tables P → Bool × Tables P
  insert_event explicit replay m db =
      if contains m.event_id db.keys
      then again replay m db
      else first_time explicit replay m (record db { keys = m.event_id ∷ db.keys })

  unfoldable pub enqueue_outbox :
      Bool → String → P → Option ℕ → Bool → Fresh → Tables P → Result EnqueueErr Bool × Tables P
  enqueue_outbox bus_enabled routing_key payload event_id replay fresh db =
      if not bus_enabled
      then (ok false, db)
      else if replay && not (is_some event_id)
      then (err replay_needs_id, db)
      else (let ev : ℕ = elim event_id [ none ↦ fresh.event | some e ↦ e ] in
          let (queued, db') =
            insert_event (is_some event_id) replay (new_message ev routing_key payload fresh) db in
          (ok queued, db'))
