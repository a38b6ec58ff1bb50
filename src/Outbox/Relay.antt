-- ===== src/Outbox/Relay.antt =====
-- The two transactions of the relay for one row (core/outbox_relay.py): a claim, and a settlement
-- after the publication.
pub mod Rows
pub mod Conservation
pub mod Sound
pub mod Claims
pub mod Fencing
use lkm_service.Prelude.{
  ℕ, zero, suc, ◌+◌, ◌^◌, min, max, String, Bool, true, false, ◌&&◌, ◌||◌, Option, none, some, List,
  [], ◌∷◌, ◌==◌, nat_key, if◌then◌else◌, ltb, leb,
}
use Prim.Native.String.{count}
use lkm_service.Outbox.{
  Status, pending, published, Message, Failure, Tables, seconds, max_tries, backoff_cap,
}

-- The settings outbox_lock_ttl_s and pulsar_operation_timeout_s, in microseconds.
pub record Settings : Type 0 where
  pub lock_ttl : ℕ
  pub operation_timeout : ℕ

abbrev pub is_pending : Status → Bool
is_pending pending = true
is_pending published = false

-- A claim older than this belongs to a process that has died.
unfoldable pub stale_after : Settings → ℕ
stale_after c = max c.lock_ttl (c.operation_timeout + seconds 10)

abbrev pub unlocked : ℕ → ℕ → Option ℕ → Bool
unlocked stale now none = true
unlocked stale now (some t) = ltb (t + stale) now

-- The wait after a number of failed attempts.
pub backoff_seconds : ℕ → ℕ
backoff_seconds attempt = min (2 ^ attempt) backoff_cap

-- How a settlement ended. `crashed` is the database's error on a reason that does not fit its
-- column; it leaves the poll.
pub data Settlement : Type 0 where
  lost folded sent postponed exhausted crashed : Settlement

module _ {P : Type 0} where
  unfoldable pub claimable : Settings → ℕ → Message P → Bool
  claimable c now m =
      is_pending m.status && (leb m.next_retry_at now && unlocked (stale_after c) now m.locked_at)

  -- `ORDER BY attempt_count, id`.
  unfoldable pub precedes : Message P → Message P → Bool
  precedes m n =
      ltb m.attempt_count n.attempt_count || (m.attempt_count == n.attempt_count && leb m.id n.id)

  unfoldable pub earlier : Message P → Option (Message P) → Message P
  earlier m none = m
  earlier m (some n) = if precedes m n then m else n

  -- `LIMIT 1` of the claimable rows in that order.
  unfoldable pub next_claimable : Settings → ℕ → List (Message P) → Option (Message P)
  next_claimable c now [] = none
  next_claimable c now (m ∷ l) =
      let rest = next_claimable c now l in if claimable c now m then some (earlier m rest) else rest

  abbrev pub has_key : ℕ → ℕ → Message P → Bool
  has_key id created_at m = m.id == id && m.created_at == created_at

  -- The row with this primary key.
  unfoldable pub find_row : ℕ → ℕ → List (Message P) → Option (Message P)
  find_row id created_at [] = none
  find_row id created_at (m ∷ l) =
      if has_key id created_at m then some m else find_row id created_at l

  abbrev pub cons_some : Option (Message P) → List (Message P) → List (Message P)
  cons_some none l = l
  cons_some (some m) l = m ∷ l

  -- An UPDATE of that row, or its DELETE where the function gives `none`.
  unfoldable pub alter :
      ℕ → ℕ → (Message P → Option (Message P)) → List (Message P) → List (Message P)
  alter id created_at f [] = []
  alter id created_at f (m ∷ l) =
      if has_key id created_at m then cons_some (f m) l else m ∷ alter id created_at f l

  abbrev pub lock : ℕ → ℕ → Message P → Message P
  lock token now m = record m { locked_at = some now; locked_by = some token }

  abbrev pub clear_lock : Message P → Message P
  clear_lock m = record m { locked_at = none; locked_by = none }

  -- The first transaction: a claimable row is locked under a fresh token.
  unfoldable pub claim : Settings → ℕ → ℕ → Tables P → Option (Message P) × Tables P
  claim c token now db = elim (next_claimable c now db.events) [
    | none ↦ (none, db)
    | some m ↦ (
      some (lock token now m),
      record db { events = alter m.id m.created_at (λ r. some (lock token now r)) db.events },
    )
  ]

  abbrev pub holds : ℕ → Message P → Bool
  holds token m = elim m.locked_by [ none ↦ false | some t ↦ t == token ]

  abbrev pub failure_of : Message P → String → Failure P
  failure_of m reason = record {
    event_id = m.event_id;
    routing_key = m.routing_key;
    payload = m.payload;
    attempt_count = m.attempt_count;
    reason = reason;
  }

  abbrev pub mark_published : ℕ → Message P → Message P
  mark_published now m = record (clear_lock m) { status = published; published_at = some now }

  abbrev pub count_attempt : Message P → Message P
  count_attempt m = record (clear_lock m) { attempt_count = m.attempt_count + 1 }

  abbrev pub postpone : ℕ → Message P → Message P
  postpone now m = record m { next_retry_at = now + seconds (backoff_seconds m.attempt_count) }

  -- The row is moved to event_failures.
  abbrev pub fold : Message P → Message P → String → Tables P → Tables P
  fold row m reason db = record db {
    events = alter row.id row.created_at (λ _. none) db.events;
    failures = failure_of m reason ∷ db.failures;
  }

  abbrev pub replace : Message P → Message P → Tables P → Tables P
  replace row m db = record db { events = alter row.id row.created_at (λ _. some m) db.events }

  -- `EventFailure.reason` has 255 characters.
  abbrev pub settle_permanent : Message P → String → Tables P → Settlement × Tables P
  settle_permanent m reason db =
      if ltb 255 (count reason) then (crashed, db) else (folded, fold m m reason db)

  abbrev pub settle_failed : ℕ → Message P → Tables P → Settlement × Tables P
  settle_failed now m db =
      let tried = count_attempt m in
      if leb max_tries tried.attempt_count
      then (exhausted, fold m tried "relay exhausted: max tries reached" db)
      else (postponed, replace m (postpone now tried) db)

  abbrev pub settle_row : ℕ → Message P → Option String → Bool → Tables P → Settlement × Tables P
  settle_row now m (some reason) ok db = settle_permanent m reason db
  settle_row now m none true db = (sent, replace m (mark_published now m) db)
  settle_row now m none false db = settle_failed now m db

  -- The second transaction: only the process whose token the row still carries changes it.
  unfoldable pub settle :
      ℕ → ℕ → Message P → Option String → Bool → Tables P → Settlement × Tables P
  settle token now claimed reason ok db = elim (find_row claimed.id claimed.created_at db.events) [
    | none ↦ (lost, db)
    | some m ↦ if holds token m then settle_row now m reason ok db else (lost, db)
  ]

  -- The claim is given back when the leader's lease is gone before the publication.
  unfoldable pub give_back : ℕ → Message P → Tables P → Tables P
  give_back token claimed db = elim (find_row claimed.id claimed.created_at db.events) [
    | none ↦ db
    | some m ↦ if holds token m then replace m (clear_lock m) db else db
  ]
