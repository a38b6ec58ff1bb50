-- ===== src/Outbox.antt =====
-- The transactional outbox: the rows of its tables (core/db/outbox.py, core/db/event_failure.py
-- and core/db/outbox_archive.py). A row id, an event id and a claim token are numbers: they are
-- compared, and ids are ordered. A time is a number of microseconds. The payload is any type.
pub mod Relay
pub mod Poll
pub mod Archive
pub mod Enqueue
mod Tests
use lkm_service.Prelude.{ℕ, ◌*◌, String, Bool, Option, List}

pub data Status : Type 0 where
  pending published : Status

-- A row of outbox_events.
pub record Message (P : Type 0) : Type 0 where
  pub id : ℕ
  pub event_id : ℕ
  pub routing_key : String
  pub payload : P
  pub status : Status
  pub attempt_count : ℕ
  pub created_at : ℕ
  pub next_retry_at : ℕ
  pub published_at : Option ℕ
  pub locked_at : Option ℕ
  pub locked_by : Option ℕ

-- A row of event_failures.
pub record Failure (P : Type 0) : Type 0 where
  pub event_id : ℕ
  pub routing_key : String
  pub payload : P
  pub attempt_count : ℕ
  pub reason : String

-- A row of outbox_archived.
pub record Archived (P : Type 0) : Type 0 where
  pub event_id : ℕ
  pub routing_key : String
  pub payload : P
  pub attempt_count : ℕ
  pub created_at : ℕ
  pub published_at : Option ℕ
  pub archived_at : ℕ

pub record Tables (P : Type 0) : Type 0 where
  pub keys : List ℕ
  pub events : List (Message P)
  pub failures : List (Failure P)
  pub archived : List (Archived P)

abbrev pub seconds : ℕ → ℕ
seconds n = n * 1000000

abbrev pub max_tries : ℕ
max_tries = 5

abbrev pub backoff_cap : ℕ
backoff_cap = 3600
