-- ===== src/Points.antt =====
-- The points domain (app/modules/points): the rows of its tables, and the state that a
-- transaction reads and writes. A user id, an achievement id and a task id are numbers, since
-- they are only compared; a time is a number of microseconds.
pub mod Ledger
pub mod Engine
use lkm_service.Prelude.{ℕ, String, Bool, List}
use lkm_service.Prelude.Int.{ℤ}
use lkm_service.Prelude.Dict.{Dict}

-- The last three are the errors of the database: on a value that does not fit an Integer column, on
-- a row that a unique constraint refuses, and on a text that is longer than its column.
pub data PointsErr : Type 0 where
  insufficient_balance duplicate_reward invalid_input out_of_range unique_violation text_too_long :
      PointsErr

-- A row of points_ledger.
pub record LedgerEntry : Type 0 where
  pub user_id : ℕ
  pub delta : ℤ
  pub balance_after : ℤ
  pub reason : String
  pub ref_type : String
  pub ref_id : String
  pub created_at : ℕ

-- The tables user_balances and points_ledger, newest row first, the clock, and the two cache
-- entries that the service invalidates: the version of the collection and the balances read.
-- `plan` says which of several rows the database returns to a query that has no order.
pub record Books : Type 0 where
  pub balances : Dict ℕ ℤ
  pub ledger : List LedgerEntry
  pub now : ℕ
  pub version : ℕ
  pub cached : Dict ℕ ℤ
  pub plan : ℕ
