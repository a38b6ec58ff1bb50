-- ===== src/Points/Ledger.antt =====
-- Balances and the ledger (app/modules/points/service.py and repository.py). A call that
-- raises leaves its writes to the caller's session, which rolls them back (`Exec.atomic`).
pub mod Rows
pub mod Granted
pub mod Outcome
pub mod Plans
pub mod Invariant
pub mod Replay
pub mod Unique
pub mod Transfer
pub mod Total
mod Tests
use lkm_service.Prelude.{
  keep, leb, zero, suc, ℕ, ◌+◌, String, Bool, false, ◌&&◌, ◌||◌, not, Option, none, some, List, [],
  ◌∷◌, any, ◌==◌, nat_key, text_key, if◌then◌else◌,
}
use Prim.Native.String.{count}
use lkm_service.Prelude.Int.{int_key, ℤ, pos, negsuc, ◌+ℤ◌, -ℤ◌, leb_ℤ}
use lkm_service.Prelude.Dict.{lookup, insert, remove}
use lkm_service.Prelude.Exec.{
  Result, Exec, ok, err, pure, raise, gets, modify, raise_if, ◌>>=◌, ◌>>◌,
}
use lkm_service.Points.{
  PointsErr, insufficient_balance, duplicate_reward, invalid_input, out_of_range, text_too_long,
  LedgerEntry, Books,
}

-- An Integer column holds 32 bits, signed.
unfoldable pub in_int4 : ℤ → Bool
in_int4 v = leb_ℤ (negsuc 2147483647) v && leb_ℤ v (pos 2147483647)

-- A missing row is created with a balance of 0.
unfoldable pub ensure_balance : ℕ → Books → Books
ensure_balance user s = elim (lookup user s.balances) [
  | some _ ↦ s
  | none ↦ record s { balances = insert user (pos 0) s.balances }
]

-- `UserBalanceRepository.apply_delta`: `none` when no row was updated.
unfoldable pub update_balance : ℕ → ℤ → Bool → Exec PointsErr Books (Option ℤ)
update_balance user delta allow_negative s =
    if not (in_int4 delta) then (err out_of_range, s) else elim (lookup user s.balances) [
      | none ↦ (ok none, s)
      | some b ↦
          if not (in_int4 (b +ℤ delta))
          then (err out_of_range, s)
          else if allow_negative || leb_ℤ (pos 0) (b +ℤ delta)
          then (ok (some (b +ℤ delta)), record s { balances = insert user (b +ℤ delta) s.balances })
          else (ok none, s)
    ]

unfoldable pub apply_delta : ℕ → ℤ → Bool → Exec PointsErr Books ℤ
apply_delta user delta allow_negative = do
  updated ← update_balance user delta allow_negative
  elim updated [ none ↦ raise insufficient_balance | some b ↦ pure b ]

abbrev pub matches_ref : ℕ → String → String → LedgerEntry → Bool
matches_ref user ref_type ref_id e =
    e.user_id == user && (e.ref_type == ref_type && e.ref_id == ref_id)

-- The newest row with the reference.
unfoldable pub find_ref : ℕ → String → String → List LedgerEntry → Option LedgerEntry
find_ref user ref_type ref_id [] = none
find_ref user ref_type ref_id (e ∷ l) =
    if matches_ref user ref_type ref_id e then some e else find_ref user ref_type ref_id l

abbrev pub rows_of : ℕ → String → String → List LedgerEntry → List LedgerEntry
rows_of user ref_type ref_id l = keep (matches_ref user ref_type ref_id) l

-- The row that a query with `LIMIT 1` returns, of this one and the others.
unfoldable pub pick_from : LedgerEntry → List LedgerEntry → ℕ → LedgerEntry
pick_from e [] n = e
pick_from e (r ∷ l) zero = e
pick_from e (r ∷ l) (suc n) = pick_from r l n

unfoldable pub pick : ℕ → List LedgerEntry → Option LedgerEntry
pick n [] = none
pick n (e ∷ l) = some (pick_from e l n)

unfoldable pub get_by_ref : ℕ → String → String → Books → Option LedgerEntry
get_by_ref user ref_type ref_id s = pick s.plan (rows_of user ref_type ref_id s.ledger)

-- The columns `reason` and `ref_type` hold 50 characters, `ref_id` 128.
abbrev pub texts_fit : String → String → String → Bool
texts_fit reason ref_type ref_id =
    leb (count reason) 50 && leb (count ref_type) 50 && leb (count ref_id) 128

-- Two rows that the unique constraint uq_points_ledger_ref does not let stand together.
abbrev pub collides : LedgerEntry → LedgerEntry → Bool
collides e r = matches_ref e.user_id e.ref_type e.ref_id r && r.created_at == e.created_at

-- `INSERT … ON CONFLICT DO NOTHING`.
unfoldable pub upsert_entry : LedgerEntry → Books → Books
upsert_entry e s = if any (collides e) s.ledger then s else record s { ledger = e ∷ s.ledger }

-- `bump_collection_version("points")` and `cache_invalidate(points:balance)`.
abbrev pub bump_version : Books → Books
bump_version s = record s { version = s.version + 1 }

abbrev pub invalidate_balance : ℕ → Books → Books
invalidate_balance user s = record s { cached = remove user s.cached }

abbrev pub entry_of : ℕ → ℤ → ℤ → String → String → String → Books → LedgerEntry
entry_of user delta balance_after reason ref_type ref_id s = record {
  user_id = user;
  delta = delta;
  balance_after = balance_after;
  reason = reason;
  ref_type = ref_type;
  ref_id = ref_id;
  created_at = s.now;
}

-- The row that an earlier call with the same reference has left.
unfoldable pub replayed : ℤ → LedgerEntry → Exec PointsErr Books LedgerEntry
replayed delta e = if e.delta == delta then pure e else raise duplicate_reward

-- The row read back after the upsert.
unfoldable pub confirmed : ℤ → Option LedgerEntry → Exec PointsErr Books LedgerEntry
confirmed delta none = raise duplicate_reward
confirmed delta (some e) = if e.delta == delta then pure e else raise duplicate_reward

-- The insert after the update. A text that is too long makes the database refuse the insert and
-- abort the transaction, with the update: `s` are the books before it.
abbrev pub written :
    ℕ
    → ℤ
    → String
    → String
    → String
    → Books
    → Result PointsErr ℤ × Books
    → Result PointsErr (Unit {0}) × Books
written user delta reason ref_type ref_id s (err e, t) = (err e, t)
written user delta reason ref_type ref_id s (ok b, t) =
    if texts_fit reason ref_type ref_id
    then (ok tt, upsert_entry (entry_of user delta b reason ref_type ref_id t) t)
    else (err text_too_long, s)

unfoldable pub write_entry :
    ℕ → ℤ → String → String → String → Bool → Exec PointsErr Books (Unit {0})
write_entry user delta reason ref_type ref_id allow_negative s =
    written user delta reason ref_type ref_id s (apply_delta user delta allow_negative s)

unfoldable pub read_back : ℕ → ℤ → String → String → Exec PointsErr Books LedgerEntry
read_back user delta ref_type ref_id = do
  found ← gets (get_by_ref user ref_type ref_id)
  entry ← confirmed delta found
  modify bump_version
  modify (invalidate_balance user)
  pure entry

unfoldable pub granted : ℕ → ℤ → String → String → String → Bool → Exec PointsErr Books LedgerEntry
granted user delta reason ref_type ref_id allow_negative = do
  write_entry user delta reason ref_type ref_id allow_negative
  read_back user delta ref_type ref_id

unfoldable pub reward : ℕ → ℤ → String → String → String → Bool → Exec PointsErr Books LedgerEntry
reward user delta reason ref_type ref_id allow_negative = do
  modify (ensure_balance user)
  existing ← gets (get_by_ref user ref_type ref_id)
  elim existing [
    | some e ↦ replayed delta e
    | none ↦ granted user delta reason ref_type ref_id allow_negative
  ]

unfoldable pub spend : ℕ → ℤ → String → String → String → Exec PointsErr Books LedgerEntry
spend user amount reason ref_type ref_id = do
  raise_if (leb_ℤ amount (pos 0)) invalid_input
  reward user (-ℤ◌ amount) reason ref_type ref_id false
