-- ===== src/Points/Ledger/Transfer.antt =====
-- A transfer between two users (`transfer` of app/modules/points/service.py): two updates of a
-- balance and two ledger rows that share a reference. Idempotence goes by the sender's row.
pub mod Outcome
pub mod Cases
pub mod Laws
pub mod Moves
pub mod Replay
use lkm_service.Prelude.{
  not, ℕ, String, Bool, true, false, ◌&&◌, ◌||◌, Option, none, some, ◌∷◌, any, ◌==◌, nat_key,
  if◌then◌else◌,
}
use lkm_service.Points.{text_too_long}
use lkm_service.Points.Ledger.{texts_fit}
use lkm_service.Prelude.Int.{ℤ, pos, -ℤ◌, leb_ℤ, int_key}
use lkm_service.Prelude.Exec.{Exec, pure, raise, gets, modify, raise_if, ◌>>=◌, ◌>>◌}
use lkm_service.Points.{
  PointsErr, duplicate_reward, invalid_input, unique_violation, LedgerEntry, Books,
}
use lkm_service.Points.Ledger.{
  ensure_balance, apply_delta, get_by_ref, collides, bump_version, invalidate_balance, entry_of,
}

-- The pair of rows of an earlier transfer, if it moved the same amount.
pub replayed_pair :
    ℤ → LedgerEntry → Option LedgerEntry → Exec PointsErr Books (LedgerEntry × LedgerEntry)
replayed_pair amount out none = raise duplicate_reward
replayed_pair amount out (some in_row) =
    if out.delta == -ℤ◌ amount && in_row.delta == amount
    then pure (out, in_row)
    else raise duplicate_reward

-- `add_all`: a plain insert, refused where a text is longer than its column and by the unique
-- constraint.
unfoldable pub add_row : LedgerEntry → Exec PointsErr Books (Unit {0})
add_row e = do
  raise_if (not (texts_fit e.reason e.ref_type e.ref_id)) text_too_long
  taken ← gets (λ s. any (collides e) s.ledger)
  raise_if taken unique_violation
  modify (λ s. record s { ledger = e ∷ s.ledger })

unfoldable pub moved :
    ℕ → ℕ → ℤ → String → String → Exec PointsErr Books (LedgerEntry × LedgerEntry)
moved sender receiver amount ref_type ref_id = do
  from_after ← apply_delta sender (-ℤ◌ amount) false
  to_after ← apply_delta receiver amount true
  out ← gets (entry_of sender (-ℤ◌ amount) from_after "transfer_out" ref_type ref_id)
  in_row ← gets (entry_of receiver amount to_after "transfer_in" ref_type ref_id)
  add_row out
  add_row in_row
  modify bump_version
  modify (invalidate_balance sender)
  modify (invalidate_balance receiver)
  pure (out, in_row)

-- The parameter `reason` is not used: the rows say "transfer_out" and "transfer_in".
unfoldable pub transfer :
    ℕ → ℕ → ℤ → String → String → String → Exec PointsErr Books (LedgerEntry × LedgerEntry)
transfer sender receiver amount reason ref_type ref_id = do
  raise_if (leb_ℤ amount (pos 0)) invalid_input
  raise_if (sender == receiver) invalid_input
  modify (ensure_balance sender)
  modify (ensure_balance receiver)
  existing_out ← gets (get_by_ref sender ref_type ref_id)
  existing_in ← gets (get_by_ref receiver ref_type ref_id)
  elim existing_out [
    | some out ↦ replayed_pair amount out existing_in
    | none ↦ moved sender receiver amount ref_type ref_id
  ]
