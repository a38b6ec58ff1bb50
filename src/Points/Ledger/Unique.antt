-- ===== src/Points/Ledger/Unique.antt =====
-- One ledger row for each reference (app/modules/points/service.py).
use lkm_service.Prelude.{nat_key, text_key, Bool, String, ℕ}
use lkm_service.Prelude.Int.{ℤ}
use lkm_service.Prelude.Exec.{Result}
use lkm_service.Points.{PointsErr, LedgerEntry, Books}
use lkm_service.Points.Ledger.{reward}
use lkm_service.Points.Ledger.Outcome.{
  Rewarded, reward-Rewarded, replay, conflict, overflow, refused, too_long, grant, entry-IsGrant,
}
use lkm_service.Points.Ledger.Rows.{ledger-ensure_balance}
use lkm_service.Points.Ledger.Invariant.{HasUniqueRefs}

Rewarded-HasUniqueRefs :
    (user : ℕ) (delta : ℤ) (reason ref_type ref_id : String) (allow : Bool) (s : Books)
    (r : Result PointsErr LedgerEntry × Books)
    → HasUniqueRefs s.ledger
    → Rewarded user delta reason ref_type ref_id allow s r
    → HasUniqueRefs r.1.ledger
Rewarded-HasUniqueRefs user delta reason ref_type ref_id allow s r v (replay e found same eq) =
    rw (eq, ledger-ensure_balance user s) v
Rewarded-HasUniqueRefs user delta reason ref_type ref_id allow s r v (conflict e found other eq) =
    rw (eq, ledger-ensure_balance user s) v
Rewarded-HasUniqueRefs user delta reason ref_type ref_id allow s r v (overflow b fresh row p eq) =
    rw (eq, ledger-ensure_balance user s) v
Rewarded-HasUniqueRefs user delta reason ref_type ref_id allow s r v
      (refused b fresh row p short eq) =
    rw (eq, ledger-ensure_balance user s) v
Rewarded-HasUniqueRefs user delta reason ref_type ref_id allow s r v
      (too_long b fresh row room p long eq) =
    rw (eq, ledger-ensure_balance user s) v
Rewarded-HasUniqueRefs user delta reason ref_type ref_id allow s r v
      (grant b e fresh row room p fit it eq) =
    let g = entry-IsGrant user delta reason ref_type ref_id s b e it in
    rw (eq, ledger-ensure_balance user s) (rw (g.for_user, g.of_type, g.of_id) fresh, v)

-- `reward` keeps at most one ledger row for each (user, ref_type, ref_id), however it ends.
pub reward-HasUniqueRefs :
    (user : ℕ) (delta : ℤ) (reason ref_type ref_id : String) (allow : Bool) (s : Books)
    → HasUniqueRefs s.ledger
    → HasUniqueRefs (reward user delta reason ref_type ref_id allow s).1.ledger
reward-HasUniqueRefs user delta reason ref_type ref_id allow s v =
    Rewarded-HasUniqueRefs user delta reason ref_type ref_id allow s
      (reward user delta reason ref_type ref_id allow s) v
      (reward-Rewarded user delta reason ref_type ref_id allow s)
