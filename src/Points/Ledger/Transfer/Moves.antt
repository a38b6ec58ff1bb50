-- ===== src/Points/Ledger/Transfer/Moves.antt =====
-- What a transfer that returned has done, and that it is done once
-- (`transfer` of app/modules/points/service.py).
use lkm_service.Prelude.{ℕ, String, ◌≡◌, refl, none, ◌==◌, nat_key, if◌then◌else◌}
use lkm_service.Prelude.Int.{ℤ, -ℤ◌, ◌+ℤ◌, int_key}
use lkm_service.Prelude.Exec.{Result, ok}
use lkm_service.Points.{PointsErr, LedgerEntry, Books}
use lkm_service.Points.Ledger.{get_by_ref, bump_version}
use lkm_service.Points.Ledger.Granted.{post}
use lkm_service.Points.Ledger.Invariant.{balance_of}
use lkm_service.Points.Ledger.Transfer.{transfer}
use lkm_service.Points.Ledger.Transfer.Outcome.{done, failed}
use lkm_service.Points.Ledger.Transfer.Cases.{
  prepared, Transferred, raised, repeated, fresh_move, transfer-Transferred,
}
use lkm_service.Points.Ledger.Transfer.Laws.{balance_of-prepared, two_posts}

module _ (sender receiver : ℕ) (amount : ℤ) (reason ref_type ref_id : String) (s t : Books)
    (out in_row : LedgerEntry) where
  -- Where a first transfer has put the money.
  abbrev HasMoved : Type 0
  HasMoved =
      (u : ℕ)
      → balance_of u t ≡ (
          if sender == u
          then balance_of u s +ℤ -ℤ◌ amount
          else if receiver == u
          then balance_of u s +ℤ amount
          else balance_of u s)

  Transferred-HasMoved :
      (r : Result PointsErr (LedgerEntry × LedgerEntry) × Books)
      → get_by_ref sender ref_type ref_id s ≡ none
      → r ≡ (ok (out, in_row), t)
      → Transferred sender receiver amount reason ref_type ref_id s r
      → HasMoved
  Transferred-HasMoved r fresh h (raised e eq) u = cc
  Transferred-HasMoved r fresh h (repeated o i p q d d' eq) u = cc
  Transferred-HasMoved r fresh h (fresh_move apart _ positive (failed e eq)) u = cc
  Transferred-HasMoved r fresh h
        (fresh_move apart _ positive (done b c o i from to room p q g k eq)) u =
      let t' = prepared sender receiver s in
      let at : t ≡ bump_version (post i (post o t')) = cc in
      rw at (
        rw (two_posts sender receiver amount ref_type ref_id t' b c o i apart from to g k u)
          (rw (balance_of-prepared sender receiver u s) refl))

  -- A transfer that returns, with no earlier row of the sender's for the reference, takes the
  -- amount from the sender and gives it to the receiver, and every other balance stays.
  pub transfer_moves :
      get_by_ref sender ref_type ref_id s ≡ none
      → transfer sender receiver amount reason ref_type ref_id s ≡ (ok (out, in_row), t)
      → (u : ℕ)
      → balance_of u t ≡ (
          if sender == u
          then balance_of u s +ℤ -ℤ◌ amount
          else if receiver == u
          then balance_of u s +ℤ amount
          else balance_of u s)
  transfer_moves fresh h =
      Transferred-HasMoved (transfer sender receiver amount reason ref_type ref_id s) fresh h
        (transfer-Transferred sender receiver amount reason ref_type ref_id s)
