-- ===== src/Points/Ledger/Transfer/Cases.antt =====
-- Every way in which a call of `transfer` may end (app/modules/points/service.py).
use lkm_service.Prelude.{
  ℕ, String, ◌≡◌, refl, ◌≢◌, false, ◌&&◌, Option, none, some, ◌==◌, nat_key, arith, inl, inr,
  Bool-cases, Option-cases, nat_eqb_iff,
}
use lkm_service.Prelude.Int.{ℤ, pos, -ℤ◌, ◌≤ℤ◌, leb_ℤ, eqb_ℤ_iff, int_key}
use lkm_service.Prelude.Exec.{Result, ok, err}
use lkm_service.Points.{PointsErr, invalid_input, duplicate_reward, LedgerEntry, Books}
use lkm_service.Points.Ledger.{ensure_balance, get_by_ref}
use lkm_service.Points.Ledger.Rows.{get_by_ref-ensure_balance}
use lkm_service.Points.Ledger.Transfer.{replayed_pair, moved, transfer}
use lkm_service.Points.Ledger.Transfer.Outcome.{Moved, moved-Moved}

-- Both users have a balance row.
abbrev pub prepared : ℕ → ℕ → Books → Books
prepared sender receiver s = ensure_balance receiver (ensure_balance sender s)

module _ (sender receiver : ℕ) (amount : ℤ) (reason ref_type ref_id : String) (s : Books) where
  transfer_fresh :
      sender ≢ receiver
      → leb_ℤ amount (pos 0) ≡ false
      → get_by_ref sender ref_type ref_id s ≡ none
      → transfer sender receiver amount reason ref_type ref_id s
        ≡ moved sender receiver amount ref_type ref_id (prepared sender receiver s)
  unfolding transfer
  transfer_fresh apart positive fresh = ground (
    arith,
    nat_eqb_iff sender receiver,
    get_by_ref-ensure_balance receiver sender ref_type ref_id (ensure_balance sender s),
    get_by_ref-ensure_balance sender sender ref_type ref_id s,
    get_by_ref-ensure_balance receiver receiver ref_type ref_id (ensure_balance sender s),
    get_by_ref-ensure_balance sender receiver ref_type ref_id s,
  )

  -- What a transfer has done by how it ended: nothing that its session keeps, a replay of an
  -- earlier pair, or a move.
  pub data Transferred (r : Result PointsErr (LedgerEntry × LedgerEntry) × Books) : Type 0 where
    raised : (e : PointsErr) → r.0 ≡ err e → Transferred r
    repeated :
        (out in_row : LedgerEntry)
        → get_by_ref sender ref_type ref_id s ≡ some out
        → get_by_ref receiver ref_type ref_id s ≡ some in_row
        → out.delta ≡ -ℤ◌ amount
        → in_row.delta ≡ amount
        → r ≡ (ok (out, in_row), prepared sender receiver s)
        → Transferred r
    fresh_move :
        sender ≢ receiver
        → get_by_ref sender ref_type ref_id s ≡ none
        → pos 0 ≤ℤ amount
        → Moved sender receiver amount ref_type ref_id (prepared sender receiver s) r
        → Transferred r

  pub transfer_old :
      (out : LedgerEntry)
      → sender ≢ receiver
      → leb_ℤ amount (pos 0) ≡ false
      → get_by_ref sender ref_type ref_id s ≡ some out
      → transfer sender receiver amount reason ref_type ref_id s
        ≡ replayed_pair amount out
            (get_by_ref receiver ref_type ref_id s)
            (prepared sender receiver s)
  unfolding transfer
  transfer_old out apart positive found = ground (
    arith,
    nat_eqb_iff sender receiver,
    get_by_ref-ensure_balance receiver sender ref_type ref_id (ensure_balance sender s),
    get_by_ref-ensure_balance sender sender ref_type ref_id s,
    get_by_ref-ensure_balance receiver receiver ref_type ref_id (ensure_balance sender s),
    get_by_ref-ensure_balance sender receiver ref_type ref_id s,
  )

  replayed-Transferred :
      (out : LedgerEntry) (found : Option LedgerEntry)
      → get_by_ref sender ref_type ref_id s ≡ some out
      → get_by_ref receiver ref_type ref_id s ≡ found
      → Transferred (replayed_pair amount out found (prepared sender receiver s))
  unfolding replayed_pair
  replayed-Transferred out none p q = raised duplicate_reward refl
  replayed-Transferred out (some in_row) p q =
      elim (Bool-cases (out.delta == -ℤ◌ amount && in_row.delta == amount)) [
        | inl same ↦
            repeated out in_row p q (ground (arith, eqb_ℤ_iff out.delta (-ℤ◌ amount)))
              (ground (arith, eqb_ℤ_iff in_row.delta amount)) (rw same)
        | inr other ↦ raised duplicate_reward (rw other)
      ]

  positive_amount : leb_ℤ amount (pos 0) ≡ false → pos 0 ≤ℤ amount
  positive_amount h = ground arith

  transfer-Transferred_valid :
      sender ≢ receiver
      → leb_ℤ amount (pos 0) ≡ false
      → Transferred (transfer sender receiver amount reason ref_type ref_id s)
  transfer-Transferred_valid apart positive =
      elim (Option-cases (get_by_ref sender ref_type ref_id s)) [
        | inl fresh ↦ rw (transfer_fresh apart positive fresh) (
            fresh_move apart fresh (positive_amount positive) (
              moved-Moved sender receiver amount ref_type ref_id (prepared sender receiver s)
                apart))
        | inr (out, found) ↦
            rw (transfer_old out apart positive found)
              (replayed-Transferred out (get_by_ref receiver ref_type ref_id s) found refl)
      ]

  pub transfer-Transferred : Transferred (transfer sender receiver amount reason ref_type ref_id s)
  unfolding transfer
  transfer-Transferred = elim (Bool-cases (leb_ℤ amount (pos 0))) [
    | inl p ↦ raised invalid_input (ground arith)
    | inr positive ↦ elim (Bool-cases (sender == receiver)) [
      | inl same ↦ raised invalid_input (ground arith)
      | inr apart ↦
          transfer-Transferred_valid (λ e. cc ((nat_eqb_iff sender receiver).1 e)) positive
    ]
  ]
