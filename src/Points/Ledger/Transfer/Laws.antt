-- ===== src/Points/Ledger/Transfer/Laws.antt =====
-- What a transfer guarantees (`transfer` of app/modules/points/service.py).
use lkm_service.Prelude.{
  ℕ, String, ◌≡◌, ◌≢◌, true, some, ◌∷◌, ◌==◌, nat_key, arith, if◌then◌else◌, nat_eqb_iff, text_key,
  none, [], false, ◌∙◌,
}
use lkm_service.Prelude.Int.{ℤ, pos, -ℤ◌, ◌+ℤ◌, ◌≤ℤ◌, leb_ℤ}
use lkm_service.Prelude.Dict.{lookup, lookup-insert}
use lkm_service.Prelude.Exec.{Result, atomic}
use lkm_service.Points.{PointsErr, LedgerEntry, Books}
use lkm_service.Points.Ledger.{in_int4, ensure_balance, find_ref, rows_of}
use lkm_service.Points.Ledger.Outcome.{IsGrant}
use lkm_service.Points.Ledger.Granted.{post}
use lkm_service.Points.Ledger.Rows.{rows_of_old, rows_of_new, rows_of-none}
use lkm_service.Points.Ledger.Invariant.{
  balance_of, balance_of-ensure_balance, balance_of-post, IsValid, ensure_balance-IsValid,
  post-IsValid, bump_version-IsValid,
}
use lkm_service.Points.Ledger.Replay.{
  IsCovered, ensure_balance-IsCovered, bump_version-IsCovered, post-IsCovered,
}
use lkm_service.Points.Ledger.Transfer.{transfer}
use lkm_service.Points.Ledger.Transfer.Outcome.{done, failed}
use lkm_service.Points.Ledger.Transfer.Cases.{
  prepared, Transferred, raised, repeated, fresh_move, transfer-Transferred,
}

pub balance_of-prepared :
    (sender receiver u : ℕ) (s : Books) → balance_of u (prepared sender receiver s) ≡ balance_of u s
balance_of-prepared sender receiver u s =
    rw (balance_of-ensure_balance receiver u (ensure_balance sender s))
      (balance_of-ensure_balance sender u s)

sum_covers : (c a : ℤ) → pos 0 ≤ℤ c → pos 0 ≤ℤ a → leb_ℤ (pos 0) (c +ℤ a) ≡ true
unfolding ◌+ℤ◌
sum_covers c a p q = ground arith

-- The two rows of a move, seen from the books before it.
module _ (sender receiver : ℕ) (amount : ℤ) (ref_type ref_id : String) (t : Books) (b c : ℤ)
    (out in_row : LedgerEntry) (apart : sender ≢ receiver)
    (from : lookup sender t.balances ≡ some b) (to : lookup receiver t.balances ≡ some c)
    (g : IsGrant sender (-ℤ◌ amount) ref_type ref_id b out)
    (k : IsGrant receiver amount ref_type ref_id c in_row) where
  receiver_row : lookup receiver (post out t).balances ≡ some c
  receiver_row = ground (
    arith,
    g.for_user,
    lookup-insert out.user_id receiver out.balance_after t.balances,
    nat_eqb_iff out.user_id receiver,
  )

  pub two_posts :
      (u : ℕ)
      → balance_of u (post in_row (post out t)) ≡ (
          if sender == u
          then balance_of u t +ℤ -ℤ◌ amount
          else if receiver == u
          then balance_of u t +ℤ amount
          else balance_of u t)
  two_posts u =
      rw (balance_of-post (post out t) receiver amount ref_type ref_id c in_row receiver_row k u) (
        rw (balance_of-post t sender (-ℤ◌ amount) ref_type ref_id b out from g u)
          (ground (arith, nat_eqb_iff sender u, nat_eqb_iff receiver u)))

  two_posts-IsValid :
      in_int4 (b +ℤ -ℤ◌ amount) ≡ true
      → in_int4 (c +ℤ amount) ≡ true
      → IsValid t
      → IsValid (post in_row (post out t))
  two_posts-IsValid p q v =
      post-IsValid (post out t) receiver amount ref_type ref_id c in_row receiver_row k q
        (post-IsValid t sender (-ℤ◌ amount) ref_type ref_id b out from g p v)

  two_posts-IsCovered :
      pos 0 ≤ℤ amount
      → leb_ℤ (pos 0) (b +ℤ -ℤ◌ amount) ≡ true
      → IsCovered t
      → IsCovered (post in_row (post out t))
  two_posts-IsCovered positive room h =
      post-IsCovered (post out t) receiver amount ref_type ref_id c in_row receiver_row k
        (sum_covers c amount (rw to at (h.at receiver)) positive)
        (post-IsCovered t sender (-ℤ◌ amount) ref_type ref_id b out from g room h)

  pub two_refs :
      find_ref sender ref_type ref_id t.ledger ≡ none
      → find_ref receiver ref_type ref_id t.ledger ≡ none
      → (rows_of sender ref_type ref_id (in_row ∷ out ∷ t.ledger) ≡ out ∷ [])
        × (rows_of receiver ref_type ref_id (in_row ∷ out ∷ t.ledger) ≡ in_row ∷ [])
  two_refs none_out none_in =
      let not_in : (in_row.user_id == sender) ≡ false =
        ground (arith, k.for_user, nat_eqb_iff in_row.user_id sender) in
      let not_out : (out.user_id == receiver) ≡ false =
        ground (arith, g.for_user, nat_eqb_iff out.user_id receiver) in
      (
        rows_of_old sender ref_type ref_id in_row (out ∷ t.ledger) not_in
            ∙ rows_of_new sender ref_type ref_id out t.ledger g.for_user g.of_type g.of_id
                (rows_of-none sender ref_type ref_id t.ledger none_out),
        rows_of_new receiver ref_type ref_id in_row (out ∷ t.ledger) k.for_user k.of_type k.of_id (
            rows_of_old receiver ref_type ref_id out t.ledger not_out
            ∙ rows_of-none receiver ref_type ref_id t.ledger none_in),
      )

module _ (sender receiver : ℕ) (amount : ℤ) (reason ref_type ref_id : String) (s : Books) where
  Transferred-IsValid :
      (r : Result PointsErr (LedgerEntry × LedgerEntry) × Books)
      → IsValid s
      → Transferred sender receiver amount reason ref_type ref_id s r
      → IsValid (atomic (λ _. r) s).1
  Transferred-IsValid r v (raised e eq) = rw eq v
  Transferred-IsValid r v (repeated out in_row p q d d' eq) = rw eq (
      ensure_balance-IsValid receiver (ensure_balance sender s) (ensure_balance-IsValid sender s v))
  Transferred-IsValid r v (fresh_move apart fresh positive (failed e eq)) = rw eq v
  Transferred-IsValid r v
        (fresh_move apart fresh positive (done b c out in_row from to room p q g k eq)) =
      let t = prepared sender receiver s in
      rw eq (
        bump_version-IsValid (post in_row (post out t)) (
          two_posts-IsValid sender receiver amount ref_type ref_id t b c out in_row apart from to g
            k p q
            (ensure_balance-IsValid receiver (ensure_balance sender s)
              (ensure_balance-IsValid sender s v))))

  -- A transfer in its own session keeps the books valid, however it ends: a call that raises
  -- halfway, after the sender's balance was written, is rolled back whole.
  pub transfer-IsValid :
      IsValid s → IsValid (atomic (transfer sender receiver amount reason ref_type ref_id) s).1
  transfer-IsValid v =
      Transferred-IsValid (transfer sender receiver amount reason ref_type ref_id s) v
        (transfer-Transferred sender receiver amount reason ref_type ref_id s)

  prepared-IsCovered : IsCovered s → IsCovered (prepared sender receiver s)
  prepared-IsCovered h =
      ensure_balance-IsCovered receiver (ensure_balance sender s)
        (ensure_balance-IsCovered sender s h)

  Transferred-IsCovered :
      (r : Result PointsErr (LedgerEntry × LedgerEntry) × Books)
      → IsCovered s
      → Transferred sender receiver amount reason ref_type ref_id s r
      → IsCovered (atomic (λ _. r) s).1
  Transferred-IsCovered r h (raised e eq) = rw eq h
  Transferred-IsCovered r h (repeated out in_row p q d d' eq) = rw eq (prepared-IsCovered h)
  Transferred-IsCovered r h (fresh_move apart fresh positive (failed e eq)) = rw eq h
  Transferred-IsCovered r h
        (fresh_move apart fresh positive (done b c out in_row from to room p q g k eq)) =
      let t = prepared sender receiver s in
      rw eq (
        bump_version-IsCovered (post in_row (post out t)) (
          two_posts-IsCovered sender receiver amount ref_type ref_id t b c out in_row apart from to
            g k positive room (prepared-IsCovered h)))

  -- A transfer leaves no balance below zero if none was, however it ends.
  pub transfer-IsCovered :
      IsCovered s → IsCovered (atomic (transfer sender receiver amount reason ref_type ref_id) s).1
  transfer-IsCovered h =
      Transferred-IsCovered (transfer sender receiver amount reason ref_type ref_id s) h
        (transfer-Transferred sender receiver amount reason ref_type ref_id s)
