-- ===== src/Points/Ledger/Transfer/Replay.antt =====
-- A transfer is done once for each reference (`transfer` of app/modules/points/service.py).
use lkm_service.Prelude.{
  ℕ, String, ◌≡◌, ◌≢◌, false, some, ◌==◌, nat_key, arith, Bool-cases, inl, inr, nat_eqb_iff, ◌∙◌,
  none, ap,
}
use lkm_service.Prelude.Int.{ℤ, pos, -ℤ◌, leb_ℤ, eqb_ℤ_iff, int_key}
use lkm_service.Prelude.Dict.{lookup, insert, lookup-insert}
use lkm_service.Prelude.Exec.{Result, ok}
use lkm_service.Points.{PointsErr, LedgerEntry, Books}
use lkm_service.Points.Ledger.{ensure_balance, get_by_ref, bump_version}
use lkm_service.Points.Ledger.Granted.{post}
use lkm_service.Points.Ledger.Rows.{
  row-ensure_balance, get_by_ref-ensure_balance, get_by_ref-single, find_ref-none,
}
use lkm_service.Points.Ledger.Plans.{at_plan, IsSteady, ensure_balance-at_plan, get_by_ref-again}
use lkm_service.Points.Ledger.Replay.{ensure_balance_row}
use lkm_service.Points.Ledger.Transfer.{replayed_pair, transfer}
use lkm_service.Points.Ledger.Transfer.Outcome.{done, failed}
use lkm_service.Points.Ledger.Transfer.Cases.{
  prepared, Transferred, raised, repeated, fresh_move, transfer-Transferred, transfer_old,
}
use lkm_service.Points.Ledger.Transfer.Laws.{two_refs}

abbrev HasRow : ℕ → Books → Type 0
HasRow user s = (b : ℤ) × (lookup user s.balances ≡ some b)

ensure_balance-HasRow :
    (user other : ℕ) (s : Books) → HasRow user s → HasRow user (ensure_balance other s)
unfolding ensure_balance
ensure_balance-HasRow user other s (b, row) =
    (b, ground (arith, lookup-insert other user (pos 0) s.balances, nat_eqb_iff other user))

prepared_kept :
    (sender receiver : ℕ) (s : Books)
    → HasRow sender s
    → HasRow receiver s
    → prepared sender receiver s ≡ s
prepared_kept sender receiver s (b, from) (c, to) =
    rw (ensure_balance_row sender s b from) (ensure_balance_row receiver s c to)

prepared_twice :
    (sender receiver : ℕ) (s : Books)
    → prepared sender receiver (prepared sender receiver s) ≡ prepared sender receiver s
prepared_twice sender receiver s =
    prepared_kept sender receiver (prepared sender receiver s)
      (ensure_balance-HasRow sender receiver (ensure_balance sender s)
        (row-ensure_balance sender s))
      (row-ensure_balance receiver (ensure_balance sender s))

prepared-posts :
    (sender receiver : ℕ) (out in_row : LedgerEntry) (s : Books)
    → sender ≢ receiver
    → out.user_id ≡ sender
    → in_row.user_id ≡ receiver
    → let t = bump_version (post in_row (post out s)) in prepared sender receiver t ≡ t
prepared-posts sender receiver out in_row s apart p q =
    let d = insert out.user_id out.balance_after s.balances in
    prepared_kept sender receiver (bump_version (post in_row (post out s)))
      (
        out.balance_after,
        ground (
          arith,
          lookup-insert in_row.user_id sender in_row.balance_after d,
          lookup-insert out.user_id sender out.balance_after s.balances,
          nat_eqb_iff in_row.user_id sender,
          nat_eqb_iff out.user_id sender,
        ),
      )
      (
        in_row.balance_after,
        ground (arith, lookup-insert in_row.user_id receiver in_row.balance_after d),
      )

get_by_ref-prepared :
    (sender receiver user : ℕ) (ref_type ref_id : String) (s : Books)
    → get_by_ref user ref_type ref_id (prepared sender receiver s)
      ≡ get_by_ref user ref_type ref_id s
get_by_ref-prepared sender receiver user ref_type ref_id s =
    get_by_ref-ensure_balance receiver user ref_type ref_id (ensure_balance sender s)
    ∙ get_by_ref-ensure_balance sender user ref_type ref_id s

prepared-at_plan :
    (later sender receiver : ℕ) (s : Books)
    → prepared sender receiver (at_plan later s) ≡ at_plan later (prepared sender receiver s)
prepared-at_plan later sender receiver s =
    ap (ensure_balance receiver) (ensure_balance-at_plan later sender s)
    ∙ ensure_balance-at_plan later receiver (ensure_balance sender s)

kept_later :
    (later sender receiver : ℕ) (t : Books)
    → prepared sender receiver t ≡ t
    → prepared sender receiver (at_plan later t) ≡ at_plan later t
kept_later later sender receiver t h =
    prepared-at_plan later sender receiver t ∙ ap (at_plan later) h

found_later :
    (later sender receiver user : ℕ) (ref_type ref_id : String) (s : Books) (e : LedgerEntry)
    → IsSteady later user ref_type ref_id s
    → get_by_ref user ref_type ref_id s ≡ some e
    → get_by_ref user ref_type ref_id (at_plan later (prepared sender receiver s)) ≡ some e
found_later later sender receiver user ref_type ref_id s e steady h =
    rw (← prepared-at_plan later sender receiver s) (
      get_by_ref-prepared sender receiver user ref_type ref_id (at_plan later s)
      ∙ get_by_ref-again later user ref_type ref_id s e steady h)

module _ (later sender receiver : ℕ) (amount : ℤ) (reason reason' ref_type ref_id : String)
    (s t : Books) (out in_row : LedgerEntry)
    (paired : get_by_ref sender ref_type ref_id s ≡ none
      → get_by_ref receiver ref_type ref_id s ≡ none)
    (steady_out : IsSteady later sender ref_type ref_id s)
    (steady_in : IsSteady later receiver ref_type ref_id s)
    (returned : transfer sender receiver amount reason ref_type ref_id s
      ≡ (ok (out, in_row), t)) where
  arguments_valid : (leb_ℤ amount (pos 0) ≡ false) × ((sender == receiver) ≡ false)
  unfolding transfer
  arguments_valid = elim (Bool-cases (leb_ℤ amount (pos 0))) [
    | inl p ↦ ground arith
    | inr p ↦ elim (Bool-cases (sender == receiver)) [ inl q ↦ ground arith | inr q ↦ (p, q) ]
  ]

  -- What the call has left.
  record Leaves : Type 0 where
    found_out : get_by_ref sender ref_type ref_id (at_plan later t) ≡ some out
    found_in : get_by_ref receiver ref_type ref_id (at_plan later t) ≡ some in_row
    paid : out.delta ≡ -ℤ◌ amount
    got : in_row.delta ≡ amount
    kept : prepared sender receiver (at_plan later t) ≡ at_plan later t

  Transferred-Leaves :
      (r : Result PointsErr (LedgerEntry × LedgerEntry) × Books)
      → r ≡ (ok (out, in_row), t)
      → Transferred sender receiver amount reason ref_type ref_id s r
      → Leaves
  Transferred-Leaves r h (raised e eq) = cc
  Transferred-Leaves r h (repeated o i p q d d' eq) =
      let at : t ≡ prepared sender receiver s = cc in
      let of : out ≡ o = cc in
      let in_of : in_row ≡ i = cc in
      record {
        found_out =
            rw (at, of) (found_later later sender receiver sender ref_type ref_id s o steady_out p);
        found_in =
            rw (at, in_of)
              (found_later later sender receiver receiver ref_type ref_id s i steady_in q);
        paid = rw of d;
        got = rw in_of d';
        kept = rw at (
            kept_later later sender receiver (prepared sender receiver s)
              (prepared_twice sender receiver s));
      }
  Transferred-Leaves r h (fresh_move apart _ positive (failed e eq)) = cc
  Transferred-Leaves r h (fresh_move apart fresh positive (done b c o i from to room p q g k eq)) =
      let t' = prepared sender receiver s in
      let at : t ≡ bump_version (post i (post o t')) = cc in
      let of : out ≡ o = cc in
      let in_of : in_row ≡ i = cc in
      let none_out =
        find_ref-none sender ref_type ref_id t'
          (get_by_ref-prepared sender receiver sender ref_type ref_id s ∙ fresh) in
      let none_in =
        find_ref-none receiver ref_type ref_id t'
          (get_by_ref-prepared sender receiver receiver ref_type ref_id s ∙ paired fresh) in
      let refs =
        two_refs sender receiver amount ref_type ref_id t' b c o i apart from to g k none_out
          none_in in
      let moved : Books = bump_version (post i (post o t')) in
      let after : Books = at_plan later moved in
      record {
        found_out = rw (at, of) (get_by_ref-single sender ref_type ref_id after o (refs.0));
        found_in = rw (at, in_of) (get_by_ref-single receiver ref_type ref_id after i (refs.1));
        paid = rw of g.by_delta;
        got = rw in_of k.by_delta;
        kept = rw at (
            kept_later later sender receiver moved
              (prepared-posts sender receiver o i t' apart g.for_user k.for_user));
      }

  -- A transfer that returned two rows, made again with the same users, amount and reference,
  -- returns the same rows and moves nothing, if the receiver had no row of the reference where the
  -- sender had none (an older one could be found in the place of the new one), and for each of the
  -- two the database still prefers the same rows or at most one row had the reference before.
  pub transfer-transfer :
      transfer sender receiver amount reason' ref_type ref_id (at_plan later t)
      ≡ (ok (out, in_row), at_plan later t)
  unfolding replayed_pair
  transfer-transfer =
      let l =
        Transferred-Leaves (transfer sender receiver amount reason ref_type ref_id s) returned
          (transfer-Transferred sender receiver amount reason ref_type ref_id s) in
      let v = arguments_valid in
      rw
        (transfer_old sender receiver amount reason' ref_type ref_id (at_plan later t) out
          (λ e. cc (v.1, (nat_eqb_iff sender receiver).1 e)) v.0 l.found_out)
        (rw (l.found_in, l.kept)
          (ground (
            arith,
            l.paid,
            l.got,
            eqb_ℤ_iff out.delta (-ℤ◌ amount),
            eqb_ℤ_iff in_row.delta amount,
          )))
