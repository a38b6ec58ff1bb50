-- ===== src/Points/Ledger/Replay.antt =====
-- A reward is given once for each reference (app/modules/points/service.py).
use lkm_service.Prelude.{
  ℕ, String, ◌≡◌, ◌≢◌, Bool, true, false, some, nat_key, arith, Bool-cases, inl, inr, ◌∙◌, none, ap,
}
use lkm_service.Prelude.Int.{ℤ, pos, ◌+ℤ◌, ◌≤ℤ◌, leb_ℤ, -ℤ◌, eqb_ℤ_iff}
use lkm_service.Prelude.Dict.{lookup, lookup-insert}
use lkm_service.Prelude.Exec.{Result, ok, err}
use lkm_service.Points.{PointsErr, duplicate_reward, LedgerEntry, Books}
use lkm_service.Points.Ledger.{
  ensure_balance, get_by_ref, replayed, reward, spend, bump_version, find_ref,
}
use lkm_service.Points.Ledger.Rows.{
  ledger-ensure_balance, get_by_ref-ensure_balance, get_by_ref-single, rows_of_new, rows_of-none,
  row-ensure_balance,
}
use lkm_service.Points.Ledger.Granted.{post, posted}
use lkm_service.Points.Ledger.Outcome.{
  IsGrant, Rewarded, replay, conflict, overflow, refused, too_long, entry-IsGrant, grant,
  reward-Rewarded, reward-some,
}
use lkm_service.Points.Ledger.Plans.{at_plan, IsSteady, ensure_balance-at_plan, get_by_ref-again}
use lkm_service.Points.Ledger.Invariant.{balance_of, balance_of-ensure_balance, balance_of-post}

pub ensure_balance_row :
    (user : ℕ) (s : Books) (b : ℤ) → lookup user s.balances ≡ some b → ensure_balance user s ≡ s
unfolding ensure_balance
ensure_balance_row user s b row = rw (row, ensure_balance)

pub ensure_balance_twice :
    (user : ℕ) (s : Books) → ensure_balance user (ensure_balance user s) ≡ ensure_balance user s
ensure_balance_twice user s =
    let (b, row) = row-ensure_balance user s in
    ensure_balance_row user (ensure_balance user s) b row

ensure_balance-posted :
    (e : LedgerEntry) (s : Books) → ensure_balance e.user_id (posted e s) ≡ posted e s
ensure_balance-posted e s =
    ensure_balance_row e.user_id (posted e s) e.balance_after
      (ground (arith, lookup-insert e.user_id e.user_id e.balance_after s.balances))

-- What a call that returned `e` has left: a later call finds the row and changes nothing.
record Leaves (later user : ℕ) (delta : ℤ) (ref_type ref_id : String) (e : LedgerEntry) (t : Books)
    : Type 0 where
  found : get_by_ref user ref_type ref_id (at_plan later t) ≡ some e
  same : e.delta ≡ delta
  kept : ensure_balance user (at_plan later t) ≡ at_plan later t

kept_later :
    (later user : ℕ) (t : Books)
    → ensure_balance user t ≡ t
    → ensure_balance user (at_plan later t) ≡ at_plan later t
kept_later later user t h = ensure_balance-at_plan later user t ∙ ap (at_plan later) h

found_later :
    (later user other : ℕ) (ref_type ref_id : String) (s : Books) (e : LedgerEntry)
    → IsSteady later user ref_type ref_id s
    → get_by_ref user ref_type ref_id s ≡ some e
    → get_by_ref user ref_type ref_id (at_plan later (ensure_balance other s)) ≡ some e
found_later later user other ref_type ref_id s e steady h =
    rw (← ensure_balance-at_plan later other s) (
      get_by_ref-ensure_balance other user ref_type ref_id (at_plan later s)
      ∙ get_by_ref-again later user ref_type ref_id s e steady h)

module _ (later user : ℕ) (delta : ℤ) (reason ref_type ref_id : String) (allow : Bool) (s t : Books)
    (e : LedgerEntry) (steady : IsSteady later user ref_type ref_id s) where
  Rewarded-Leaves :
      (r : Result PointsErr LedgerEntry × Books)
      → r ≡ (ok e, t)
      → Rewarded user delta reason ref_type ref_id allow s r
      → Leaves later user delta ref_type ref_id e t
  Rewarded-Leaves r h (replay e' found same eq) =
      let at : t ≡ ensure_balance user s = cc in
      let of : e ≡ e' = cc in
      record {
        found = rw (at, of) (found_later later user user ref_type ref_id s e' steady found);
        same = rw of same;
        kept = rw at (kept_later later user (ensure_balance user s) (ensure_balance_twice user s));
      }
  Rewarded-Leaves r h (conflict e' found other eq) = cc
  Rewarded-Leaves r h (overflow b fresh row p eq) = cc
  Rewarded-Leaves r h (refused b fresh row p short eq) = cc
  Rewarded-Leaves r h (too_long b fresh row room p long eq) = cc
  Rewarded-Leaves r h (grant b e' fresh row room p fit it eq) =
      let s' = ensure_balance user s in
      let at : t ≡ posted e' s' = cc in
      let of : e ≡ e' = cc in
      let g = entry-IsGrant user delta reason ref_type ref_id s b e' it in
      let unused : find_ref user ref_type ref_id s'.ledger ≡ none =
        rw (ledger-ensure_balance user s) fresh in
      let only =
        rows_of_new user ref_type ref_id e' s'.ledger g.for_user g.of_type g.of_id
          (rows_of-none user ref_type ref_id s'.ledger unused) in
      let there : get_by_ref user ref_type ref_id (at_plan later (posted e' s')) ≡ some e' =
        get_by_ref-single user ref_type ref_id (at_plan later (posted e' s')) e' only in
      record {
        found = rw (at, of) there;
        same = rw of g.by_delta;
        kept = rw at (
            kept_later later user (posted e' s')
              (rw (← g.for_user) (ensure_balance-posted e' (ensure_balance e'.user_id s))));
      }

  -- A call that returned a row, made again with the same user, amount and reference, returns the
  -- same row and leaves every table and cache entry as it is, whatever the reason given and
  -- whether or not the balance may become negative, if the database still prefers the same rows or
  -- at most one row had the reference before.
  pub reward-reward :
      (reason' : String) (allow' : Bool)
      → reward user delta reason ref_type ref_id allow s ≡ (ok e, t)
      → reward user delta reason' ref_type ref_id allow' (at_plan later t) ≡ (ok e, at_plan later t)
  unfolding replayed
  reward-reward reason' allow' h =
      let l =
        Rewarded-Leaves (reward user delta reason ref_type ref_id allow s) h
          (reward-Rewarded user delta reason ref_type ref_id allow s) in
      rw (reward-some user delta reason' ref_type ref_id allow' (at_plan later t) e l.found)
        (rw l.kept (ground (arith, l.same)))

  -- A call with the reference of an earlier one and another amount is refused, and what the
  -- earlier call has left stays as it is.
  pub reward-reward_conflict :
      (delta' : ℤ) (reason' : String) (allow' : Bool)
      → delta' ≢ delta
      → reward user delta reason ref_type ref_id allow s ≡ (ok e, t)
      → reward user delta' reason' ref_type ref_id allow' (at_plan later t)
        ≡ (err duplicate_reward, at_plan later t)
  unfolding replayed
  reward-reward_conflict delta' reason' allow' ne h =
      let l =
        Rewarded-Leaves (reward user delta reason ref_type ref_id allow s) h
          (reward-Rewarded user delta reason ref_type ref_id allow s) in
      rw (reward-some user delta' reason' ref_type ref_id allow' (at_plan later t) e l.found)
        (rw l.kept (ground (arith, l.same, eqb_ℤ_iff e.delta delta')))

-- No balance is below zero.
pub record IsCovered (s : Books) : Type 0 where
  pub at : (u : ℕ) → pos 0 ≤ℤ balance_of u s

pub covers : (b : ℤ) → leb_ℤ (pos 0) b ≡ true → pos 0 ≤ℤ b
covers b h = ground arith

pub post-IsCovered :
    (s : Books) (user : ℕ) (delta : ℤ) (ref_type ref_id : String) (b : ℤ) (e : LedgerEntry)
    → lookup user s.balances ≡ some b
    → IsGrant user delta ref_type ref_id b e
    → leb_ℤ (pos 0) (b +ℤ delta) ≡ true
    → IsCovered s
    → IsCovered (post e s)
post-IsCovered s user delta ref_type ref_id b e row g room h = record {
  at = λ u.
      rw (balance_of-post s user delta ref_type ref_id b e row g u)
        (ground (arith, covers (b +ℤ delta) room, h.at u));
}

pub ensure_balance-IsCovered :
    (user : ℕ) (s : Books) → IsCovered s → IsCovered (ensure_balance user s)
ensure_balance-IsCovered user s h = record {
  at = λ u. rw (balance_of-ensure_balance user u s) (h.at u);
}

pub bump_version-IsCovered : (s : Books) → IsCovered s → IsCovered (bump_version s)
bump_version-IsCovered s h = record { at = h.at }

Rewarded-IsCovered :
    (user : ℕ) (delta : ℤ) (reason ref_type ref_id : String) (s : Books)
    (r : Result PointsErr LedgerEntry × Books)
    → IsCovered s
    → Rewarded user delta reason ref_type ref_id false s r
    → IsCovered r.1
Rewarded-IsCovered user delta reason ref_type ref_id s r h (replay e found same eq) =
    rw eq (ensure_balance-IsCovered user s h)
Rewarded-IsCovered user delta reason ref_type ref_id s r h (conflict e found other eq) =
    rw eq (ensure_balance-IsCovered user s h)
Rewarded-IsCovered user delta reason ref_type ref_id s r h (overflow b fresh row p eq) =
    rw eq (ensure_balance-IsCovered user s h)
Rewarded-IsCovered user delta reason ref_type ref_id s r h (refused b fresh row p short eq) =
    rw eq (ensure_balance-IsCovered user s h)
Rewarded-IsCovered user delta reason ref_type ref_id s r h (too_long b fresh row room p long eq) =
    rw eq (ensure_balance-IsCovered user s h)
Rewarded-IsCovered user delta reason ref_type ref_id s r h (grant b e fresh row room p fit it eq) =
    let t = ensure_balance user s in
    let g = entry-IsGrant user delta reason ref_type ref_id s b e it in
    rw eq (
      bump_version-IsCovered (post e t) (
        post-IsCovered t user delta ref_type ref_id b e row g room
          (ensure_balance-IsCovered user s h)))

-- Spending never makes a balance negative: from books with no negative balance, `spend` leads
-- to such books, whatever the amount and whether it returns or raises.
pub spend-IsCovered :
    (user : ℕ) (amount : ℤ) (reason ref_type ref_id : String) (s : Books)
    → IsCovered s
    → IsCovered (spend user amount reason ref_type ref_id s).1
unfolding spend
spend-IsCovered user amount reason ref_type ref_id s h = elim (Bool-cases (leb_ℤ amount (pos 0))) [
  | inl p ↦ rw p h
  | inr p ↦ rw p (
      Rewarded-IsCovered user (-ℤ◌ amount) reason ref_type ref_id s
        (reward user (-ℤ◌ amount) reason ref_type ref_id false s) h
        (reward-Rewarded user (-ℤ◌ amount) reason ref_type ref_id false s))
]
