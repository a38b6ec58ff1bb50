-- ===== src/Points/Ledger/Outcome.antt =====
-- What a call of `reward` does on each of its branches (app/modules/points/service.py).
use lkm_service.Prelude.{
  Option-cases, true, arith, none, String, inr, ◌≢◌, Bool, refl, Bool-cases, ◌≡◌, ◌||◌, some, false,
  ◌&&◌, ℕ, nat_key, text_key, ◌==◌, inl, ap,
}
use lkm_service.Prelude.Int.{int_key, ℤ, pos, ◌+ℤ◌, leb_ℤ, eqb_ℤ_iff}
use lkm_service.Prelude.Dict.{lookup}
use lkm_service.Prelude.Exec.{Result, ok, err}
use lkm_service.Points.{
  PointsErr, insufficient_balance, duplicate_reward, out_of_range, LedgerEntry, Books,
  text_too_long,
}
use lkm_service.Points.Ledger.{
  in_int4, ensure_balance, apply_delta, find_ref, get_by_ref, entry_of, replayed, granted, reward,
  texts_fit,
}
use lkm_service.Points.Ledger.Rows.{
  find_ref-none, get_by_ref-ensure_balance, ledger-ensure_balance, now-ensure_balance,
  row-ensure_balance,
}
use lkm_service.Points.Ledger.Granted.{
  granted_posts, granted_raises, posted, update_balance_large, update_balance_overflow,
  update_balance_short, write_too_long, write_unapplied,
}

-- The row that a granted reward writes.
pub record IsGrant (user : ℕ) (delta : ℤ) (ref_type ref_id : String) (b : ℤ) (e : LedgerEntry)
    : Type 0 where
  pub for_user : e.user_id ≡ user
  pub by_delta : e.delta ≡ delta
  pub to_balance : e.balance_after ≡ b +ℤ delta
  pub of_type : e.ref_type ≡ ref_type
  pub of_id : e.ref_id ≡ ref_id

pub data Rewarded (user : ℕ) (delta : ℤ) (reason ref_type ref_id : String) (allow : Bool)
    (s : Books) : Result PointsErr LedgerEntry × Books → Type 0 where
  replay :
      {r : Result PointsErr LedgerEntry × Books} (e : LedgerEntry)
      → get_by_ref user ref_type ref_id s ≡ some e
      → e.delta ≡ delta
      → r ≡ (ok e, ensure_balance user s)
      → Rewarded user delta reason ref_type ref_id allow s r
  conflict :
      {r : Result PointsErr LedgerEntry × Books} (e : LedgerEntry)
      → get_by_ref user ref_type ref_id s ≡ some e
      → e.delta ≢ delta
      → r ≡ (err duplicate_reward, ensure_balance user s)
      → Rewarded user delta reason ref_type ref_id allow s r
  overflow :
      {r : Result PointsErr LedgerEntry × Books} (b : ℤ)
      → find_ref user ref_type ref_id s.ledger ≡ none
      → lookup user (ensure_balance user s).balances ≡ some b
      → (in_int4 delta && in_int4 (b +ℤ delta)) ≡ false
      → r ≡ (err out_of_range, ensure_balance user s)
      → Rewarded user delta reason ref_type ref_id allow s r
  refused :
      {r : Result PointsErr LedgerEntry × Books} (b : ℤ)
      → find_ref user ref_type ref_id s.ledger ≡ none
      → lookup user (ensure_balance user s).balances ≡ some b
      → (in_int4 delta && in_int4 (b +ℤ delta)) ≡ true
      → (allow || leb_ℤ (pos 0) (b +ℤ delta)) ≡ false
      → r ≡ (err insufficient_balance, ensure_balance user s)
      → Rewarded user delta reason ref_type ref_id allow s r
  too_long :
      {r : Result PointsErr LedgerEntry × Books} (b : ℤ)
      → find_ref user ref_type ref_id s.ledger ≡ none
      → lookup user (ensure_balance user s).balances ≡ some b
      → (allow || leb_ℤ (pos 0) (b +ℤ delta)) ≡ true
      → (in_int4 delta && in_int4 (b +ℤ delta)) ≡ true
      → texts_fit reason ref_type ref_id ≡ false
      → r ≡ (err text_too_long, ensure_balance user s)
      → Rewarded user delta reason ref_type ref_id allow s r
  grant :
      {r : Result PointsErr LedgerEntry × Books} (b : ℤ) (e : LedgerEntry)
      → find_ref user ref_type ref_id s.ledger ≡ none
      → lookup user (ensure_balance user s).balances ≡ some b
      → (allow || leb_ℤ (pos 0) (b +ℤ delta)) ≡ true
      → (in_int4 delta && in_int4 (b +ℤ delta)) ≡ true
      → texts_fit reason ref_type ref_id ≡ true
      → e ≡ entry_of user delta (b +ℤ delta) reason ref_type ref_id s
      → r ≡ (ok e, posted e (ensure_balance user s))
      → Rewarded user delta reason ref_type ref_id allow s r

pub entry-IsGrant :
    (user : ℕ) (delta : ℤ) (reason ref_type ref_id : String) (s : Books) (b : ℤ) (e : LedgerEntry)
    → e ≡ entry_of user delta (b +ℤ delta) reason ref_type ref_id s
    → IsGrant user delta ref_type ref_id b e
entry-IsGrant user delta reason ref_type ref_id s b e h = record {
  for_user = ap (λ r. r.user_id) h;
  by_delta = ap (λ r. r.delta) h;
  to_balance = ap (λ r. r.balance_after) h;
  of_type = ap (λ r. r.ref_type) h;
  of_id = ap (λ r. r.ref_id) h;
}

reward-none :
    (user : ℕ) (delta : ℤ) (reason ref_type ref_id : String) (allow : Bool) (s : Books)
    → get_by_ref user ref_type ref_id s ≡ none
    → reward user delta reason ref_type ref_id allow s
      ≡ granted user delta reason ref_type ref_id allow (ensure_balance user s)
unfolding reward
reward-none user delta reason ref_type ref_id allow s e =
    ground (arith, get_by_ref-ensure_balance user user ref_type ref_id s)

pub reward-some :
    (user : ℕ) (delta : ℤ) (reason ref_type ref_id : String) (allow : Bool) (s : Books)
    (e : LedgerEntry)
    → get_by_ref user ref_type ref_id s ≡ some e
    → reward user delta reason ref_type ref_id allow s ≡ replayed delta e (ensure_balance user s)
unfolding reward
reward-some user delta reason ref_type ref_id allow s e found =
    ground (arith, get_by_ref-ensure_balance user user ref_type ref_id s)

module _ (user : ℕ) (delta : ℤ) (reason ref_type ref_id : String) (allow : Bool) (s : Books) (b : ℤ)
    (fresh : find_ref user ref_type ref_id s.ledger ≡ none)
    (row : lookup user (ensure_balance user s).balances ≡ some b) where
  abbrev now : Books
  now = ensure_balance user s

  fresh_now : find_ref user ref_type ref_id now.ledger ≡ none
  fresh_now = rw (ledger-ensure_balance user s) fresh

  not_applied :
      (e : PointsErr)
      → apply_delta user delta allow now ≡ (err e, now)
      → granted user delta reason ref_type ref_id allow now ≡ (err e, now)
  not_applied e h =
      granted_raises user delta reason ref_type ref_id allow now b fresh_now row e
        (write_unapplied user delta reason ref_type ref_id allow now b fresh_now row e h)

  reward_fitting :
      in_int4 delta ≡ true
      → in_int4 (b +ℤ delta) ≡ true
      → (allow || leb_ℤ (pos 0) (b +ℤ delta)) ≡ true
      → Rewarded user delta reason ref_type ref_id allow s
          (granted user delta reason ref_type ref_id allow now)
  reward_fitting p q room = elim (Bool-cases (texts_fit reason ref_type ref_id)) [
    | inl fit ↦
        grant b (entry_of user delta (b +ℤ delta) reason ref_type ref_id now) fresh row room
          (rw (p, q) refl) fit (rw (now-ensure_balance user s) refl)
          (granted_posts user delta reason ref_type ref_id allow now b fresh_now row p q room fit)
    | inr long ↦ too_long b fresh row room (rw (p, q) refl) long (
        granted_raises user delta reason ref_type ref_id allow now b fresh_now row text_too_long (
          write_too_long user delta reason ref_type ref_id allow now b fresh_now row p q room long))
  ]

  reward_fresh :
      Rewarded user delta reason ref_type ref_id allow s
        (granted user delta reason ref_type ref_id allow now)
  unfolding apply_delta
  reward_fresh = elim (Bool-cases (in_int4 delta)) [
    | inl p ↦ elim (Bool-cases (in_int4 (b +ℤ delta))) [
      | inl q ↦ elim (Bool-cases (allow || leb_ℤ (pos 0) (b +ℤ delta))) [
        | inl room ↦ reward_fitting p q room
        | inr short ↦ refused b fresh row (rw (p, q) refl) short (
            not_applied insufficient_balance
              (ground (arith, update_balance_short user delta allow now b row p q short)))
      ]
      | inr q ↦ overflow b fresh row (rw (p, q) refl) (
          not_applied out_of_range
            (ground (arith, update_balance_overflow user delta allow now b row q)))
    ]
    | inr p ↦
        overflow b fresh row (rw p refl)
          (not_applied out_of_range (ground (arith, update_balance_large user delta allow now p)))
  ]

-- A call of `reward` ends in one of six ways, of which no two have the same conditions, each with its
-- exact result and state: the row of an earlier call with the same reference is handed back, one
-- with another amount is a conflict, a value that fits no Integer column is refused, so is an amount
-- that the balance does not cover, and a text that is longer than its column, or the new balance and
-- the new row, with its reason and the time of the call, are written.
pub reward-Rewarded :
    (user : ℕ) (delta : ℤ) (reason ref_type ref_id : String) (allow : Bool) (s : Books)
    → Rewarded user delta reason ref_type ref_id allow s
        (reward user delta reason ref_type ref_id allow s)
unfolding replayed
reward-Rewarded user delta reason ref_type ref_id allow s =
    elim (Option-cases (get_by_ref user ref_type ref_id s)) [
      | inl fresh ↦
          let (b, row) = row-ensure_balance user s in
          let unused = find_ref-none user ref_type ref_id s fresh in
          rw (reward-none user delta reason ref_type ref_id allow s fresh)
            (reward_fresh user delta reason ref_type ref_id allow s b unused row)
      | inr (e, found) ↦
          rw (reward-some user delta reason ref_type ref_id allow s e found)
            (elim (Bool-cases (e.delta == delta)) [
              | inl same ↦ replay e found ((eqb_ℤ_iff e.delta delta).0 same) (rw same)
              | inr other ↦ conflict e found (λ p. cc ((eqb_ℤ_iff e.delta delta).1 p)) (rw other)
            ])
    ]
