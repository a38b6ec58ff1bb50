-- ===== src/Points/Ledger/Invariant.antt =====
-- The invariant of the books: the ledger accounts for every balance. (`posted` and the calls of
-- app/modules/points/service.py that go through it.)
use lkm_service.Prelude.{
  ℕ, String, ◌≡◌, Bool, true, ◌&&◌, Option, none, some, List, [], ◌∷◌, ◌==◌, nat_key, text_key,
  arith, if◌then◌else◌, nat_eqb_iff,
}
use lkm_service.Prelude.Int.{ℤ, pos, ◌+ℤ◌, int_laws}
use lkm_service.Prelude.Dict.{lookup, lookup-insert, lookup-remove}
use lkm_service.Prelude.Exec.{Result}
use lkm_service.Points.{PointsErr, LedgerEntry, Books}
use lkm_service.Points.Ledger.{bump_version, reward, in_int4, ensure_balance, find_ref}
use lkm_service.Points.Ledger.Rows.{ledger-ensure_balance, cached-ensure_balance}
use lkm_service.Points.Ledger.Granted.{post}
use lkm_service.Points.Ledger.Outcome.{
  IsGrant, Rewarded, replay, conflict, overflow, too_long, entry-IsGrant, refused, too_long, grant,
  entry-IsGrant, reward-Rewarded,
}

-- A missing row counts as a balance of 0.
abbrev pub or_zero : Option ℤ → ℤ
or_zero none = pos 0
or_zero (some b) = b

abbrev pub balance_of : ℕ → Books → ℤ
balance_of user s = or_zero (lookup user s.balances)

abbrev pub sum_deltas : ℕ → List LedgerEntry → ℤ
sum_deltas user [] = pos 0
sum_deltas user (e ∷ l) =
    if e.user_id == user then e.delta +ℤ sum_deltas user l else sum_deltas user l

-- Every row carries the sum of its user's rows up to and with itself.
abbrev pub IsChained : List LedgerEntry → Type 0
IsChained [] = Unit
IsChained (e ∷ l) = (e.balance_after ≡ e.delta +ℤ sum_deltas e.user_id l) × IsChained l

-- No two rows carry the same reference of the same user.
abbrev pub HasUniqueRefs : List LedgerEntry → Type 0
HasUniqueRefs [] = Unit
HasUniqueRefs (e ∷ l) = (find_ref e.user_id e.ref_type e.ref_id l ≡ none) × HasUniqueRefs l

pub record IsValid (s : Books) : Type 0 where
  pub balanced : (u : ℕ) → balance_of u s ≡ sum_deltas u s.ledger
  pub chained : IsChained s.ledger
  pub coherent : (u : ℕ) (b : ℤ) → lookup u s.cached ≡ some b → balance_of u s ≡ b
  pub fits : (u : ℕ) → in_int4 (balance_of u s) ≡ true

pub balance_of-ensure_balance :
    (user u : ℕ) (s : Books) → balance_of u (ensure_balance user s) ≡ balance_of u s
unfolding ensure_balance
balance_of-ensure_balance user u s =
    ground (arith, lookup-insert user u (pos 0) s.balances, nat_eqb_iff user u)

pub ensure_balance-IsValid : (user : ℕ) (s : Books) → IsValid s → IsValid (ensure_balance user s)
ensure_balance-IsValid user s v = record {
  balanced = λ u.
      rw (balance_of-ensure_balance user u s) (rw (ledger-ensure_balance user s) (v.balanced u));
  chained = rw (ledger-ensure_balance user s) v.chained;
  coherent = λ u b h.
      rw (balance_of-ensure_balance user u s)
        (v.coherent u b (rw (cached-ensure_balance user s) at h));
  fits = λ u. rw (balance_of-ensure_balance user u s) (v.fits u);
}

module _ (s : Books) (user : ℕ) (delta : ℤ) (ref_type ref_id : String) (b : ℤ) (e : LedgerEntry)
    (row : lookup user s.balances ≡ some b) (g : IsGrant user delta ref_type ref_id b e) where
  pub balance_of-post :
      (u : ℕ) → balance_of u (post e s) ≡ (if user == u then b +ℤ delta else balance_of u s)
  balance_of-post u = ground (arith, lookup-insert e.user_id u e.balance_after s.balances)

  pub post-IsValid : in_int4 (b +ℤ delta) ≡ true → IsValid s → IsValid (post e s)
  post-IsValid room v = record {
    balanced = λ u. rw (balance_of-post u) (grind (int_laws, v.balanced u, v.balanced user));
    chained = (grind (int_laws, v.balanced user), v.chained);
    coherent = λ u c h.
        grind (arith, balance_of-post u, v.coherent u c, lookup-remove e.user_id u s.cached);
    fits = λ u. rw (balance_of-post u) (ground (arith, v.fits u));
  }

pub bump_version-IsValid : (s : Books) → IsValid s → IsValid (bump_version s)
bump_version-IsValid s v = record {
  balanced = v.balanced;
  chained = v.chained;
  coherent = v.coherent;
  fits = v.fits;
}

both_fit : (delta b : ℤ) → (in_int4 delta && in_int4 b) ≡ true → in_int4 b ≡ true
both_fit delta b h = ground arith

Rewarded-IsValid :
    (user : ℕ) (delta : ℤ) (reason ref_type ref_id : String) (allow : Bool) (s : Books)
    (r : Result PointsErr LedgerEntry × Books)
    → IsValid s
    → Rewarded user delta reason ref_type ref_id allow s r
    → IsValid r.1
Rewarded-IsValid user delta reason ref_type ref_id allow s r v (replay e found same eq) =
    rw eq (ensure_balance-IsValid user s v)
Rewarded-IsValid user delta reason ref_type ref_id allow s r v (conflict e found other eq) =
    rw eq (ensure_balance-IsValid user s v)
Rewarded-IsValid user delta reason ref_type ref_id allow s r v (overflow b fresh row p eq) =
    rw eq (ensure_balance-IsValid user s v)
Rewarded-IsValid user delta reason ref_type ref_id allow s r v (refused b fresh row p short eq) =
    rw eq (ensure_balance-IsValid user s v)
Rewarded-IsValid user delta reason ref_type ref_id allow s r v
      (too_long b fresh row room p long eq) =
    rw eq (ensure_balance-IsValid user s v)
Rewarded-IsValid user delta reason ref_type ref_id allow s r v
      (grant b e fresh row room p fit it eq) =
    let t = ensure_balance user s in
    let g = entry-IsGrant user delta reason ref_type ref_id s b e it in
    rw eq (
      bump_version-IsValid (post e t) (
        post-IsValid t user delta ref_type ref_id b e row g (both_fit delta (b +ℤ delta) p)
          (ensure_balance-IsValid user s v)))

-- After any call of `reward`, whether it returns or raises: each balance is the sum of the
-- user's ledger rows, each row carries the running sum as its balance_after, no cached balance
-- is stale, and every balance fits its column.
pub reward-IsValid :
    (user : ℕ) (delta : ℤ) (reason ref_type ref_id : String) (allow : Bool) (s : Books)
    → IsValid s
    → IsValid (reward user delta reason ref_type ref_id allow s).1
reward-IsValid user delta reason ref_type ref_id allow s v =
    Rewarded-IsValid user delta reason ref_type ref_id allow s
      (reward user delta reason ref_type ref_id allow s) v
      (reward-Rewarded user delta reason ref_type ref_id allow s)
