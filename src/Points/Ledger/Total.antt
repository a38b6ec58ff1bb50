-- ===== src/Points/Ledger/Total.antt =====
-- The sum of all balances, and what one reward or one spending does to it and to the references
-- in the ledger (app/modules/points/service.py).
use lkm_service.Prelude.Exec.{Result, ok}
use lkm_service.Points.Ledger.Outcome.{
  replay, conflict, overflow, refused, too_long, grant, entry-IsGrant, IsGrant, reward-Rewarded,
  Rewarded,
}
use lkm_service.Points.Ledger.Rows.{get_by_ref-none, ledger-ensure_balance}
use lkm_service.Points.Ledger.Granted.{posted}
use lkm_service.Points.Ledger.Invariant.{or_zero}
use lkm_service.Points.{Books, LedgerEntry, PointsErr}
use lkm_service.Prelude.Int.{ℤ, pos, ◌+ℤ◌, int_laws, -ℤ◌, leb_ℤ}
use lkm_service.Prelude.Dict.{insert, Dict, lookup}
use lkm_service.Points.Ledger.{ensure_balance, find_ref, spend, reward, -ℤ◌}
use lkm_service.Prelude.{
  refl, some, arith, text_key, [], ◌∙◌, String, none, nat_key, ap, false, Bool, ◌∷◌, inr,
  Option-cases, List, Bool-cases, ◌≡◌, ◌==◌, ◌&&◌, ℕ, inl,
}

pub total : Dict ℕ ℤ → ℤ
total [] = pos 0
total ((_, b) ∷ d) = b +ℤ total d

pub total-insert :
    (u : ℕ) (v : ℤ) (d : Dict ℕ ℤ) → total (insert u v d) +ℤ or_zero (lookup u d) ≡ total d +ℤ v
unfolding total insert lookup
total-insert u v [] = grind int_laws
total-insert u v ((j, w) ∷ d) = elim (Bool-cases (j == u)) [
  | inl f ↦ rw f (grind int_laws)
  | inr f ↦ rw f (grind (int_laws, total-insert u v d))
]

total-ensure_balance :
    (user : ℕ) (s : Books) → total (ensure_balance user s).balances ≡ total s.balances
unfolding ensure_balance
total-ensure_balance user s = elim (Option-cases (lookup user s.balances)) [
  | inl e ↦
      let sum = total-insert user (pos 0) s.balances in
      rw (e, ensure_balance) (grind (int_laws, rw e at sum))
  | inr (b, e) ↦ rw (e, ensure_balance) refl
]

-- What a call has done that returned after it wrote a new row.
pub record Posts (delta : ℤ) (ref_type ref_id : String) (s t : Books) : Type 0 where
  pub moved : total t.balances ≡ total s.balances +ℤ delta
  pub others :
      (u : ℕ) (r i : String)
      → (ref_type == r && ref_id == i) ≡ false
      → find_ref u r i t.ledger ≡ find_ref u r i s.ledger

find_ref_other :
    (e : LedgerEntry) (l : List LedgerEntry) (u : ℕ) (r i : String)
    → (e.ref_type == r && e.ref_id == i) ≡ false
    → find_ref u r i (e ∷ l) ≡ find_ref u r i l
unfolding find_ref
find_ref_other e l u r i h = ground (arith, h)

module _ (user : ℕ) (delta : ℤ) (ref_type ref_id : String) (s : Books) where
  grant-Posts :
      (b : ℤ) (e : LedgerEntry)
      → lookup user (ensure_balance user s).balances ≡ some b
      → IsGrant user delta ref_type ref_id b e
      → Posts delta ref_type ref_id s (posted e (ensure_balance user s))
  grant-Posts b e row g =
      let t = ensure_balance user s in
      let sum = total-insert e.user_id e.balance_after t.balances in
      let old : lookup e.user_id t.balances ≡ some b = rw g.for_user row in
      record {
        moved = grind (int_laws, rw old at sum, g.to_balance, total-ensure_balance user s);
        others = λ u r i ne.
            find_ref_other e t.ledger u r i (rw (g.of_type, g.of_id) ne)
            ∙ ap (find_ref u r i) (ledger-ensure_balance user s);
      }

  Rewarded-Posts :
      (reason : String) (allow : Bool) (e : LedgerEntry) (t : Books)
      (r : Result PointsErr LedgerEntry × Books)
      → Rewarded user delta reason ref_type ref_id allow s r
      → find_ref user ref_type ref_id s.ledger ≡ none
      → r ≡ (ok e, t)
      → Posts delta ref_type ref_id s t
  Rewarded-Posts reason allow e t r (replay e' found same eq) unused h =
      absurd (cc (found, get_by_ref-none user ref_type ref_id s unused))
  Rewarded-Posts reason allow e t r (conflict e' found other eq) unused h =
      absurd (cc (found, get_by_ref-none user ref_type ref_id s unused))
  Rewarded-Posts reason allow e t r (overflow b fresh row p eq) unused h = absurd (cc (eq, h))
  Rewarded-Posts reason allow e t r (refused b fresh row p short eq) unused h = absurd (cc (eq, h))
  Rewarded-Posts reason allow e t r (too_long b fresh row room p long eq) unused h =
      absurd (cc (eq, h))
  Rewarded-Posts reason allow e t r (grant b e' fresh row room p fit it eq) unused h =
      let at : t ≡ posted e' (ensure_balance user s) = cc (eq, h) in
      rw at (grant-Posts b e' row (entry-IsGrant user delta reason ref_type ref_id s b e' it))

  -- A reward under an unused reference that returns adds its amount to the sum of all balances,
  -- and leaves every other reference as it was.
  pub reward-Posts :
      (reason : String) (allow : Bool) (e : LedgerEntry) (t : Books)
      → find_ref user ref_type ref_id s.ledger ≡ none
      → reward user delta reason ref_type ref_id allow s ≡ (ok e, t)
      → Posts delta ref_type ref_id s t
  reward-Posts reason allow e t unused h =
      Rewarded-Posts reason allow e t (reward user delta reason ref_type ref_id allow s)
        (reward-Rewarded user delta reason ref_type ref_id allow s) unused h

pub spend-Posts :
    (user : ℕ) (amount : ℤ) (reason ref_type ref_id : String) (s : Books) (e : LedgerEntry)
    (t : Books)
    → find_ref user ref_type ref_id s.ledger ≡ none
    → spend user amount reason ref_type ref_id s ≡ (ok e, t)
    → Posts (-ℤ◌ amount) ref_type ref_id s t
unfolding spend
spend-Posts user amount reason ref_type ref_id s e t unused h =
    elim (Bool-cases (leb_ℤ amount (pos 0))) [
      | inl p ↦ absurd (cc (rw p at h))
      | inr p ↦ reward-Posts user (-ℤ◌ amount) ref_type ref_id s reason false e t unused (rw p at h)
    ]
