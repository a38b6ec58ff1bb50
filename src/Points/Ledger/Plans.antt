-- ===== src/Points/Ledger/Plans.antt =====
-- Which row a query without an order returns when several fit (`get_by_ref` of
-- app/modules/points/repository.py): the database may choose another one at a later call.
use lkm_service.Prelude.{
  ℕ, ◌≤◌, ◌≡◌, refl, ◌∙◌, ◌⊎◌, inl, inr, some, List, [], ◌∷◌, String, arith, nat_key, text_key,
  length,
}
use lkm_service.Points.{LedgerEntry, Books}
use lkm_service.Points.Ledger.{ensure_balance, get_by_ref, pick, pick_from, rows_of}

-- The books at a later call, when the database may choose by another plan.
abbrev pub at_plan : ℕ → Books → Books
at_plan later s = record s { plan = later }

-- The choice is as before, or there is at most one row to choose.
abbrev pub IsSteady : ℕ → ℕ → String → String → Books → Type 0
IsSteady later user ref_type ref_id s =
    (later ≡ s.plan) ⊎ (length (rows_of user ref_type ref_id s.ledger) ≤ 1)

pick-steady : (m n : ℕ) (l : List LedgerEntry) → (m ≡ n) ⊎ (length l ≤ 1) → pick m l ≡ pick n l
unfolding pick pick_from
pick-steady m n l (inl e) = rw e refl
pick-steady m n [] (inr h) = refl
pick-steady m n (e ∷ []) (inr h) = refl
pick-steady m n (e ∷ r ∷ l) (inr h) = absurd (omega (arith, h))

get_by_ref-at_plan :
    (later user : ℕ) (ref_type ref_id : String) (s : Books)
    → IsSteady later user ref_type ref_id s
    → get_by_ref user ref_type ref_id (at_plan later s) ≡ get_by_ref user ref_type ref_id s
unfolding get_by_ref
get_by_ref-at_plan later user ref_type ref_id s h =
    pick-steady later s.plan (rows_of user ref_type ref_id s.ledger) h

pub ensure_balance-at_plan :
    (later user : ℕ) (s : Books)
    → ensure_balance user (at_plan later s) ≡ at_plan later (ensure_balance user s)
unfolding ensure_balance
ensure_balance-at_plan later user s = ground arith

-- The row that was found is found again at a later call.
pub get_by_ref-again :
    (later user : ℕ) (ref_type ref_id : String) (s : Books) (e : LedgerEntry)
    → IsSteady later user ref_type ref_id s
    → get_by_ref user ref_type ref_id s ≡ some e
    → get_by_ref user ref_type ref_id (at_plan later s) ≡ some e
get_by_ref-again later user ref_type ref_id s e steady h =
    get_by_ref-at_plan later user ref_type ref_id s steady ∙ h
