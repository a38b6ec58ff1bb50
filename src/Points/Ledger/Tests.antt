-- ===== src/Points/Ledger/Tests.antt =====
-- The books at concrete inputs: a run of the ledger, and each law at an input that meets it.
use lkm_service.Points.Ledger.Unique.{reward-HasUniqueRefs}
use lkm_service.Prelude.{inr, ◌≡◌, refl, true, false, [], ◌∷◌, arith, nat_key}
use lkm_service.Prelude.Int.{pos, negsuc, ◌+ℤ◌, -ℤ◌}
use lkm_service.Prelude.Dict.{lookup, insert, remove}
use lkm_service.Prelude.Exec.{ok, err, atomic}
use lkm_service.Points.{insufficient_balance, LedgerEntry, Books}
use lkm_service.Points.Ledger.{
  in_int4, ensure_balance, update_balance, apply_delta, get_by_ref, pick, pick_from, write_entry,
  read_back, upsert_entry, confirmed, granted, reward, spend,
}
use lkm_service.Points.Ledger.Outcome.{Rewarded, reward-Rewarded}
use lkm_service.Points.Ledger.Invariant.{IsValid, balance_of, reward-IsValid, HasUniqueRefs}
use lkm_service.Points.Ledger.Plans.{at_plan}
use lkm_service.Points.Ledger.Replay.{reward-reward, IsCovered, spend-IsCovered}
use lkm_service.Points.Ledger.Transfer.{add_row, moved, transfer}
use lkm_service.Points.Ledger.Transfer.Laws.{transfer-IsValid}
use lkm_service.Points.Ledger.Transfer.Moves.{transfer_moves}
use lkm_service.Points.Ledger.Transfer.Replay.{transfer-transfer}

abbrev empty : Books
empty = record { balances = []; ledger = []; now = 5; version = 0; cached = []; plan = 0 }

abbrev prize : LedgerEntry
prize = record {
  user_id = 7;
  delta = pos 10;
  balance_after = pos 10;
  reason = "post";
  ref_type = "post";
  ref_id = "p1";
  created_at = 5;
}

-- After a first reward of 10 for user 7.
abbrev paid : Books
paid = record {
  balances = (7, pos 10) ∷ [];
  ledger = prize ∷ [];
  now = 5;
  version = 1;
  cached = [];
  plan = 0;
}

reward_run : reward 7 (pos 10) "post" "post" "p1" false empty ≡ (ok prize, paid)
unfolding reward ensure_balance granted write_entry read_back apply_delta update_balance in_int4
    upsert_entry confirmed get_by_ref pick pick_from ◌+ℤ◌ lookup insert remove
reward_run = refl

spend_refused : (spend 7 (pos 11) "shop" "item" "i1" paid).0 ≡ err insufficient_balance
unfolding spend reward ensure_balance granted write_entry read_back apply_delta update_balance
    in_int4 get_by_ref pick pick_from ◌+ℤ◌ -ℤ◌ lookup
spend_refused = refl

empty-IsValid : IsValid empty
unfolding lookup in_int4
empty-IsValid = record {
  balanced = λ u. refl;
  chained = tt;
  coherent = λ u b h. cc;
  fits = λ u. refl;
}

empty-IsCovered : IsCovered empty
unfolding lookup
empty-IsCovered = record { at = λ u. omega arith }

reward-IsValid_example : IsValid (reward 7 (pos 10) "post" "post" "p1" false empty).1
reward-IsValid_example = reward-IsValid 7 (pos 10) "post" "post" "p1" false empty empty-IsValid

paid-IsValid : IsValid paid
paid-IsValid = rw reward_run at reward-IsValid_example

-- The database may prefer other rows by then.
reward-reward_example :
    reward 7 (pos 10) "again" "post" "p1" true (at_plan 3 paid) ≡ (ok prize, at_plan 3 paid)
reward-reward_example =
    reward-reward 3 7 (pos 10) "post" "post" "p1" false empty paid prize (inr (omega arith)) "again"
      true reward_run

paid-IsCovered : IsCovered paid
unfolding lookup
paid-IsCovered = record { at = λ u. ground arith }

spend-IsCovered_example : IsCovered (spend 7 (pos 4) "shop" "item" "i1" paid).1
spend-IsCovered_example = spend-IsCovered 7 (pos 4) "shop" "item" "i1" paid paid-IsCovered

transfer-IsValid_example : IsValid (atomic (transfer 7 8 (pos 3) "tip" "qa" "q1") paid).1
transfer-IsValid_example = transfer-IsValid 7 8 (pos 3) "tip" "qa" "q1" paid paid-IsValid

abbrev tip_out : LedgerEntry
tip_out = record {
  user_id = 7;
  delta = negsuc 2;
  balance_after = pos 7;
  reason = "transfer_out";
  ref_type = "qa";
  ref_id = "q1";
  created_at = 5;
}

abbrev tip_in : LedgerEntry
tip_in = record {
  user_id = 8;
  delta = pos 3;
  balance_after = pos 3;
  reason = "transfer_in";
  ref_type = "qa";
  ref_id = "q1";
  created_at = 5;
}

abbrev tipped : Books
tipped = record {
  balances = (7, pos 7) ∷ (8, pos 3) ∷ [];
  ledger = tip_in ∷ tip_out ∷ prize ∷ [];
  now = 5;
  version = 2;
  cached = [];
  plan = 0;
}

transfer_run : transfer 7 8 (pos 3) "tip" "qa" "q1" paid ≡ (ok (tip_out, tip_in), tipped)
unfolding transfer moved add_row ensure_balance apply_delta update_balance in_int4 get_by_ref pick
    pick_from ◌+ℤ◌ -ℤ◌ lookup insert remove
transfer_run = refl

transfer_moves_example : balance_of 8 tipped ≡ pos 3
unfolding get_by_ref pick lookup ◌+ℤ◌
transfer_moves_example =
    transfer_moves 7 8 (pos 3) "tip" "qa" "q1" paid tipped tip_out tip_in refl transfer_run 8

transfer-transfer_example :
    transfer 7 8 (pos 3) "retry" "qa" "q1" (at_plan 3 tipped)
    ≡ (ok (tip_out, tip_in), at_plan 3 tipped)
unfolding get_by_ref pick
transfer-transfer_example =
    transfer-transfer 3 7 8 (pos 3) "tip" "retry" "qa" "q1" paid tipped tip_out tip_in (λ _. refl)
      (inr (omega arith)) (inr (omega arith)) transfer_run

reward-Rewarded_example :
    Rewarded 7
      (pos 10)
      "post"
      "post"
      "p1"
      false
      empty
      (reward 7 (pos 10) "post" "post" "p1" false empty)
reward-Rewarded_example = reward-Rewarded 7 (pos 10) "post" "post" "p1" false empty

reward-HasUniqueRefs_example :
    HasUniqueRefs (reward 7 (pos 10) "post" "post" "p1" false empty).1.ledger
reward-HasUniqueRefs_example = reward-HasUniqueRefs 7 (pos 10) "post" "post" "p1" false empty tt
