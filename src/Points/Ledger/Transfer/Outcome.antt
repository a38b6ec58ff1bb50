-- ===== src/Points/Ledger/Transfer/Outcome.antt =====
-- What a fresh transfer does on its branches (app/modules/points/service.py).
use lkm_service.Prelude.{
  ℕ, String, ◌≡◌, refl, ◌≢◌, Bool, true, false, ◌||◌, none, some, ◌∷◌, any, nat_key, arith, inl,
  inr, Bool-cases, Option-cases, nat_eqb_iff,
}
use lkm_service.Prelude.Int.{ℤ, pos, -ℤ◌, ◌+ℤ◌, leb_ℤ}
use lkm_service.Prelude.Dict.{lookup, insert, lookup-insert}
use lkm_service.Prelude.Exec.{Result, ok, err}
use lkm_service.Points.{
  PointsErr, insufficient_balance, out_of_range, unique_violation, LedgerEntry, Books,
  text_too_long,
}
use lkm_service.Points.Ledger.{
  in_int4, update_balance, apply_delta, collides, bump_version, entry_of, texts_fit,
}
use lkm_service.Points.Ledger.Outcome.{IsGrant}
use lkm_service.Points.Ledger.Granted.{
  post, update_balance_row, update_balance_short, update_balance_overflow, update_balance_large,
}
use lkm_service.Points.Ledger.Transfer.{add_row, moved}

-- `apply_delta` writes the new balance and returns it, or raises and writes nothing.
pub data Applied (user : ℕ) (delta : ℤ) (allow : Bool) (s : Books) (r : Result PointsErr ℤ × Books)
    : Type 0 where
  applied :
      (b : ℤ)
      → lookup user s.balances ≡ some b
      → (allow || leb_ℤ (pos 0) (b +ℤ delta)) ≡ true
      → in_int4 (b +ℤ delta) ≡ true
      → r ≡ (ok (b +ℤ delta), record s { balances = insert user (b +ℤ delta) s.balances })
      → Applied user delta allow s r
  unapplied : (e : PointsErr) → r ≡ (err e, s) → Applied user delta allow s r

update_balance_absent :
    (user : ℕ) (delta : ℤ) (allow : Bool) (s : Books)
    → lookup user s.balances ≡ none
    → in_int4 delta ≡ true
    → update_balance user delta allow s ≡ (ok none, s)
unfolding update_balance
update_balance_absent user delta allow s row p = rw (row, p)

module _ (user : ℕ) (delta : ℤ) (allow : Bool) (s : Books) where
  apply_delta-Applied_row :
      (b : ℤ)
      → lookup user s.balances ≡ some b
      → in_int4 delta ≡ true
      → Applied user delta allow s (apply_delta user delta allow s)
  unfolding apply_delta
  apply_delta-Applied_row b row p = elim (Bool-cases (in_int4 (b +ℤ delta))) [
    | inl q ↦ elim (Bool-cases (allow || leb_ℤ (pos 0) (b +ℤ delta))) [
      | inl room ↦
          applied b row room q
            (ground (arith, update_balance_row user delta allow s b row p q room))
      | inr short ↦
          unapplied insufficient_balance
            (ground (arith, update_balance_short user delta allow s b row p q short))
    ]
    | inr q ↦
        unapplied out_of_range (ground (arith, update_balance_overflow user delta allow s b row q))
  ]

  pub apply_delta-Applied : Applied user delta allow s (apply_delta user delta allow s)
  unfolding apply_delta
  apply_delta-Applied = elim (Bool-cases (in_int4 delta)) [
    | inl p ↦ elim (Option-cases (lookup user s.balances)) [
      | inl row ↦
          unapplied insufficient_balance
            (ground (arith, update_balance_absent user delta allow s row p))
      | inr (b, row) ↦ apply_delta-Applied_row b row p
    ]
    | inr p ↦ unapplied out_of_range (ground (arith, update_balance_large user delta allow s p))
  ]

pub data Moved (sender receiver : ℕ) (amount : ℤ) (ref_type ref_id : String) (s : Books)
    (r : Result PointsErr (LedgerEntry × LedgerEntry) × Books) : Type 0 where
  done :
      (b c : ℤ) (out in_row : LedgerEntry)
      → lookup sender s.balances ≡ some b
      → lookup receiver s.balances ≡ some c
      → leb_ℤ (pos 0) (b +ℤ -ℤ◌ amount) ≡ true
      → in_int4 (b +ℤ -ℤ◌ amount) ≡ true
      → in_int4 (c +ℤ amount) ≡ true
      → IsGrant sender (-ℤ◌ amount) ref_type ref_id b out
      → IsGrant receiver amount ref_type ref_id c in_row
      → r ≡ (ok (out, in_row), bump_version (post in_row (post out s)))
      → Moved sender receiver amount ref_type ref_id s r
  failed : (e : PointsErr) → r.0 ≡ err e → Moved sender receiver amount ref_type ref_id s r

module _ (sender receiver : ℕ) (amount : ℤ) (ref_type ref_id : String) (s : Books)
    (apart : sender ≢ receiver) where
  moved_second :
      (b : ℤ)
      → lookup sender s.balances ≡ some b
      → leb_ℤ (pos 0) (b +ℤ -ℤ◌ amount) ≡ true
      → in_int4 (b +ℤ -ℤ◌ amount) ≡ true
      → apply_delta sender (-ℤ◌ amount) false s
        ≡ (ok (b +ℤ -ℤ◌ amount), record s { balances = insert sender (b +ℤ -ℤ◌ amount) s.balances })
      → Moved sender receiver amount ref_type ref_id s
          (moved sender receiver amount ref_type ref_id s)
  unfolding moved add_row
  moved_second b row room fit eq =
      let s1 : Books = record s { balances = insert sender (b +ℤ -ℤ◌ amount) s.balances } in
      elim (apply_delta-Applied receiver amount true s1) [
        | applied c row' _ fit' eq' ↦
            let out =
              entry_of sender (-ℤ◌ amount) (b +ℤ -ℤ◌ amount) "transfer_out" ref_type ref_id s in
            let in_row = entry_of receiver amount (c +ℤ amount) "transfer_in" ref_type ref_id s in
            elim (Bool-cases (texts_fit "transfer_out" ref_type ref_id)) [
              | inr long ↦ failed text_too_long (ground arith)
              | inl short ↦ elim (Bool-cases (texts_fit "transfer_in" ref_type ref_id)) [
                | inr long ↦ elim (Bool-cases (any (collides out) s.ledger)) [
                  | inl taken ↦ failed unique_violation (ground arith)
                  | inr free ↦ failed text_too_long (ground arith)
                ]
                | inl short2 ↦ elim (Bool-cases (any (collides out) s.ledger)) [
                  | inl taken ↦ failed unique_violation (ground arith)
                  | inr free ↦ elim (Bool-cases (any (collides in_row) (out ∷ s.ledger))) [
                    | inl taken ↦ failed unique_violation (ground arith)
                    | inr free' ↦
                        done b c out in_row row
                          (ground (
                            arith,
                            lookup-insert sender receiver (b +ℤ -ℤ◌ amount) s.balances,
                            nat_eqb_iff sender receiver,
                          ))
                          room fit fit'
                          (record {
                            for_user = refl;
                            by_delta = refl;
                            to_balance = refl;
                            of_type = refl;
                            of_id = refl;
                          })
                          (record {
                            for_user = refl;
                            by_delta = refl;
                            to_balance = refl;
                            of_type = refl;
                            of_id = refl;
                          })
                          (ground arith)
                  ]
                ]
              ]
            ]
        | unapplied e eq' ↦ failed e (ground arith)
      ]

  -- A transfer between two users with no row of the sender's moves the amount, or raises.
  pub moved-Moved :
      Moved sender receiver amount ref_type ref_id s
        (moved sender receiver amount ref_type ref_id s)
  unfolding moved
  moved-Moved = elim (apply_delta-Applied sender (-ℤ◌ amount) false s) [
    | applied b row room fit eq ↦ moved_second b row room fit eq
    | unapplied e eq ↦ failed e (ground arith)
  ]
