-- ===== src/Points/Ledger/Granted.antt =====
-- What `reward` does with a reference that no row carries: the update of the balance, the insert and
-- the row read back (app/modules/points/service.py).
use lkm_service.Prelude.{
  true, eqb_self, arith, none, String, inr, ◌∷◌, Bool, refl, Bool-cases, ◌≡◌, ◌||◌, some, false, ℕ,
  nat_key, text_key, ◌==◌, inl, ap, ◌∙◌,
}
use lkm_service.Prelude.Int.{int_key, ℤ, pos, ◌+ℤ◌, leb_ℤ}
use lkm_service.Prelude.Dict.{lookup, insert, remove}
use lkm_service.Prelude.Exec.{ok, err, bind-ok, bind-err, modify, ◌>>◌, pure}
use lkm_service.Points.{PointsErr, out_of_range, LedgerEntry, Books, text_too_long}
use lkm_service.Points.Ledger.{
  in_int4, update_balance, apply_delta, find_ref, get_by_ref, bump_version, upsert_entry, entry_of,
  confirmed, granted, write_entry, texts_fit, written, read_back, invalidate_balance,
}
use lkm_service.Points.Ledger.Rows.{any-collides, get_by_ref-single, rows_of_self}

-- The books after a new row, with the balance that it records and the cached balance gone.
abbrev pub post : LedgerEntry → Books → Books
post e s = record s {
  balances = insert e.user_id e.balance_after s.balances;
  ledger = e ∷ s.ledger;
  cached = remove e.user_id s.cached;
}

abbrev pub posted : LedgerEntry → Books → Books
posted e s = bump_version (post e s)

pub update_balance_row :
    (user : ℕ) (delta : ℤ) (allow : Bool) (s : Books) (b : ℤ)
    → lookup user s.balances ≡ some b
    → in_int4 delta ≡ true
    → in_int4 (b +ℤ delta) ≡ true
    → (allow || leb_ℤ (pos 0) (b +ℤ delta)) ≡ true
    → update_balance user delta allow s
      ≡ (ok (some (b +ℤ delta)), record s { balances = insert user (b +ℤ delta) s.balances })
unfolding update_balance
update_balance_row user delta allow s b row p q room = rw (row, p) (rw (q, room))

pub update_balance_short :
    (user : ℕ) (delta : ℤ) (allow : Bool) (s : Books) (b : ℤ)
    → lookup user s.balances ≡ some b
    → in_int4 delta ≡ true
    → in_int4 (b +ℤ delta) ≡ true
    → (allow || leb_ℤ (pos 0) (b +ℤ delta)) ≡ false
    → update_balance user delta allow s ≡ (ok none, s)
unfolding update_balance
update_balance_short user delta allow s b row p q short = rw (row, p) (rw (q, short))

pub update_balance_overflow :
    (user : ℕ) (delta : ℤ) (allow : Bool) (s : Books) (b : ℤ)
    → lookup user s.balances ≡ some b
    → in_int4 (b +ℤ delta) ≡ false
    → update_balance user delta allow s ≡ (err out_of_range, s)
unfolding update_balance
update_balance_overflow user delta allow s b row q = elim (Bool-cases (in_int4 delta)) [
  | inl p ↦ rw (row, p) (rw q)
  | inr p ↦ rw p
]

pub update_balance_large :
    (user : ℕ) (delta : ℤ) (allow : Bool) (s : Books)
    → in_int4 delta ≡ false
    → update_balance user delta allow s ≡ (err out_of_range, s)
unfolding update_balance
update_balance_large user delta allow s p = rw p

module _ (user : ℕ) (delta : ℤ) (reason ref_type ref_id : String) (allow : Bool) (s : Books) (b : ℤ)
    (fresh : find_ref user ref_type ref_id s.ledger ≡ none)
    (row : lookup user s.balances ≡ some b) where
  pub granted_raises :
      (e : PointsErr)
      → write_entry user delta reason ref_type ref_id allow s ≡ (err e, s)
      → granted user delta reason ref_type ref_id allow s ≡ (err e, s)
  unfolding granted
  granted_raises e h =
      bind-err (write_entry user delta reason ref_type ref_id allow)
        (λ _. read_back user delta ref_type ref_id) s s e h

  read_back_found :
      (e : LedgerEntry) (t : Books)
      → get_by_ref user ref_type ref_id t ≡ some e
      → (e.delta == delta) ≡ true
      → read_back user delta ref_type ref_id t ≡ (ok e, invalidate_balance user (bump_version t))
  unfolding read_back confirmed
  read_back_found e t there own =
      let same : confirmed delta (some e) t ≡ (ok e, t) = rw own refl in
      bind-ok (confirmed delta (get_by_ref user ref_type ref_id t))
        (λ entry. modify bump_version >> (modify (invalidate_balance user) >> pure entry)) t t e
        (ap (λ found. confirmed delta found t) there ∙ same)

  pub write_unapplied :
      (e : PointsErr)
      → apply_delta user delta allow s ≡ (err e, s)
      → write_entry user delta reason ref_type ref_id allow s ≡ (err e, s)
  unfolding write_entry
  write_unapplied e h = ap (written user delta reason ref_type ref_id s) h

  module _ (p : in_int4 delta ≡ true) (q : in_int4 (b +ℤ delta) ≡ true)
      (room : (allow || leb_ℤ (pos 0) (b +ℤ delta)) ≡ true) where
    applies :
        apply_delta user delta allow s
        ≡ (ok (b +ℤ delta), record s { balances = insert user (b +ℤ delta) s.balances })
    unfolding apply_delta
    applies = ground (arith, update_balance_row user delta allow s b row p q room)

    pub write_too_long :
        texts_fit reason ref_type ref_id ≡ false
        → write_entry user delta reason ref_type ref_id allow s ≡ (err text_too_long, s)
    unfolding write_entry
    write_too_long long = ap (written user delta reason ref_type ref_id s) applies ∙ rw long refl

    write_fitting :
        texts_fit reason ref_type ref_id ≡ true
        → let e = entry_of user delta (b +ℤ delta) reason ref_type ref_id s in
          write_entry user delta reason ref_type ref_id allow s ≡ (
            ok tt,
            record s { balances = insert user (b +ℤ delta) s.balances; ledger = e ∷ s.ledger },
          )
    unfolding write_entry upsert_entry
    write_fitting fit =
        let e = entry_of user delta (b +ℤ delta) reason ref_type ref_id s in
        ap (written user delta reason ref_type ref_id s) applies
        ∙ rw fit (rw (any-collides e s.ledger fresh) refl)

    pub granted_posts :
        texts_fit reason ref_type ref_id ≡ true
        → let e = entry_of user delta (b +ℤ delta) reason ref_type ref_id s in
          granted user delta reason ref_type ref_id allow s ≡ (ok e, posted e s)
    unfolding granted
    granted_posts fit =
        let e = entry_of user delta (b +ℤ delta) reason ref_type ref_id s in
        let t : Books = record s {
          balances = insert user (b +ℤ delta) s.balances;
          ledger = e ∷ s.ledger;
        } in
        let there : get_by_ref user ref_type ref_id t ≡ some e =
          get_by_ref-single user ref_type ref_id t e (rows_of_self e s.ledger fresh) in
        let own : (delta == delta) ≡ true = eqb_self delta in
        bind-ok (write_entry user delta reason ref_type ref_id allow)
          (λ _. read_back user delta ref_type ref_id) s t tt (write_fitting fit)
        ∙ read_back_found e t there own
