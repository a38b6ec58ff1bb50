-- ===== src/Points/Ledger/Rows.antt =====
-- The ledger's rows of one reference and the row that is found among them, and what
-- `ensure_balance` leaves alone (app/modules/points/repository.py and service.py).
use lkm_service.Prelude.{
  Option-cases, [], true, eqb_self, arith, none, String, inr, ◌∷◌, refl, Bool-cases, ◌≡◌, some,
  false, ℕ, any, nat_key, text_key, ◌==◌, List, inl, ap,
}
use lkm_service.Prelude.Int.{int_key, ℤ, pos}
use lkm_service.Prelude.Dict.{lookup, lookup-insert}
use lkm_service.Points.{LedgerEntry, Books}
use lkm_service.Points.Ledger.{
  ensure_balance, find_ref, get_by_ref, collides, rows_of, pick, matches_ref, pick_from,
}

-- A reference that no row carries collides with no row.
pub any-collides :
    (e : LedgerEntry) (l : List LedgerEntry)
    → find_ref e.user_id e.ref_type e.ref_id l ≡ none
    → any (collides e) l ≡ false
unfolding find_ref
any-collides e [] h = refl
any-collides e (r ∷ l) h = ground (arith, any-collides e l)

pub now-ensure_balance : (user : ℕ) (s : Books) → (ensure_balance user s).now ≡ s.now
unfolding ensure_balance
now-ensure_balance user s = ground arith

pub cached-ensure_balance : (user : ℕ) (s : Books) → (ensure_balance user s).cached ≡ s.cached
unfolding ensure_balance
cached-ensure_balance user s = ground arith

pub ledger-ensure_balance : (user : ℕ) (s : Books) → (ensure_balance user s).ledger ≡ s.ledger
unfolding ensure_balance
ledger-ensure_balance user s = ground arith

pub rows_of-none :
    (user : ℕ) (ref_type ref_id : String) (l : List LedgerEntry)
    → find_ref user ref_type ref_id l ≡ none
    → rows_of user ref_type ref_id l ≡ []
unfolding find_ref
rows_of-none user ref_type ref_id [] h = refl
rows_of-none user ref_type ref_id (e ∷ l) h =
    elim (Bool-cases (matches_ref user ref_type ref_id e)) [
      | inl p ↦ absurd (cc (rw p at h))
      | inr p ↦ rw p (rows_of-none user ref_type ref_id l (rw p at h))
    ]

pub get_by_ref-none :
    (user : ℕ) (ref_type ref_id : String) (s : Books)
    → find_ref user ref_type ref_id s.ledger ≡ none
    → get_by_ref user ref_type ref_id s ≡ none
unfolding get_by_ref pick
get_by_ref-none user ref_type ref_id s h = rw (rows_of-none user ref_type ref_id s.ledger h) refl

pub pick-none : (n : ℕ) (l : List LedgerEntry) → pick n l ≡ none → l ≡ []
unfolding pick
pick-none n [] h = refl
pick-none n (e ∷ l) h = absurd (cc h)

pub find_none :
    (user : ℕ) (ref_type ref_id : String) (l : List LedgerEntry)
    → rows_of user ref_type ref_id l ≡ []
    → find_ref user ref_type ref_id l ≡ none
unfolding find_ref
find_none user ref_type ref_id [] h = refl
find_none user ref_type ref_id (e ∷ l) h = elim (Bool-cases (matches_ref user ref_type ref_id e)) [
  | inl p ↦ absurd (cc (rw p at h))
  | inr p ↦ rw p (find_none user ref_type ref_id l (rw p at h))
]

pub find_ref-none :
    (user : ℕ) (ref_type ref_id : String) (s : Books)
    → get_by_ref user ref_type ref_id s ≡ none
    → find_ref user ref_type ref_id s.ledger ≡ none
unfolding get_by_ref
find_ref-none user ref_type ref_id s h =
    let rows = rows_of user ref_type ref_id s.ledger in
    find_none user ref_type ref_id s.ledger (pick-none s.plan rows h)

-- A row whose reference no other row carries is the one that is found.
pub get_by_ref-single :
    (user : ℕ) (ref_type ref_id : String) (s : Books) (e : LedgerEntry)
    → rows_of user ref_type ref_id s.ledger ≡ e ∷ []
    → get_by_ref user ref_type ref_id s ≡ some e
unfolding get_by_ref pick pick_from
get_by_ref-single user ref_type ref_id s e h = rw h refl

pub rows_of_self :
    (e : LedgerEntry) (l : List LedgerEntry)
    → find_ref e.user_id e.ref_type e.ref_id l ≡ none
    → rows_of e.user_id e.ref_type e.ref_id (e ∷ l) ≡ e ∷ []
rows_of_self e l h =
    let same : matches_ref e.user_id e.ref_type e.ref_id e ≡ true =
      ground (arith, eqb_self {A = ℕ} e.user_id, eqb_self e.ref_type, eqb_self e.ref_id) in
    rw same (ap (λ r. e ∷ r) (rows_of-none e.user_id e.ref_type e.ref_id l h))

pub rows_of_new :
    (user : ℕ) (ref_type ref_id : String) (e : LedgerEntry) (l : List LedgerEntry)
    → e.user_id ≡ user
    → e.ref_type ≡ ref_type
    → e.ref_id ≡ ref_id
    → rows_of user ref_type ref_id l ≡ []
    → rows_of user ref_type ref_id (e ∷ l) ≡ e ∷ []
rows_of_new user ref_type ref_id e l p q r h =
    let same : matches_ref user ref_type ref_id e ≡ true =
      ground (arith, p, q, r, eqb_self {A = ℕ} user, eqb_self ref_type, eqb_self ref_id) in
    rw same (ap (λ rows. e ∷ rows) h)

pub rows_of_old :
    (user : ℕ) (ref_type ref_id : String) (e : LedgerEntry) (l : List LedgerEntry)
    → (e.user_id == user) ≡ false
    → rows_of user ref_type ref_id (e ∷ l) ≡ rows_of user ref_type ref_id l
rows_of_old user ref_type ref_id e l h = rw h refl

pub get_by_ref-ensure_balance :
    (other user : ℕ) (ref_type ref_id : String) (s : Books)
    → get_by_ref user ref_type ref_id (ensure_balance other s) ≡ get_by_ref user ref_type ref_id s
unfolding get_by_ref ensure_balance
get_by_ref-ensure_balance other user ref_type ref_id s =
    elim (Option-cases (lookup other s.balances)) [
      | inl e ↦ rw (e, ensure_balance) refl
      | inr (b, e) ↦ rw (e, ensure_balance) refl
    ]

-- After `ensure_balance` the user has a row.
pub row-ensure_balance :
    (user : ℕ) (s : Books) → (b : ℤ) × (lookup user (ensure_balance user s).balances ≡ some b)
unfolding ensure_balance
row-ensure_balance user s = elim (Option-cases (lookup user s.balances)) [
  | inl e ↦ (pos 0, ground (arith, lookup-insert user user (pos 0) s.balances))
  | inr (b, e) ↦ (b, ground arith)
]
