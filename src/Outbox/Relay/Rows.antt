-- ===== src/Outbox/Relay/Rows.antt =====
-- The laws of the row operations of the relay (core/outbox_relay.py): `find_row` and `alter`.
use lkm_service.Prelude.{
  ℕ, ◌+◌, ◌≡◌, refl, Bool, true, false, none, some, List, [], ◌∷◌, ◌==◌, All, nat_key, arith,
  Bool-cases, inl, inr,
}
use lkm_service.Outbox.{Message}
use lkm_service.Outbox.Relay.{has_key, find_row, alter, lock}

abbrev pub one_if : Bool → ℕ
one_if true = 1
one_if false = 0

module _ {P : Type 0} where
  -- The number of rows of an event.
  abbrev pub count_rows : ℕ → List (Message P) → ℕ
  count_rows ev [] = 0
  count_rows ev (m ∷ l) = one_if (m.event_id == ev) + count_rows ev l

  -- An update keeps the row's event and key.
  pub record KeepsKey (f : Message P → Message P) : Type 0 where
    pub event : (m : Message P) → (f m).event_id ≡ m.event_id
    pub id : (m : Message P) → (f m).id ≡ m.id
    pub created : (m : Message P) → (f m).created_at ≡ m.created_at

  pub count_rows-alter :
      (ev id created_at : ℕ) (f : Message P → Message P) (l : List (Message P))
      → KeepsKey f
      → count_rows ev (alter id created_at (λ m. some (f m)) l) ≡ count_rows ev l
  unfolding alter
  count_rows-alter ev id created_at f [] k = refl
  count_rows-alter ev id created_at f (m ∷ l) k =
      ground (arith, k.event m, count_rows-alter ev id created_at f l)

  pub count_rows-alter_constant :
      (ev id created_at : ℕ) (r n : Message P) (l : List (Message P))
      → find_row id created_at l ≡ some r
      → n.event_id ≡ r.event_id
      → count_rows ev (alter id created_at (λ _. some n) l) ≡ count_rows ev l
  unfolding alter find_row
  count_rows-alter_constant ev id created_at r n [] h e = cc
  count_rows-alter_constant ev id created_at r n (m ∷ l) h e =
      ground (arith, count_rows-alter_constant ev id created_at r n l)

  pub count_rows-alter_delete :
      (ev id created_at : ℕ) (r : Message P) (l : List (Message P))
      → find_row id created_at l ≡ some r
      → one_if (r.event_id == ev) + count_rows ev (alter id created_at (λ _. none) l)
        ≡ count_rows ev l
  unfolding alter find_row
  count_rows-alter_delete ev id created_at r [] h = cc
  count_rows-alter_delete ev id created_at r (m ∷ l) h =
      ground (arith, count_rows-alter_delete ev id created_at r l)

  pub All-alter :
      (Q : Message P → Type 0) (id created_at : ℕ) (f : Message P → Message P)
      (l : List (Message P))
      → ((m : Message P) → Q m → Q (f m))
      → All Q l
      → All Q (alter id created_at (λ m. some (f m)) l)
  unfolding alter
  All-alter Q id created_at f [] k h = tt
  All-alter Q id created_at f (m ∷ l) k h = elim (Bool-cases (has_key id created_at m)) [
    | inl e ↦ rw e (k m h.0, h.1)
    | inr e ↦ rw e (h.0, All-alter Q id created_at f l k h.1)
  ]

  pub All-alter_constant :
      (Q : Message P → Type 0) (id created_at : ℕ) (n : Message P) (l : List (Message P))
      → Q n
      → All Q l
      → All Q (alter id created_at (λ _. some n) l)
  All-alter_constant Q id created_at n l q h = All-alter Q id created_at (λ _. n) l (λ m _. q) h

  pub All-alter_delete :
      (Q : Message P → Type 0) (id created_at : ℕ) (l : List (Message P))
      → All Q l
      → All Q (alter id created_at (λ _. none) l)
  unfolding alter
  All-alter_delete Q id created_at [] h = tt
  All-alter_delete Q id created_at (m ∷ l) h = elim (Bool-cases (has_key id created_at m)) [
    | inl e ↦ rw e h.1
    | inr e ↦ rw e (h.0, All-alter_delete Q id created_at l h.1)
  ]

  pub All-find_row :
      (Q : Message P → Type 0) (id created_at : ℕ) (r : Message P) (l : List (Message P))
      → find_row id created_at l ≡ some r
      → All Q l
      → Q r
  unfolding find_row
  All-find_row Q id created_at r [] e h = cc
  All-find_row Q id created_at r (m ∷ l) e h = elim (Bool-cases (has_key id created_at m)) [
    | inl k ↦ let p : r ≡ m = cc (rw k at e) in rw p h.0
    | inr k ↦ All-find_row Q id created_at r l (rw k at e) h.1
  ]

  pub find_row-alter :
      (id created_at : ℕ) (f : Message P → Message P) (r : Message P) (l : List (Message P))
      → KeepsKey f
      → find_row id created_at l ≡ some r
      → find_row id created_at (alter id created_at (λ m. some (f m)) l) ≡ some (f r)
  unfolding alter find_row
  find_row-alter id created_at f r [] k h = cc
  find_row-alter id created_at f r (m ∷ l) k h =
      ground (arith, k.id m, k.created m, find_row-alter id created_at f r l k)

  pub find_row_key :
      (id created_at : ℕ) (r : Message P) (l : List (Message P))
      → find_row id created_at l ≡ some r
      → (r.id ≡ id) × (r.created_at ≡ created_at)
  unfolding find_row
  find_row_key id created_at r [] h = cc
  find_row_key id created_at r (m ∷ l) h = elim (Bool-cases (has_key id created_at m)) [
    | inl k ↦ let p : r ≡ m = cc (rw k at h) in rw p (ground arith)
    | inr k ↦ find_row_key id created_at r l (rw k at h)
  ]

  pub lock-KeepsKey : (token now : ℕ) → KeepsKey (lock {P = P} token now)
  lock-KeepsKey token now = record { event = λ m. refl; id = λ m. refl; created = λ m. refl }
