-- ===== src/Outbox/Archive/Laws.antt =====
-- What the archive keeps and what it moves (`archive_published` of core/outbox_relay.py).
use lkm_service.Outbox.Relay.Conservation.{occurrences}
use lkm_service.Outbox.Relay.Rows.{count_rows-alter_delete}
use lkm_service.Outbox.Relay.{alter, find_row, has_key}
use lkm_service.Outbox.Archive.{next_archivable, archive_published, archivable, move_row}
use lkm_service.Outbox.{Tables, Message}
use lkm_service.Prelude.{
  List, not, Bool, leb, ◌<◌, some, keep, ◌≡◌, [], Bool-cases, none, inl, true, ◌≤◌, ◌+◌, arith, ◌∙◌,
  inr, length, Option-cases, ℕ, ◌∷◌, suc, zero, refl, nat_key, text_key,
}
use lkm_service.Outbox.Relay.Fencing.{HasUniqueKeys, found_later, found_head}

module _ {P : Type 0} (retention now : ℕ) where
  abbrev ready : Message P → Bool
  ready = archivable retention now

  abbrev other : Message P → Bool
  other m = not (archivable retention now m)

  next_archivable-found :
      (l : List (Message P)) (m : Message P)
      → HasUniqueKeys l
      → next_archivable retention now l ≡ some m
      → (archivable retention now m ≡ true) × (find_row m.id m.created_at l ≡ some m)
  unfolding next_archivable
  next_archivable-found [] m u h = cc
  next_archivable-found (x ∷ l) m u h = elim (Bool-cases (archivable retention now x)) [
    | inr e ↦
        let (ok, found) = next_archivable-found l m u.1 (rw e at h) in
        (ok, found_later m x l u.0 found)
    | inl e ↦ elim (Option-cases (next_archivable retention now l)) [
      | inl none_left ↦ let p : m ≡ x = cc (rw (e, none_left) at h) in rw p (e, found_head x l)
      | inr (n, some_left) ↦
          let (ok, found) = next_archivable-found l n u.1 some_left in
          elim (Bool-cases (leb x.id n.id)) [
            | inl first ↦
                let p : m ≡ x = cc (rw (e, some_left, first) at h) in rw p (e, found_head x l)
            | inr second ↦
                let p : m ≡ n = cc (rw (e, some_left, second) at h) in
                rw p (ok, found_later n x l u.0 found)
          ]
    ]
  ]

  next_archivable-none :
      (l : List (Message P)) → next_archivable retention now l ≡ none → keep ready l ≡ []
  unfolding next_archivable
  next_archivable-none [] h = refl
  next_archivable-none (x ∷ l) h = elim (Bool-cases (archivable retention now x)) [
    | inr e ↦ rw e (next_archivable-none l (rw e at h))
    | inl e ↦ cc (rw e at h)
  ]

  keep-alter_delete :
      (id created_at : ℕ) (r : Message P) (l : List (Message P))
      → archivable retention now r ≡ true
      → find_row id created_at l ≡ some r
      → keep other (alter id created_at (λ _. none) l) ≡ keep other l
  unfolding alter find_row
  keep-alter_delete id created_at r [] e h = refl
  keep-alter_delete id created_at r (m ∷ l) e h = elim (Bool-cases (has_key id created_at m)) [
    | inl k ↦ let p : m ≡ r = cc (rw k at h) in rw (k, p, e)
    | inr k ↦ rw (k, keep-alter_delete id created_at r l e (rw k at h))
  ]

  length-alter_delete :
      (id created_at : ℕ) (r : Message P) (l : List (Message P))
      → find_row id created_at l ≡ some r
      → length (alter id created_at (λ _. none) l) + 1 ≡ length l
  unfolding alter find_row
  length-alter_delete id created_at r [] h = cc
  length-alter_delete id created_at r (m ∷ l) h =
      ground (arith, length-alter_delete id created_at r l)

  find_row-alter_delete :
      (id created_at i t : ℕ) (l : List (Message P))
      → find_row i t l ≡ none
      → find_row i t (alter id created_at (λ _. none) l) ≡ none
  unfolding alter find_row
  find_row-alter_delete id created_at i t [] h = refl
  find_row-alter_delete id created_at i t (m ∷ l) h =
      ground (arith, find_row-alter_delete id created_at i t l)

  alter_delete-HasUniqueKeys :
      (id created_at : ℕ) (l : List (Message P))
      → HasUniqueKeys l
      → HasUniqueKeys (alter id created_at (λ _. none) l)
  unfolding alter
  alter_delete-HasUniqueKeys id created_at [] u = tt
  alter_delete-HasUniqueKeys id created_at (m ∷ l) u = elim (Bool-cases (has_key id created_at m)) [
    | inl e ↦ rw e u.1
    | inr e ↦ rw e (
      find_row-alter_delete id created_at m.id m.created_at l u.0,
      alter_delete-HasUniqueKeys id created_at l u.1,
    )
  ]

  -- `n` rows have been moved, and only archivable ones: the other rows stand as they stood, and
  -- under the limit no archivable row is left.
  pub record Archives (limit : ℕ) (db : Tables P) (n : ℕ) (db' : Tables P) : Type 0 where
    pub within : n ≤ limit
    pub left : length db'.events + n ≡ length db.events
    pub moved : length db'.archived ≡ length db.archived + n
    pub kept : keep other db'.events ≡ keep other db.events
    pub complete : n < limit → keep ready db'.events ≡ []
    pub once : (ev : ℕ) → occurrences ev db' ≡ occurrences ev db

  none-Archives :
      (limit : ℕ) (db : Tables P)
      → next_archivable retention now db.events ≡ none
      → Archives limit db 0 db
  none-Archives limit db e = record {
    within = omega arith;
    left = omega arith;
    moved = omega arith;
    kept = refl;
    complete = λ _. next_archivable-none db.events e;
    once = λ ev. refl;
  }

  move_row-Archives :
      (limit n : ℕ) (db db' : Tables P) (m : Message P)
      → archivable retention now m ≡ true
      → find_row m.id m.created_at db.events ≡ some m
      → Archives limit (move_row now m db) n db'
      → Archives (suc limit) db (suc n) db'
  move_row-Archives limit n db db' m e found h = record {
    within = omega (arith, h.within);
    left = omega (arith, h.left, length-alter_delete m.id m.created_at m db.events found);
    moved = omega (arith, h.moved);
    kept = h.kept ∙ keep-alter_delete m.id m.created_at m db.events e found;
    complete = λ less. h.complete (omega (arith, less));
    once = λ ev.
        omega (arith, h.once ev, count_rows-alter_delete ev m.id m.created_at m db.events found);
  }

  -- An archive run over a table with unique primary keys moves at most `limit` rows, each of
  -- them published and past the retention; every other row stays; it moves all such rows unless
  -- it reaches the limit; and no event gains or loses a row over the three tables.
  pub archive_published-Archives :
      (limit : ℕ) (db : Tables P)
      → HasUniqueKeys db.events
      → Archives limit db
          (archive_published retention now limit db).0
          (archive_published retention now limit db).1
  unfolding archive_published
  archive_published-Archives zero db u = record {
    within = omega arith;
    left = omega arith;
    moved = omega arith;
    kept = refl;
    complete = λ less. absurd (omega (arith, less));
    once = λ ev. refl;
  }
  archive_published-Archives (suc limit) db u =
      elim (Option-cases (next_archivable retention now db.events)) [
        | inl e ↦ rw (e, archive_published) (none-Archives (suc limit) db e)
        | inr (m, e) ↦
            let (ok, found) = next_archivable-found db.events m u e in
            rw (e, archive_published)
              (move_row-Archives limit (archive_published retention now limit (move_row now m db)).0
                db (archive_published retention now limit (move_row now m db)).1 m ok found
                (archive_published-Archives limit (move_row now m db)
                  (alter_delete-HasUniqueKeys m.id m.created_at db.events u)))
      ]
