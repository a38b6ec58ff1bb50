-- ===== src/Outbox/Enqueue/Laws.antt =====
-- What an entry into the outbox adds (`enqueue_outbox` of core/db/outbox.py).
use lkm_service.Outbox.Relay.{is_pending}
use lkm_service.Outbox.Enqueue.{
  has_pending, again, legacy_event_exists, add_message, insert_event, first_time, enqueue_outbox,
  Fresh, new_message,
}
use lkm_service.Outbox.{Message, Tables}
use lkm_service.Prelude.{
  Option, Bool-cases, inr, true, text_key, any, inl, ◌≤◌, ◌≡◌, String, arith, List, Bool, some,
  false, nat_key, none, ◌+◌, ◌&&◌, ℕ, ◌∷◌, ◌==◌, [], contains, refl,
}
use lkm_service.Prelude.Exec.{ok}
use lkm_service.Outbox.Relay.Rows.{one_if}

module _ {P : Type 0} where
  -- The pending rows of an event.
  abbrev pub count_pending : ℕ → List (Message P) → ℕ
  count_pending ev [] = 0
  count_pending ev (m ∷ l) = one_if (m.event_id == ev && is_pending m.status) + count_pending ev l

  -- No event waits twice.
  pub record IsSingle (db : Tables P) : Type 0 where
    pub at : (ev : ℕ) → count_pending ev db.events ≤ 1

  count_pending-none :
      (ev : ℕ) (l : List (Message P)) → has_pending ev l ≡ false → count_pending ev l ≡ 0
  unfolding has_pending
  count_pending-none ev [] h = refl
  count_pending-none ev (m ∷ l) h = ground (arith, count_pending-none ev l)

  no_rows :
      (ev : ℕ) (l : List (Message P))
      → any (λ m. m.event_id == ev) l ≡ false
      → count_pending ev l ≡ 0
  no_rows ev [] h = refl
  no_rows ev (m ∷ l) h = ground (arith, no_rows ev l)

  add-IsSingle :
      (m : Message P) (db : Tables P)
      → count_pending m.event_id db.events ≡ 0
      → IsSingle db
      → IsSingle (add_message m db).1
  add-IsSingle m db h s = record { at = λ ev. ground (arith, s.at ev, h) }

  legacy_events :
      (ev : ℕ) (db : Tables P) → legacy_event_exists ev db ≡ false → count_pending ev db.events ≡ 0
  unfolding legacy_event_exists
  legacy_events ev db h = no_rows ev db.events (ground arith)

  again-IsSingle :
      (replay : Bool) (m : Message P) (db : Tables P) → IsSingle db → IsSingle (again replay m db).1
  unfolding again
  again-IsSingle false m db s = s
  again-IsSingle true m db s = elim (Bool-cases (has_pending m.event_id db.events)) [
    | inl e ↦ rw e s
    | inr e ↦ rw e (add-IsSingle m db (count_pending-none m.event_id db.events e) s)
  ]

  -- What is needed of a call without an id: its fresh id is not pending yet.
  first-IsSingle :
      (explicit replay : Bool) (m : Message P) (db : Tables P)
      → (explicit ≡ false → count_pending m.event_id db.events ≡ 0)
      → IsSingle db
      → IsSingle (first_time explicit replay m db).1
  unfolding first_time
  first-IsSingle explicit true m db k s = elim (Bool-cases (has_pending m.event_id db.events)) [
    | inl e ↦ rw e (ground arith)
    | inr e ↦ rw e (ground (arith, add-IsSingle m db (count_pending-none m.event_id db.events e) s))
  ]
  first-IsSingle false false m db k s = add-IsSingle m db (k refl) s
  first-IsSingle true false m db k s = elim (Bool-cases (legacy_event_exists m.event_id db)) [
    | inl e ↦ rw e s
    | inr e ↦ rw e (add-IsSingle m db (legacy_events m.event_id db e) s)
  ]

  with_key-IsSingle :
      (ev : ℕ) (db : Tables P) → IsSingle db → IsSingle (record db { keys = ev ∷ db.keys })
  with_key-IsSingle ev db s = record { at = s.at }

  insert-IsSingle :
      (explicit replay : Bool) (m : Message P) (db : Tables P)
      → (explicit ≡ false → count_pending m.event_id db.events ≡ 0)
      → IsSingle db
      → IsSingle (insert_event explicit replay m db).1
  unfolding insert_event
  insert-IsSingle explicit replay m db k s = elim (Bool-cases (contains m.event_id db.keys)) [
    | inl e ↦ rw e (again-IsSingle replay m db s)
    | inr e ↦ rw e (
        first-IsSingle explicit replay m (record db { keys = m.event_id ∷ db.keys }) k
          (with_key-IsSingle m.event_id db s))
  ]

  -- Whatever a caller asks for, no event has two pending rows after an enqueue if none had before
  -- and the id drawn for a call without one is not pending.
  pub enqueue_outbox-IsSingle :
      (bus_enabled : Bool) (routing_key : String) (payload : P) (event_id : Option ℕ)
      (replay : Bool) (fresh : Fresh) (db : Tables P)
      → count_pending fresh.event db.events ≡ 0
      → IsSingle db
      → IsSingle (enqueue_outbox bus_enabled routing_key payload event_id replay fresh db).1
  unfolding enqueue_outbox
  enqueue_outbox-IsSingle false routing_key payload event_id replay fresh db k s = s
  enqueue_outbox-IsSingle true routing_key payload none true fresh db k s = s
  enqueue_outbox-IsSingle true routing_key payload none false fresh db k s =
      insert-IsSingle false false (new_message fresh.event routing_key payload fresh) db (λ _. k) s
  enqueue_outbox-IsSingle true routing_key payload (some e) false fresh db k s =
      insert-IsSingle true false (new_message e routing_key payload fresh) db (λ q. cc q) s
  enqueue_outbox-IsSingle true routing_key payload (some e) true fresh db k s =
      insert-IsSingle true true (new_message e routing_key payload fresh) db (λ q. cc q) s

  insert_event-key :
      (replay : Bool) (m : Message P) (db : Tables P)
      → contains m.event_id (insert_event true replay m db).1.keys ≡ true
  unfolding insert_event first_time again
  insert_event-key replay m db = ground arith

  seen :
      (m : Message P) (db : Tables P)
      → contains m.event_id db.keys ≡ true
      → insert_event true false m db ≡ (false, db)
  unfolding insert_event again
  seen m db h = rw h

  -- After an enqueue of an event under an id of the caller's, of whatever kind and outcome, an
  -- enqueue under that id that is not a replay adds nothing.
  pub enqueue-enqueue :
      (bus_enabled replay : Bool) (e : ℕ) (routing_key routing_key' : String) (payload payload' : P)
      (fresh fresh' : Fresh) (db : Tables P)
      → let db' = (enqueue_outbox true routing_key payload (some e) replay fresh db).1 in
        enqueue_outbox bus_enabled routing_key' payload' (some e) false fresh' db' ≡ (ok false, db')
  unfolding enqueue_outbox
  enqueue-enqueue false replay e routing_key routing_key' payload payload' fresh fresh' db = refl
  enqueue-enqueue true false e routing_key routing_key' payload payload' fresh fresh' db =
      let m = new_message e routing_key payload fresh in
      rw (
        seen (new_message e routing_key' payload' fresh') (insert_event true false m db).1
          (insert_event-key false m db))
  enqueue-enqueue true true e routing_key routing_key' payload payload' fresh fresh' db =
      let m = new_message e routing_key payload fresh in
      rw (
        seen (new_message e routing_key' payload' fresh') (insert_event true true m db).1
          (insert_event-key true m db))
