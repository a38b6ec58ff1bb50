-- ===== src/Outbox/Tests.antt =====
-- The outbox at concrete inputs: its runs, and each law at an input that meets it. The payload
-- is a number.
use lkm_service.Outbox.Relay.Fencing.{claim-claim, HasUniqueKeys, settle-claim}
use lkm_service.Outbox.Poll.Laws.{occurrences-relay_poll, relay_poll-AllSound}
use lkm_service.Outbox.Relay.Conservation.{occurrences}
use lkm_service.Prelude.Exec.{ok}
use lkm_service.Outbox.Archive.{archive_published, next_archivable, archivable}
use lkm_service.Outbox.Archive.Laws.{Archives, archive_published-Archives}
use lkm_service.Outbox.Relay.Sound.{AllSound, IsSound}
use lkm_service.Outbox.Enqueue.Laws.{IsSingle, enqueue_outbox-IsSingle, enqueue-enqueue}
use lkm_service.Outbox.{Message, Tables, pending, published}
use lkm_service.Outbox.Relay.{
  settle, Settings, find_row, claim, next_claimable, lost, claimable, earlier, alter, precedes,
  stale_after,
}
use lkm_service.Prelude.{
  ℕ, ◌<◌, ◌≡◌, refl, ◌≢◌, true, false, Option, none, some, [], ◌∷◌, String, arith, nat_key,
  text_key,
}
use lkm_service.Outbox.Poll.{Round, relay_poll}
use lkm_service.Outbox.Enqueue.{Fresh, enqueue_outbox}

abbrev config : Settings
config = record { lock_ttl = 100; operation_timeout = 50 }

abbrev first_row : Message ℕ
first_row = record {
  id = 1;
  event_id = 11;
  routing_key = "points";
  payload = 0;
  status = pending;
  attempt_count = 1;
  created_at = 3;
  next_retry_at = 5;
  published_at = none;
  locked_at = none;
  locked_by = none;
}

abbrev second_row : Message ℕ
second_row = record first_row { id = 2; event_id = 12; attempt_count = 0 }

abbrev two_rows : Tables ℕ
two_rows = record {
  keys = 12 ∷ 11 ∷ [];
  events = first_row ∷ second_row ∷ [];
  failures = [];
  archived = [];
}

abbrev second_locked : Message ℕ
second_locked = record second_row { locked_at = some 9; locked_by = some 70 }

abbrev after_claim : Tables ℕ
after_claim = record two_rows { events = first_row ∷ second_locked ∷ [] }

-- The row of fewer attempts goes first.
claim_run : claim config 70 9 two_rows ≡ (some second_locked, after_claim)
unfolding claim next_claimable claimable earlier precedes alter
claim_run = refl

settle-claim_example : settle 71 12 second_row none true after_claim ≡ (lost, after_claim)
settle-claim_example =
    settle-claim config 70 71 9 12 two_rows after_claim second_locked second_row none true claim_run
      (λ e. ground (arith, e)) refl refl

two_rows-HasUniqueKeys : HasUniqueKeys two_rows.events
unfolding find_row
two_rows-HasUniqueKeys = (refl, (refl, tt))

claim-claim_example : claim config 71 20 after_claim ≢ (some second_locked, two_rows)
unfolding stale_after
claim-claim_example =
    claim-claim config 70 71 9 20 two_rows after_claim two_rows second_locked second_locked
      two_rows-HasUniqueKeys claim_run (omega arith) refl refl

abbrev good_round : Round ℕ
good_round = record {
  may_claim = true;
  may_publish = true;
  token = 70;
  claimed_at = 9;
  settled_at = 12;
  delivered = true;
  meanwhile = λ db. db;
}

abbrev no_reason : Message ℕ → Option String
no_reason m = none

occurrences-relay_poll_example :
    occurrences 12 (relay_poll config no_reason (good_round ∷ good_round ∷ []) two_rows).1 ≡ 1
occurrences-relay_poll_example =
    occurrences-relay_poll config no_reason 12 (good_round ∷ good_round ∷ []) two_rows
      ((λ x. refl), ((λ x. refl), tt))

row-IsSound :
    (id ev tries : ℕ)
    → tries < 5
    → IsSound (record first_row { id = id; event_id = ev; attempt_count = tries })
row-IsSound id ev tries h = record { tries = h; stamped = refl; locked = refl }

two_rows-AllSound : AllSound two_rows
two_rows-AllSound = record {
  rows = (row-IsSound 1 11 1 (omega arith), (row-IsSound 2 12 0 (omega arith), tt));
  failed = tt;
}

relay_poll-AllSound_example :
    AllSound (relay_poll config no_reason (good_round ∷ good_round ∷ []) two_rows).1
relay_poll-AllSound_example =
    relay_poll-AllSound config no_reason (good_round ∷ good_round ∷ []) two_rows
      ((λ x h. h), ((λ x h. h), tt)) two_rows-AllSound

abbrev sent_row : Message ℕ
sent_row = record first_row { status = published; published_at = some 6 }

abbrev one_sent : Tables ℕ
one_sent = record two_rows { events = sent_row ∷ second_row ∷ [] }

one_sent-HasUniqueKeys : HasUniqueKeys one_sent.events
unfolding find_row
one_sent-HasUniqueKeys = (refl, (refl, tt))

archive_run : (archive_published 10 20 50 one_sent).1.events ≡ second_row ∷ []
unfolding archive_published next_archivable archivable alter
archive_run = refl

archive_published-Archives_example :
    Archives 10 20 50 one_sent
      (archive_published 10 20 50 one_sent).0
      (archive_published 10 20 50 one_sent).1
archive_published-Archives_example =
    archive_published-Archives 10 20 50 one_sent one_sent-HasUniqueKeys

abbrev drawn : Fresh
drawn = record { event = 90; row = 91; now = 8 }

two_rows-IsSingle : IsSingle two_rows
two_rows-IsSingle = record { at = λ ev. ground arith }

enqueue_outbox-IsSingle_example :
    IsSingle (enqueue_outbox true "points" 4 (some 11) true drawn two_rows).1
enqueue_outbox-IsSingle_example =
    enqueue_outbox-IsSingle true "points" 4 (some 11) true drawn two_rows refl two_rows-IsSingle

abbrev entered : Tables ℕ
entered = (enqueue_outbox true "points" 4 (some 30) false drawn two_rows).1

enqueue-enqueue_example :
    enqueue_outbox true "points" 5 (some 30) false drawn entered ≡ (ok false, entered)
enqueue-enqueue_example = enqueue-enqueue true false 30 "points" "points" 4 5 drawn drawn two_rows
