-- ===== src/Outbox/Poll/Laws.antt =====
-- What a whole poll keeps (`relay_poll` of core/outbox_relay.py), whatever the bus answers and as
-- long as what other processes do meanwhile keeps it too.
use lkm_service.Prelude.{
  ℕ, ◌+◌, ◌≡◌, refl, String, Bool, Option, none, some, List, [], ◌∷◌, All, inl, inr, Bool-cases,
  ◌∙◌,
}
use lkm_service.Outbox.{Message, Tables}
use lkm_service.Outbox.Relay.{Settings, claim, settle, give_back, Settlement, sent, crashed}
use lkm_service.Outbox.Relay.Conservation.{
  occurrences, occurrences-claim, occurrences-settle, occurrences-give_back,
}
use lkm_service.Outbox.Relay.Sound.{AllSound, claim-AllSound, settle-AllSound, give_back-AllSound}
use lkm_service.Outbox.Poll.{Round, finish, work, round, poll, relay_poll, Rest, claimed_work}

module _ {P : Type 0} (c : Settings) (reason_of : Message P → Option String) where
  -- A property of the tables that every step keeps.
  record Keeps (Q : Tables P → Type 0) : Type 0 where
    by_claim : (token now : ℕ) (db : Tables P) → Q db → Q (claim c token now db).1
    by_settle :
        (token now : ℕ) (m : Message P) (reason : Option String) (delivered : Bool) (db : Tables P)
        → Q db
        → Q (settle token now m reason delivered db).1
    by_give_back : (token : ℕ) (m : Message P) (db : Tables P) → Q db → Q (give_back token m db)

  abbrev RestKeeps : (Tables P → Type 0) → Rest c reason_of → Type 0
  RestKeeps Q rest = (n : ℕ) (db : Tables P) → Q db → Q (rest n db).1

  -- Every round's other processes keep it.
  abbrev pub MeanwhileKeeps : (Tables P → Type 0) → Round P → Type 0
  MeanwhileKeeps Q r = (db : Tables P) → Q db → Q (r.meanwhile db)

  module _ (Q : Tables P → Type 0) (k : Keeps Q) where
    finish-keeps :
        (result : Settlement) (n : ℕ) (db : Tables P) (rest : Rest c reason_of)
        → RestKeeps Q rest
        → Q db
        → Q (finish c reason_of result n db rest).1
    finish-keeps crashed n db rest kr h = h
    finish-keeps sent n db rest kr h = kr (n + 1) db h
    finish-keeps _ n db rest kr h = kr n db h

    work-keeps :
        (r : Round P) (m : Message P) (db : Tables P) (n : ℕ) (rest : Rest c reason_of)
        → MeanwhileKeeps Q r
        → RestKeeps Q rest
        → Q db
        → Q (work c reason_of r m db n rest).1
    work-keeps r m db n rest kr krest h = elim (Bool-cases r.may_publish) [
      | inl e ↦
          let (result, db') =
            settle r.token r.settled_at m (reason_of m) r.delivered (r.meanwhile db) in
          rw e (
            finish-keeps result n db' rest krest (
              k.by_settle r.token r.settled_at m (reason_of m) r.delivered (r.meanwhile db)
                (kr db h)))
      | inr e ↦ rw e (k.by_give_back r.token m (r.meanwhile db) (kr db h))
    ]

    claimed-keeps :
        (r : Round P) (claimed : Option (Message P)) (db : Tables P) (n : ℕ)
        (rest : Rest c reason_of)
        → MeanwhileKeeps Q r
        → RestKeeps Q rest
        → Q db
        → Q (claimed_work c reason_of r claimed db n rest).1
    claimed-keeps r none db n rest kr krest h = h
    claimed-keeps r (some m) db n rest kr krest h = work-keeps r m db n rest kr krest h

    round-keeps :
        (r : Round P) (n : ℕ) (db : Tables P) (rest : Rest c reason_of)
        → MeanwhileKeeps Q r
        → RestKeeps Q rest
        → Q db
        → Q (round c reason_of r n db rest).1
    unfolding round
    round-keeps r n db rest kr krest h = elim (Bool-cases r.may_claim) [
      | inl e ↦
          let (claimed, db') = claim c r.token r.claimed_at db in
          rw e (claimed-keeps r claimed db' n rest kr krest (k.by_claim r.token r.claimed_at db h))
      | inr e ↦ rw e h
    ]

    poll-keeps :
        (rounds : List (Round P)) (n : ℕ) (db : Tables P)
        → All (MeanwhileKeeps Q) rounds
        → Q db
        → Q (poll c reason_of rounds n db).1
    unfolding poll
    poll-keeps [] n db kr h = h
    poll-keeps (r ∷ rounds) n db kr h =
        round-keeps r n db (poll c reason_of rounds) kr.0
          (λ n' db' h'. poll-keeps rounds n' db' kr.1 h') h

  -- A poll keeps the number of rows that an event has in the three tables, however many rounds
  -- it makes, whatever the bus answers, and also if it raises: no event is lost, none is doubled.
  pub occurrences-relay_poll :
      (ev : ℕ) (rounds : List (Round P)) (db : Tables P)
      → All (λ r. (x : Tables P) → occurrences ev (r.meanwhile x) ≡ occurrences ev x) rounds
      → occurrences ev (relay_poll c reason_of rounds db).1 ≡ occurrences ev db
  unfolding relay_poll
  occurrences-relay_poll ev rounds db kr =
      poll-keeps (λ x. occurrences ev x ≡ occurrences ev db)
        (record {
          by_claim = λ token now x h. occurrences-claim ev c token now x ∙ h;
          by_settle = λ token now m reason d x h. occurrences-settle ev token now m reason d x ∙ h;
          by_give_back = λ token m x h. occurrences-give_back ev token m x ∙ h;
        })
        rounds 0 db (quiet rounds kr) refl
    where
      quiet :
          (rounds : List (Round P))
          → All (λ r. (x : Tables P) → occurrences ev (r.meanwhile x) ≡ occurrences ev x) rounds
          → All (MeanwhileKeeps (λ x. occurrences ev x ≡ occurrences ev db)) rounds
      quiet [] h = tt
      quiet (r ∷ l) h = ((λ x p. h.0 x ∙ p), quiet l h.1)

  -- A poll keeps the rows sound: fewer than five failed attempts on every row in the outbox and
  -- at most five on a failure, a publication time exactly on the published rows, and a claim
  -- time exactly with a claim token.
  pub relay_poll-AllSound :
      (rounds : List (Round P)) (db : Tables P)
      → All (λ r. (x : Tables P) → AllSound x → AllSound (r.meanwhile x)) rounds
      → AllSound db
      → AllSound (relay_poll c reason_of rounds db).1
  unfolding relay_poll
  relay_poll-AllSound rounds db kr h =
      poll-keeps AllSound
        (record {
          by_claim = claim-AllSound c;
          by_settle = settle-AllSound;
          by_give_back = give_back-AllSound;
        })
        rounds 0 db kr h
