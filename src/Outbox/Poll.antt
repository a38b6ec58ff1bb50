-- ===== src/Outbox/Poll.antt =====
-- The poll of the relay (`relay_poll` of core/outbox_relay.py). What the bus answers, the clock,
-- the tokens and what other processes do between the transactions come from a list of rounds.
pub mod Laws
use lkm_service.Prelude.{
  ℕ, ◌+◌, String, Bool, true, false, Option, none, some, List, [], ◌∷◌, if◌then◌else◌,
}
use lkm_service.Outbox.{Message, Tables}
use lkm_service.Outbox.Relay.{
  Settings, claim, settle, give_back, Settlement, lost, folded, sent, postponed, exhausted, crashed,
}

-- Whether the lease still stands before and after the claim, the token, the times, the answer of
-- the bus, and what other processes do meanwhile.
pub record Round (P : Type 0) : Type 0 where
  pub may_claim : Bool
  pub may_publish : Bool
  pub token : ℕ
  pub claimed_at : ℕ
  pub settled_at : ℕ
  pub delivered : Bool
  pub meanwhile : Tables P → Tables P

-- How a poll ended, with the number of events sent.
pub data Polled : Type 0 where
  returned raised : ℕ → Polled

-- `permanent_failure_reason` of the message is a function of its row.
module _ {P : Type 0} (c : Settings) (reason_of : Message P → Option String) where
  abbrev pub Rest : Type 0
  Rest = ℕ → Tables P → Polled × Tables P

  abbrev pub finish : Settlement → ℕ → Tables P → Rest → Polled × Tables P
  finish crashed n db rest = (raised n, db)
  finish sent n db rest = rest (n + 1) db
  finish _ n db rest = rest n db

  abbrev pub work : Round P → Message P → Tables P → ℕ → Rest → Polled × Tables P
  work r m db n rest =
      if r.may_publish
      then (let (result, db') =
            settle r.token r.settled_at m (reason_of m) r.delivered (r.meanwhile db) in
          finish result n db' rest)
      else (returned n, give_back r.token m (r.meanwhile db))

  -- Nothing claimable ends the poll.
  abbrev pub claimed_work : Round P → Option (Message P) → Tables P → ℕ → Rest → Polled × Tables P
  claimed_work r none db n rest = (returned n, db)
  claimed_work r (some m) db n rest = work r m db n rest

  -- One round, and the rest of the poll after it.
  pub round : Round P → ℕ → Tables P → Rest → Polled × Tables P
  round r n db rest =
      if r.may_claim
      then (let (claimed, db') = claim c r.token r.claimed_at db in
          claimed_work r claimed db' n rest)
      else (returned n, db)

  -- At most one round for each of the batch.
  pub poll : List (Round P) → Rest
  poll [] n db = (returned n, db)
  poll (r ∷ rounds) n db = round r n db (poll rounds)

  pub relay_poll : List (Round P) → Tables P → Polled × Tables P
  relay_poll rounds = poll rounds 0
