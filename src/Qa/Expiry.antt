-- ===== src/Qa/Expiry.antt =====
-- The hourly task that refunds expired bounties (app/modules/qa/tasks.py).
pub mod Rounds
pub mod Drain
use lkm_service.Qa.Runs.{at_time}
use lkm_service.Qa.Service.{expire_due_questions}
use lkm_service.Prelude.Exec.{Result, ok, atomic, err}
use lkm_service.Qa.{QaErr, Forum}
use lkm_service.Prelude.{
  ℕ, zero, suc, ◌+◌, ◌-◌, ◌*◌, ◌≤◌, ◌<◌, ◌≡◌, refl, sym, ap, ◌∙◌, subst, ◌≢◌, ◌↔◌, ◌⊎◌, inl, inr,
  Bool, true, false, not, ◌&&◌, ◌||◌, Option, none, some, List, [], ◌∷◌, ◌++◌, map, min, max,
  String, arith, if◌then◌else◌, ltb, leb, ◌==◌, nat_key, text_key, Bool-cases, Option-cases, All,
  any, all, keep, length, take, drop, is_some, contains,
}

pub data Ended : Type 0 where
  finished : Ended
  -- the exception of a round, which was rolled back
  raised_by : QaErr → Ended
  out_of_fuel : Ended

-- The `limit` of `expire_due_questions`.
abbrev pub batch : ℕ
batch = 100

-- Each round reads the clock anew. One call of `expire_qa_bounties` does at most `fuel` rounds.
module _ (uuid_text : ℕ → String) (clock : ℕ → ℕ) where
  -- `expire_due_questions(db)`, in a session of its own.
  abbrev pub one_round : ℕ → Forum → Result QaErr ℕ × Forum
  one_round i f = atomic (expire_due_questions uuid_text batch) (at_time (clock i) f)

  unfoldable pub expire_qa_bounties : ℕ → ℕ → Forum → Ended × Forum
  expire_qa_bounties zero i f = (out_of_fuel, f)
  expire_qa_bounties (suc fuel) i f =
      let (r, g) = one_round i f in
      let rest = expire_qa_bounties fuel (i + 1) g in
      elim r [
        | ok count ↦ if ltb count batch then (finished, g) else rest
        | err e ↦ (raised_by e, g)
      ]
