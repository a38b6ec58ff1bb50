-- ===== src/Auth/Breaker.antt =====
-- The circuit breaker before the sign-in service (auth/circuit_breaker.py), and the one request
-- that is sent through it (`_request` of auth/user_http.py).
pub mod Laws
use lkm_service.Prelude.{
  ℕ, zero, suc, ◌+◌, ◌-◌, ◌*◌, ◌≤◌, ◌<◌, ◌≡◌, refl, sym, ap, ◌∙◌, subst, ◌≢◌, ◌↔◌, ◌⊎◌, inl, inr,
  Bool, true, false, not, ◌&&◌, ◌||◌, Option, none, some, List, [], ◌∷◌, ◌++◌, map, min, max,
  String, arith, if◌then◌else◌, ltb, leb, ◌==◌, nat_key, text_key, Bool-cases, Option-cases, All,
  any, all, keep, length, take, drop, is_some, contains,
}

pub data State : Type 0 where
  shut open_circuit half_open : State

pub record Breaker : Type 0 where
  pub state : State
  pub failures : ℕ
  pub opened_at : ℕ
  pub probing : Bool

-- A closed circuit; `reset`, and `record_success`, which does the same.
abbrev pub at_rest : Breaker
at_rest = record { state = shut; failures = 0; opened_at = 0; probing = false }

pub record_success : Breaker → Breaker
record_success b = at_rest

-- How a request went: an answer with its status, a network error or timeout, or an exception
-- that `_request` does not catch, such as the cancellation of its task.
pub data Outcome : Type 0 where
  replied : ℕ → Outcome
  http_error abandoned : Outcome

-- The breaker, and how many requests are out.
pub record Line : Type 0 where
  pub breaker : Breaker
  pub in_flight : ℕ

-- `_failure_threshold` and `_reset_seconds` of the settings, in the ticks of the clock.
abbrev pub failure_threshold : ℕ → ℕ
failure_threshold setting = max 1 setting

module _ (setting reset_ticks : ℕ) where
  pub allow : ℕ → Breaker → Bool × Breaker
  allow now b = elim b.state [
    | shut ↦ (true, b)
    | open_circuit ↦
        if leb reset_ticks (now - b.opened_at)
        then (true, record b { state = half_open; probing = true })
        else (false, b)
    | half_open ↦ if b.probing then (false, b) else (true, record b { probing = true })
  ]

  abbrev pub count_failure : ℕ → Breaker → Breaker
  count_failure now b =
      if leb (failure_threshold setting) (b.failures + 1)
      then record b { failures = b.failures + 1; state = open_circuit; opened_at = now }
      else record b { failures = b.failures + 1 }

  pub record_failure : ℕ → Breaker → Breaker
  record_failure now b = elim b.state [
    | half_open ↦ record b { state = open_circuit; probing = false; opened_at = now }
    | shut ↦ count_failure now b
    | open_circuit ↦ count_failure now b
  ]

  pub report : ℕ → Outcome → Breaker → Breaker
  report now (replied status) b = if leb 500 status then record_failure now b else record_success b
  report now http_error b = record_failure now b
  report now abandoned b = b

  -- `_request` gives up the task between its two parts, so those of several requests interleave:
  -- `begin_request` asks whether it may send, and `end_request` reports what became of one that is
  -- out. With none out there is nothing to report.
  pub begin_request : ℕ → Line → Bool × Line
  begin_request now l =
      let (sent, b) = allow now l.breaker in
      (sent, record { breaker = b; in_flight = if sent then l.in_flight + 1 else l.in_flight })

  pub end_request : ℕ → Outcome → Line → Line
  end_request now outcome l = elim l.in_flight [
    | zero ↦ l
    | suc n ↦ record { breaker = report now outcome l.breaker; in_flight = n }
  ]
