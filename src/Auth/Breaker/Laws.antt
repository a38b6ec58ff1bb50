-- ===== src/Auth/Breaker/Laws.antt =====
-- What the breaker lets through (auth/circuit_breaker.py, auth/user_http.py).
use lkm_service.Auth.Breaker.{
  shut, open_circuit, half_open, replied, http_error, abandoned, failure_threshold, count_failure,
  at_rest,
}
use lkm_service.Auth.Breaker.{
  Line, begin_request, end_request, report, Outcome, Breaker, half_open, replied, record_failure,
  allow, open_circuit, abandoned,
}
use lkm_service.Prelude.{
  false, [], All, ◌∷◌, leb, ℕ, refl, ◌<◌, ◌+◌, some, nat_key, if◌then◌else◌, ◌∙◌, Option, ◌-◌, Bool,
  ◌≤◌, text_key, arith, ◌≡◌, true, length, ap, List, inl, inr, none, Bool-cases,
}

-- A request and its two readings of the clock.
abbrev pub Call : Type 0
Call = ℕ × (ℕ × Outcome)

unfoldable pub IsFailing : Outcome → Type 0
IsFailing (replied status) = 500 ≤ status
IsFailing http_error = Unit
IsFailing abandoned = ⊥

module _ (setting reset_ticks : ℕ) where
  -- A request whose answer comes before another one begins: whether it was sent, and the breaker.
  pub request : ℕ → ℕ → Outcome → Breaker → Bool × Breaker
  request now later outcome b =
      let (sent, b') = allow setting reset_ticks now b in
      (sent, if sent then report setting reset_ticks later outcome b' else b')

  -- It is the two parts of a request, one after the other.
  pub request_parts :
      (now later : ℕ) (outcome : Outcome) (b : Breaker)
      → let start = begin_request setting reset_ticks now (record { breaker = b; in_flight = 0 }) in
        let done = end_request setting reset_ticks later outcome start.1 in
        (start.0, done.breaker) ≡ request now later outcome b
  unfolding request begin_request end_request
  request_parts now later outcome b = elim (Bool-cases (allow setting reset_ticks now b).0) [
    | inl on ↦ rw on refl
    | inr off ↦ rw off refl
  ]

  -- How many of the requests were sent.
  pub sent_of : List Call → Breaker → ℕ
  sent_of [] b = 0
  sent_of ((now, (later, outcome)) ∷ calls) b =
      let (sent, b') = request now later outcome b in (if sent then 1 else 0) + sent_of calls b'

  pub after_calls : List Call → Breaker → Breaker
  after_calls [] b = b
  after_calls ((now, (later, outcome)) ∷ calls) b =
      after_calls calls (request now later outcome b).1

  -- A part of some request: the clock, and for its end what became of it.
  pub run_part : ℕ × Option Outcome → Line → Bool × Line
  run_part (now, none) l = begin_request setting reset_ticks now l
  run_part (now, some outcome) l = (false, end_request setting reset_ticks now outcome l)

  -- How many requests are sent in the course of these parts, and where they lead.
  pub sent_in : List (ℕ × Option Outcome) → Line → ℕ
  sent_in [] l = 0
  sent_in (part ∷ parts) l =
      let (sent, l') = run_part part l in (if sent then 1 else 0) + sent_in parts l'

  pub after_parts : List (ℕ × Option Outcome) → Line → Line
  after_parts [] l = l
  after_parts (part ∷ parts) l = after_parts parts (run_part part l).1

  abbrev pub waiting : ℕ → ℕ → Line
  waiting failures opened_at = record {
    breaker = record {
      state = half_open;
      failures = failures;
      opened_at = opened_at;
      probing = true;
    };
    in_flight = 0;
  }

  waiting_part :
      (part : ℕ × Option Outcome) (n t : ℕ) → run_part part (waiting n t) ≡ (false, waiting n t)
  unfolding run_part begin_request end_request allow
  waiting_part (now, none) n t = refl
  waiting_part (now, some outcome) n t = refl

  -- While a probe is unreported and no other request is out, nothing is sent and nothing changes.
  pub waiting_blocks :
      (parts : List (ℕ × Option Outcome)) (n t : ℕ)
      → (sent_in parts (waiting n t) ≡ 0) × (after_parts parts (waiting n t) ≡ waiting n t)
  unfolding sent_in after_parts
  waiting_blocks [] n t = (refl, refl)
  waiting_blocks (part ∷ parts) n t =
      let rest = waiting_blocks parts n t in
      rw (waiting_part part n t) (omega (arith, rest.0), rest.1)

  -- No request is out, and a probe is sent from an open circuit that has cooled down and is
  -- abandoned: in the course of any later beginnings and ends of requests, however they interleave
  -- and whatever the time, none is sent, and the breaker keeps waiting for the probe.
  pub abandoned_probe :
      (now later : ℕ) (parts : List (ℕ × Option Outcome)) (b : Breaker)
      → b.state ≡ open_circuit
      → reset_ticks ≤ now - b.opened_at
      → let probe = begin_request setting reset_ticks now (record { breaker = b; in_flight = 0 }) in
        let l = end_request setting reset_ticks later abandoned probe.1 in
        (probe.0 ≡ true)
        × ((sent_in parts l ≡ 0) × (after_parts parts l ≡ waiting b.failures b.opened_at))
  unfolding begin_request end_request allow report
  abandoned_probe now later parts b opened cooled =
      let p : leb reset_ticks (now - b.opened_at) ≡ true = ground arith in
      rw (opened, p) (refl, waiting_blocks parts b.failures b.opened_at)

  -- Nothing is sent through an open circuit before it has cooled down.
  cooling_refuses :
      (now later : ℕ) (outcome : Outcome) (b : Breaker)
      → b.state ≡ open_circuit
      → now - b.opened_at < reset_ticks
      → request now later outcome b ≡ (false, b)
  unfolding request allow
  cooling_refuses now later outcome b opened hot =
      let p : leb reset_ticks (now - b.opened_at) ≡ false = ground arith in rw (opened, p) refl

  failing_report :
      (now : ℕ) (outcome : Outcome) (b : Breaker)
      → IsFailing outcome
      → report setting reset_ticks now outcome b ≡ record_failure setting reset_ticks now b
  unfolding report IsFailing
  failing_report now (replied status) b h =
      let p : leb 500 status ≡ true = ground arith in rw p refl
  failing_report now http_error b h = refl
  failing_report now abandoned b h = absurd h

  abbrev pub AllFail : List Call → Type 0
  AllFail calls = All (λ c. IsFailing c.1.1) calls

  abbrev threshold : ℕ
  threshold = failure_threshold setting

  allow_shut :
      (now : ℕ) (b : Breaker) → b.state ≡ shut → allow setting reset_ticks now b ≡ (true, b)
  unfolding allow
  allow_shut now b closed = rw closed refl

  failure_shut :
      (now : ℕ) (b : Breaker)
      → b.state ≡ shut
      → record_failure setting reset_ticks now b ≡ count_failure setting reset_ticks now b
  unfolding record_failure
  failure_shut now b closed = rw closed refl

  one_more :
      (now later : ℕ) (outcome : Outcome) (b : Breaker)
      → b.state ≡ shut
      → IsFailing outcome
      → request now later outcome b ≡ (true, count_failure setting reset_ticks later b)
  unfolding request
  one_more now later outcome b closed fails =
      rw (allow_shut now b closed)
        (ap (λ x. (true, x)) (failing_report later outcome b fails ∙ failure_shut later b closed))

  below :
      (later : ℕ) (b : Breaker)
      → b.failures + 1 < threshold
      → count_failure setting reset_ticks later b ≡ record b { failures = b.failures + 1 }
  below later b few = let p : leb threshold (b.failures + 1) ≡ false = ground arith in rw p refl

  counting :
      (calls : List Call) (b : Breaker)
      → b.state ≡ shut
      → AllFail calls
      → b.failures + length calls < threshold
      → ((after_calls calls b).state ≡ shut)
        × (((after_calls calls b).failures ≡ b.failures + length calls)
            × (sent_of calls b ≡ length calls))
  unfolding after_calls sent_of
  counting [] b closed fail few = (closed, (omega arith, refl))
  counting ((now, (later, outcome)) ∷ calls) b closed fail few =
      let b' = record b { failures = b.failures + 1 } in
      let step =
        one_more now later outcome b closed fail.0
        ∙ ap (λ x. (true, x)) (below later b (omega (arith, few))) in
      let on = ap (λ p. after_calls calls p.1) step in
      let sent = ap (λ p. (if p.0 then 1 else 0) + sent_of calls p.1) step in
      let rest = counting calls b' closed fail.1 (omega (arith, few)) in
      (
        ap (λ c. c.state) on ∙ rest.0,
        (omega (arith, ap (λ c. c.failures) on, rest.1.0), omega (arith, sent, rest.1.1)),
      )

  -- From rest, as many failing requests in a row as the threshold says open the circuit, all of
  -- them were sent, and before the last of them it is closed.
  pub threshold_opens :
      (calls : List Call) (now later : ℕ) (outcome : Outcome)
      → AllFail calls
      → IsFailing outcome
      → length calls + 1 ≡ failure_threshold setting
      → let b = after_calls calls at_rest in
        let r = request now later outcome b in
        (b.state ≡ shut)
        × ((sent_of calls at_rest ≡ length calls)
            × ((r.0 ≡ true) × ((r.1.state ≡ open_circuit) × (r.1.opened_at ≡ later))))
  threshold_opens calls now later outcome fail last enough =
      let c = counting calls at_rest refl fail (omega (arith, enough)) in
      let b = after_calls calls at_rest in
      let p : leb threshold (b.failures + 1) ≡ true = ground (arith, c.1.0, enough) in
      (c.0, (c.1.1, rw (one_more now later outcome b c.0 last) (rw p (refl, (refl, refl)))))
