-- ===== src/Qa/Expiry/Drain.antt =====
-- The expiry task ends, and leaves no expired bounty (app/modules/qa/tasks.py).
use lkm_service.Qa.Runs.{expire-keeps, at_time, unique_keys-IsKept}
use lkm_service.Qa.Runs.Escrow.References.{settled_shut}
use lkm_service.Prelude.Exec.{Returns, Result, both-Returns, ok, err, atomic-Returns, atomic-err}
use lkm_service.Qa.Expiry.{finished, raised_by, expire_qa_bounties, one_round}
use lkm_service.Qa.Service.Due.{
  due_rows-HasUniqueKeys, ordered-HasUniqueKeys, due_rows_complete, lookup-ordered,
}
use lkm_service.Qa.Expiry.Rounds.{openness, Settling-openness, Settling-lookup, settled_to}
use lkm_service.Qa.Runs.Escrow.{weigh}
use lkm_service.Qa.Service.Expiring.{IsExpiry, expire_due_questions-IsExpiry}
use lkm_service.Qa.Service.{
  bump_qa, is_due, settled, due_rows, expired_for_update, ordered, expire_due_questions,
}
use lkm_service.Prelude.Keys.{HasUniqueKeys, take_all, take-HasUniqueKeys}
use lkm_service.Prelude.Dict.{Dict, lookup}
use lkm_service.Qa.{Question, Forum, is_open, QaErr}
use lkm_service.Qa.Expiry.{Ended, raised_by, batch}
use lkm_service.Prelude.{
  ◌<◌, ◌∙◌, ℕ, none, refl, take, length, some, Bool, ap, nat_key, inr, Option, ◌≤◌, true, sym, ◌+◌,
  Bool-cases, ◌≡◌, zero, arith, text_key, String, suc, inl, false, ltb, if◌then◌else◌, length-take,
  tests,
}

-- No open question has a bounty that is past its time at `t`.
abbrev pub HasNoneDue : ℕ → Forum → Type 0
HasNoneDue t f = (k : ℕ) (q : Question) → lookup k f.questions ≡ some q → is_due t q ≡ false

settled_to-none :
    (q : Question) (o b : Option Question)
    → settled_to o b ≡ some q
    → is_open q.status ≡ true
    → o ≡ none
settled_to-none q none b h p = refl
settled_to-none q (some r) b h p =
    let it : settled r ≡ q = cc h in absurd (settled_shut r (ap (λ x. is_open x.status) it ∙ p))

bump_if-questions : (c : Bool) (f : Forum) → (if c then bump_qa f else f).questions ≡ f.questions
bump_if-questions true f = refl
bump_if-questions false f = refl

take_few : (d : Dict ℕ Question) → length (take batch d) < batch → take batch d ≡ d
take_few d h = take_all batch d (omega (arith, h, length-take batch d))

module _ (uuid_text : ℕ → String) where
  record IsRound (now : ℕ) (f : Forum) (count : ℕ) (g : Forum) : Type 0 where
    unique : HasUniqueKeys g.questions
    progress : weigh openness g.questions + count ≡ weigh openness f.questions
    drained : count < batch → HasNoneDue now g

  Expiry-IsRound :
      (f : Forum) (count : ℕ) (g : Forum)
      → HasUniqueKeys f.questions
      → HasUniqueKeys g.questions
      → IsExpiry uuid_text batch f count g
      → IsRound f.books.now f count g
  Expiry-IsRound f count g u v h =
      let now = f.books.now in
      let due = due_rows now f.questions in
      let rows = expired_for_update now batch f.questions in
      let due_unique = due_rows-HasUniqueKeys now f.questions u in
      let rows_unique =
        take-HasUniqueKeys batch (ordered due) (ordered-HasUniqueKeys due due_unique) in
      let same : g.questions ≡ h.after.questions =
        rw h.forum_after (bump_if-questions (ltb 0 count) h.after) in
      record {
        unique = v;
        progress = rw (same, h.count) (Settling-openness uuid_text h.settling);
        drained = λ few k q it. elim (Bool-cases (is_due now q)) [
          | inr late ↦ late
          | inl is_late ↦
              let change = Settling-lookup uuid_text k rows_unique h.settling in
              let found : settled_to (lookup k rows) (lookup k f.questions) ≡ some q =
                sym change ∙ rw (← same) it in
              let open_ : is_open q.status ≡ true = ground (arith, is_late) in
              let missed : lookup k rows ≡ none =
                settled_to-none q (lookup k rows) (lookup k f.questions) found open_ in
              let before : lookup k f.questions ≡ some q = rw missed at found in
              let all_rows : rows ≡ ordered due = take_few (ordered due) (rw h.count at few) in
              let listed = due_rows_complete now k q f.questions before is_late in
              absurd (cc (missed, ap (lookup k) all_rows, lookup-ordered k due due_unique, listed))
        ];
      }

  expire-HasUniqueKeys :
      (f : Forum)
      → HasUniqueKeys f.questions
      → Returns (λ _ g. HasUniqueKeys g.questions) (expire_due_questions uuid_text batch f)
  expire-HasUniqueKeys f u = expire-keeps uuid_text (unique_keys-IsKept uuid_text) batch f u u

  expire_due_questions-IsRound :
      (f : Forum)
      → HasUniqueKeys f.questions
      → Returns (IsRound f.books.now f) (expire_due_questions uuid_text batch f)
  expire_due_questions-IsRound f u =
      both-Returns (λ _ g. HasUniqueKeys g.questions) (IsExpiry uuid_text batch f)
        (IsRound f.books.now f) (expire_due_questions uuid_text batch f)
        (λ count g v h. Expiry-IsRound f count g u v h) (expire-HasUniqueKeys f u)
        (expire_due_questions-IsExpiry uuid_text batch f u)

  full_round :
      (now fuel count : ℕ) (f g : Forum)
      → IsRound now f count g
      → ltb count batch ≡ false
      → weigh openness f.questions < suc fuel
      → weigh openness g.questions < fuel
  full_round now fuel count f g h full enough =
      let many : 100 ≤ count = ground arith in omega (arith, h.progress, many, enough)

  module _ (clock : ℕ → ℕ) where
    -- What a run from the round `i` does: full rounds one after another, each at its own reading of
    -- the clock, and a last one. The last round was not full and leaves nothing due at its time, or
    -- it raised and left the forum as it was, but for the clock.
    pub data EndsWell : ℕ → Forum → Ended × Forum → Type 0 where
      drained :
          {i count : ℕ} {f g : Forum}
          → one_round uuid_text clock i f ≡ (ok count, g)
          → count < batch
          → HasNoneDue (clock i) g
          → EndsWell i f (finished, g)
      rolled_back :
          {i : ℕ} {e : QaErr} {f g : Forum}
          → one_round uuid_text clock i f ≡ (err e, g)
          → g ≡ at_time (clock i) f
          → EndsWell i f (raised_by e, g)
      next_round :
          {i count : ℕ} {f g : Forum} {last : Ended × Forum}
          → one_round uuid_text clock i f ≡ (ok count, g)
          → batch ≤ count
          → EndsWell (i + 1) g last
          → EndsWell i f last

    -- With more fuel than there are open questions, the task ends after finitely many rounds, each
    -- of which reads the clock anew: all but the last settle a hundred bounties or more, and the
    -- last one leaves no open question with a bounty that is past its time at the reading of that
    -- round, or it raised and was rolled back.
    pub expire_qa_bounties_ends :
        (fuel i : ℕ) (f : Forum)
        → HasUniqueKeys f.questions
        → weigh openness f.questions < fuel
        → EndsWell i f (expire_qa_bounties uuid_text clock fuel i f)
    unfolding expire_qa_bounties
    expire_qa_bounties_ends zero i f u enough = absurd (omega (arith, enough))
    expire_qa_bounties_ends (suc fuel) i f u enough =
        let f' = at_time (clock i) f in
        go (one_round uuid_text clock i f) refl
          (atomic-Returns (IsRound (clock i) f') (expire_due_questions uuid_text batch) f'
            (expire_due_questions-IsRound f' u))
          (λ g v less. expire_qa_bounties_ends fuel (i + 1) g v less)
      where
        go :
            (p : Result QaErr ℕ × Forum)
            → one_round uuid_text clock i f ≡ p
            → Returns (IsRound (clock i) (at_time (clock i) f)) p
            → ((g : Forum)
                → HasUniqueKeys g.questions
                → weigh openness g.questions < fuel
                → EndsWell (i + 1) g (expire_qa_bounties uuid_text clock fuel (i + 1) g))
            → EndsWell i f (elim p.0 [
              | ok count ↦
                  if ltb count batch
                  then (finished, p.1)
                  else expire_qa_bounties uuid_text clock fuel (i + 1) p.1
              | err e ↦ (raised_by e, p.1)
            ])
        go (err e, g) it h rest =
            rolled_back it
              (atomic-err (expire_due_questions uuid_text batch) (at_time (clock i) f) g e it)
        go (ok count, g) it h rest = elim (Bool-cases (ltb count batch)) [
          | inl few ↦ rw few (drained it (omega (tests, few)) (h.drained (omega (tests, few))))
          | inr full ↦ rw full (
              next_round it (ground (arith, full)) (
                rest g h.unique
                  (full_round (clock i) fuel count (at_time (clock i) f) g h full enough)))
        ]
