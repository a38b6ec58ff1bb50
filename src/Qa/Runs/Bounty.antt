-- ===== src/Qa/Runs/Bounty.antt =====
-- A bounty is paid for each accepted answer, and never beyond what was promised
-- (app/modules/qa/service.py).
use lkm_service.Prelude.Keys.{HasUniqueKeys}
use lkm_service.Qa.Service.Calls.{IsReply, IsCreation, new_answer}
use lkm_service.Qa.Runs.{Op, IsKept, run_all, run_all-keeps}
use lkm_service.Qa.Service.Count.{count_insert_old, count_insert_new}
use lkm_service.Qa.Service.Outcome.{with_accepted, IsAccepted, Settled}
use lkm_service.Prelude.Dict.{
  lookup, insert, lookup-insert, lookup-insert_same, lookup-insert_other,
}
use lkm_service.Qa.Service.{count_accepted, new_question, settled}
use lkm_service.Qa.{Question, Forum, Answer, QuestionCreate}
use lkm_service.Prelude.{
  sym, ◌==◌, inr, String, ◌≤◌, ◌*◌, Bool-cases, ◌-◌, ◌≡◌, refl, nat_eqb_iff, arith, nat_key, true,
  ◌<◌, none, ℕ, false, text_key, ◌∙◌, some, List, ◌+◌, inl,
}

-- What was promised, and what was paid, of one question with `n` accepted answers.
pub record IsPaidFor (n : ℕ) (q : Question) : Type 0 where
  pub promised : q.bounty_total ≡ q.bounty_people * q.bounty_per_person
  pub paid_out : q.bounty_distributed ≡ n * q.bounty_per_person
  pub within : n ≤ q.bounty_people

pub record IsFunded (f : Forum) : Type 0 where
  pub each :
      (id : ℕ) (q : Question)
      → lookup id f.questions ≡ some q
      → IsPaidFor (count_accepted id f.answers) q
  -- a foreign key: no answer belongs to a question that is not there
  pub orphans : (id : ℕ) → lookup id f.questions ≡ none → count_accepted id f.answers ≡ 0

mul_mono : (n m k p : ℕ) → m ≡ n + k → n * p ≤ m * p
mul_mono n m k p e = rw e (omega arith)

pub IsPaidFor-le : (n : ℕ) (q : Question) → IsPaidFor n q → q.bounty_distributed ≤ q.bounty_total
IsPaidFor-le n q h =
    rw (h.promised, h.paid_out)
      (mul_mono n q.bounty_people (q.bounty_people - n) q.bounty_per_person
        (omega (arith, h.within)))

pub next_share :
    (n : ℕ) (q : Question) (answer_id : ℕ)
    → IsPaidFor n q
    → n < q.bounty_people
    → IsPaidFor (n + 1) (with_accepted answer_id q)
next_share n q answer_id h room = record {
  promised = h.promised;
  paid_out = rw h.paid_out (omega arith);
  within = omega (arith, room);
}

module _ (uuid_text : ℕ → String) where
  Accepted-each :
      (id answer_id : ℕ) (q : Question) (a : Answer) (f g : Forum)
      → lookup id f.questions ≡ some q
      → lookup answer_id f.answers ≡ some a
      → a.question_id ≡ id
      → a.is_accepted ≡ false
      → IsAccepted uuid_text id q answer_id a f g
      → IsFunded f
      → (k : ℕ) (r : Question) → lookup k g.questions ≡ some r
      → IsPaidFor (count_accepted k g.answers) r
  Accepted-each id answer_id q a f g row there mine was h p k r it =
      let a' : Answer = record a { is_accepted = true } in
      let count = count_insert_old k answer_id a' a f.answers there in
      let found = lookup-insert id k (with_accepted answer_id q) f.questions in
      elim (Bool-cases (id == k)) [
        | inl same ↦
            let e : id ≡ k = (nat_eqb_iff id k).0 same in
            let is_it : with_accepted answer_id q ≡ r =
              cc (rw h.forum_after at it, rw same at found) in
            let more : count_accepted k g.answers ≡ count_accepted id f.answers + 1 =
              rw h.forum_after (ground (arith, count)) in
            rw (more, sym is_it)
              (next_share (count_accepted id f.answers) q answer_id (p.each id q row) h.room)
        | inr other ↦
            let is_it : lookup k f.questions ≡ some r =
              cc (rw h.forum_after at it, rw other at found) in
            let as_many : count_accepted k g.answers ≡ count_accepted k f.answers =
              rw h.forum_after
                (ground (arith, count, nat_eqb_iff a.question_id k, nat_eqb_iff id k)) in
            rw as_many (p.each k r is_it)
      ]

  Accepted-orphans :
      (id answer_id : ℕ) (q : Question) (a : Answer) (f g : Forum)
      → lookup answer_id f.answers ≡ some a
      → a.question_id ≡ id
      → IsAccepted uuid_text id q answer_id a f g
      → IsFunded f
      → (k : ℕ) → lookup k g.questions ≡ none
      → count_accepted k g.answers ≡ 0
  Accepted-orphans id answer_id q a f g there mine h p k free =
      let a' : Answer = record a { is_accepted = true } in
      let count = count_insert_old k answer_id a' a f.answers there in
      let found = lookup-insert id k (with_accepted answer_id q) f.questions in
      elim (Bool-cases (id == k)) [
        | inl same ↦ absurd (cc (rw h.forum_after at free, rw same at found))
        | inr other ↦
            let none_before : lookup k f.questions ≡ none =
              cc (rw h.forum_after at free, rw other at found) in
            rw h.forum_after (
              ground (
                arith,
                count,
                nat_eqb_iff a.question_id k,
                nat_eqb_iff id k,
                p.orphans k none_before,
              ))
      ]

  new_share : (author now : ℕ) (info : QuestionCreate) → IsPaidFor 0 (new_question author info now)
  new_share author now info = record {
    promised = refl;
    paid_out = omega arith;
    within = omega arith;
  }

  pub Creation-IsFunded :
      (id author : ℕ) (info : QuestionCreate) (f g : Forum)
      → IsCreation uuid_text id author info f g
      → IsFunded f
      → IsFunded g
  Creation-IsFunded id author info f g c p =
      let row = new_question author info f.books.now in
      rw c.forum_after (record {
        each = λ k r it. elim (Bool-cases (id == k)) [
          | inl same ↦
              let e : id ≡ k = (nat_eqb_iff id k).0 same in
              let is_it : row ≡ r = cc (it, lookup-insert_same id k row f.questions same) in
              rw (← is_it, ← e, p.orphans id c.unused) (new_share author f.books.now info)
          | inr other ↦ p.each k r (sym (lookup-insert_other id k row f.questions other) ∙ it)
        ];
        orphans = λ k free. elim (Bool-cases (id == k)) [
          | inl same ↦ absurd (cc (free, lookup-insert_same id k row f.questions same))
          | inr other ↦ p.orphans k (sym (lookup-insert_other id k row f.questions other) ∙ free)
        ];
      })

  pub Settled-IsFunded :
      (id : ℕ) (q : Question) (f g : Forum)
      → lookup id f.questions ≡ some q
      → Settled uuid_text id q f tt g
      → IsFunded f
      → IsFunded g
  Settled-IsFunded id q f g row s p = rw s.1 (record {
    each = λ k r it. elim (Bool-cases (id == k)) [
      | inl same ↦
          let e : id ≡ k = (nat_eqb_iff id k).0 same in
          let is_it : settled q ≡ r =
            cc (it, lookup-insert_same id k (settled q) f.questions same) in
          let h = p.each id q row in
          rw (← is_it, ← e)
            (record { promised = h.promised; paid_out = h.paid_out; within = h.within })
      | inr other ↦ p.each k r (sym (lookup-insert_other id k (settled q) f.questions other) ∙ it)
    ];
    orphans = λ k free. elim (Bool-cases (id == k)) [
      | inl same ↦ absurd (cc (free, lookup-insert_same id k (settled q) f.questions same))
      | inr other ↦
          p.orphans k (sym (lookup-insert_other id k (settled q) f.questions other) ∙ free)
    ];
  })

  pub Reply-IsFunded :
      (answer_id id author : ℕ) (content : String) (f g : Forum)
      → IsReply answer_id id author content f g
      → IsFunded f
      → IsFunded g
  Reply-IsFunded answer_id id author content f g r p =
      let a = new_answer id author content in
      let as_many : (k : ℕ)
          → count_accepted k (insert answer_id a f.answers) ≡ count_accepted k f.answers =
        λ k. ground (arith, count_insert_new k answer_id a f.answers r.unused) in
      rw r.forum_after (record {
        each = λ k q it. rw (as_many k) (p.each k q it);
        orphans = λ k free. as_many k ∙ p.orphans k free;
      })

  pub IsFunded-IsKept : IsKept uuid_text IsFunded
  IsFunded-IsKept = record {
    by_creation = λ id author info f g c p. Creation-IsFunded id author info f g c p;
    by_reply =
        λ answer_id id author content f g r p. Reply-IsFunded answer_id id author content f g r p;
    by_acceptance = λ id answer_id asker q a f g row o there mine was h p. record {
      each = Accepted-each id answer_id q a f g row there mine was h p;
      orphans = Accepted-orphans id answer_id q a f g there mine h p;
    };
    by_settlement = λ id q f g row o s p. Settled-IsFunded id q f g row s p;
    by_bump = λ f p. record { each = p.each; orphans = p.orphans };
    by_time = λ t f p. record { each = p.each; orphans = p.orphans };
  }

-- After any sequence of requests and expiry rounds: what a question has paid out is its reward
-- times the number of its accepted answers, these are at most the people it promised, and its
-- bounty is the reward times these people; so no bounty is ever exceeded (`IsPaidFor-le`).
pub run_all-IsFunded :
    (uuid_text : ℕ → String) (ops : List Op) (f : Forum)
    → HasUniqueKeys f.questions
    → IsFunded f
    → IsFunded (run_all uuid_text ops f)
run_all-IsFunded uuid_text ops f u p = run_all-keeps uuid_text (IsFunded-IsKept uuid_text) ops f u p
