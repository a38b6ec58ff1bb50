-- ===== src/Qa/Runs/Absorbing.antt =====
-- A settled question and its answers stay as they are (app/modules/qa/service.py).
use lkm_service.Qa.Service.Calls.{new_answer}
use lkm_service.Qa.Service.Outcome.{with_accepted}
use lkm_service.Qa.Service.{new_question, settled}
use lkm_service.Prelude.Dict.{lookup, insert, lookup-insert, Dict}
use lkm_service.Prelude.Keys.{HasUniqueKeys}
use lkm_service.Qa.Runs.{Op, IsKept, run_all, run_all-keeps}
use lkm_service.Qa.{Question, is_open, Forum, Answer}
use lkm_service.Prelude.{
  ◌∙◌, false, nat_key, true, ℕ, some, ◌==◌, Bool-cases, text_key, arith, String, none, inr, keep,
  nat_eqb_iff, sym, inl, ◌≡◌, List, refl, ap, [], ◌∷◌,
}

-- The answers to a question, with the ids of their rows.
abbrev pub answers_of : ℕ → Dict ℕ Answer → Dict ℕ Answer
answers_of k d = keep (λ r. r.1.question_id == k) d

answers_of-insert_new :
    (k j : ℕ) (a : Answer) (d : Dict ℕ Answer)
    → lookup j d ≡ none
    → (a.question_id == k) ≡ false
    → answers_of k (insert j a d) ≡ answers_of k d
unfolding lookup insert
answers_of-insert_new k j a [] free other = rw other refl
answers_of-insert_new k j a ((i, b) ∷ d) free other = elim (Bool-cases (i == j)) [
  | inl same ↦ absurd (cc (rw same at free))
  | inr next ↦
      let rest = answers_of-insert_new k j a d (rw next at free) other in
      elim (Bool-cases (b.question_id == k)) [
        | inl mine ↦ rw next (rw mine (ap (λ l. (i, b) ∷ l) rest))
        | inr not_mine ↦ rw next (rw not_mine rest)
      ]
]

answers_of-insert_old :
    (k j : ℕ) (a b : Answer) (d : Dict ℕ Answer)
    → lookup j d ≡ some b
    → (b.question_id == k) ≡ false
    → (a.question_id == k) ≡ false
    → answers_of k (insert j a d) ≡ answers_of k d
unfolding lookup insert
answers_of-insert_old k j a b [] found old other = absurd (cc found)
answers_of-insert_old k j a b ((i, c) ∷ d) found old other = elim (Bool-cases (i == j)) [
  | inl same ↦
      let it : c ≡ b = cc (rw same at found) in
      let not_mine : (c.question_id == k) ≡ false = rw it old in rw same (rw (other, not_mine) refl)
  | inr next ↦
      let rest = answers_of-insert_old k j a b d (rw next at found) old other in
      elim (Bool-cases (c.question_id == k)) [
        | inl mine ↦ rw next (rw mine (ap (λ l. (i, c) ∷ l) rest))
        | inr not_mine ↦ rw next (rw not_mine rest)
      ]
]

module _ (uuid_text : ℕ → String) (k : ℕ) (s : Question) (shut : is_open s.status ≡ false) where
  -- A change of an open question is a change of another one.
  other_row :
      (id : ℕ) (q r : Question) (f : Forum)
      → lookup id f.questions ≡ some q
      → is_open q.status ≡ true
      → lookup k f.questions ≡ some s
      → lookup k (insert id r f.questions) ≡ some s
  other_row id q r f row o p = elim (Bool-cases (id == k)) [
    | inl same ↦
        let e : id ≡ k = (nat_eqb_iff id k).0 same in
        let it : some q ≡ some s = sym row ∙ rw e p in absurd (ground (arith, it, o, shut))
    | inr other ↦ lookup-insert id k r f.questions ∙ rw other p
  ]

  -- An open question is not the settled one.
  other_question :
      (id : ℕ) (q : Question) (f : Forum)
      → lookup id f.questions ≡ some q
      → is_open q.status ≡ true
      → lookup k f.questions ≡ some s
      → (id == k) ≡ false
  other_question id q f row o p = elim (Bool-cases (id == k)) [
    | inl same ↦
        let e : id ≡ k = (nat_eqb_iff id k).0 same in
        let it : some q ≡ some s = sym row ∙ rw e p in absurd (ground (arith, it, o, shut))
    | inr other ↦ other
  ]

  settled-IsKept :
      (old : Dict ℕ Answer)
      → IsKept uuid_text (λ f. (lookup k f.questions ≡ some s) × (answers_of k f.answers ≡ old))
  settled-IsKept old = record {
    by_creation = λ id author info f g c p. rw c.forum_after (
      lookup-insert id k (new_question author info f.books.now) f.questions
          ∙ elim (Bool-cases (id == k)) [
            | inl same ↦
                let e : id ≡ k = (nat_eqb_iff id k).0 same in
                absurd (cc (c.unused, rw (← e) at (p.0)))
            | inr other ↦ rw other (p.0)
          ],
      p.1,
    );
    by_reply = λ answer_id id author content f g r p. rw r.forum_after (
      p.0,
      answers_of-insert_new k answer_id (new_answer id author content) f.answers r.unused
            (other_question id r.question f r.row r.is_opened (p.0))
          ∙ p.1,
    );
    by_acceptance = λ id answer_id asker q a f g row o r mine was h p.
        let apart = other_question id q f row o (p.0) in
        rw h.forum_after (
          other_row id q (with_accepted answer_id q) f row o (p.0),
          answers_of-insert_old k answer_id (record a { is_accepted = true }) a f.answers r
                (rw mine apart) (rw mine apart)
              ∙ p.1,
        );
    by_settlement = λ id q f g row o h p. rw h.1 (other_row id q (settled q) f row o (p.0), p.1);
    by_bump = λ f p. p;
    by_time = λ t f p. p;
  }

-- Once a question is accepted or closed, no sequence of requests and expiry rounds changes its row
-- or its answers: its status and what it paid stay, no answer to it is added, and none is accepted.
pub run_all_settled :
    (uuid_text : ℕ → String) (id : ℕ) (q : Question) (ops : List Op) (f : Forum)
    → HasUniqueKeys f.questions
    → lookup id f.questions ≡ some q
    → is_open q.status ≡ false
    → let g = run_all uuid_text ops f in
      (lookup id g.questions ≡ some q) × (answers_of id g.answers ≡ answers_of id f.answers)
run_all_settled uuid_text id q ops f u row shut =
    run_all-keeps uuid_text (settled-IsKept uuid_text id q shut (answers_of id f.answers)) ops f u
      (row, refl)
