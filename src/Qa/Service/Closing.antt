-- ===== src/Qa/Service/Closing.antt =====
-- What closing a question has done, the acceptance before it included (app/modules/qa/service.py).
use lkm_service.Qa.Service.Outcome.{Settled, settle_question-Settled}
use lkm_service.Qa.Service.Calls.{Accepting, accept_answer-Accepting}
use lkm_service.Prelude.Dict.{lookup}
use lkm_service.Qa.{Forum, Question, is_open, question_not_found, not_asker, question_not_open}
use lkm_service.Qa.Service.{
  close_question, accept_first, is_answer, load_question, accept_answer, bump_qa, settle_question,
}
use lkm_service.Prelude.{
  ℕ, ◌≡◌, refl, inl, inr, true, Option, none, some, String, ◌==◌, nat_key, text_key, Bool-cases,
  Option-cases, nat_eqb_iff,
}
use lkm_service.Prelude.Exec.{
  ◌>>=◌, ◌>>◌, bind-Returns, weaken-Returns, Returns, raised-Returns, returned-Returns,
  same-Returns, modify,
}

module _ (uuid_text : ℕ → String) where
  -- Before a question closes, an answer may have been accepted; the question is read accepted_before.
  pub data Preparing (id asker : ℕ) (f : Forum) : Question → Forum → Type 0 where
    untouched :
        {q : Question} {g : Forum}
        → lookup id f.questions ≡ some q
        → g ≡ f
        → Preparing id asker f q g
    accepted_now :
        {q : Question} {g : Forum} (answer_id : ℕ)
        → Accepting uuid_text id answer_id asker f g
        → lookup id g.questions ≡ some q
        → Preparing id asker f q g

  pub load_question-lookup :
      (id : ℕ) (f : Forum)
      → Returns (λ q g. (lookup id f.questions ≡ some q) × (g ≡ f)) (load_question id f)
  load_question-lookup id f = elim (Option-cases (lookup id f.questions)) [
    | inl e ↦
        raised-Returns (λ q g. (lookup id f.questions ≡ some q) × (g ≡ f)) (load_question id f)
          question_not_found f (rw (e, ◌>>=◌) refl)
    | inr (q, e) ↦
        returned-Returns (λ q g. (lookup id f.questions ≡ some q) × (g ≡ f)) (load_question id f) q
          f (rw (e, ◌>>=◌) refl) (e, refl)
  ]

  pub accept_first-Preparing :
      (id asker : ℕ) (wanted : Option ℕ) (f : Forum) (q : Question)
      → lookup id f.questions ≡ some q
      → Returns (Preparing id asker f) (accept_first uuid_text id q wanted asker f)
  unfolding accept_first
  accept_first-Preparing id asker none f q e = untouched e refl
  accept_first-Preparing id asker (some answer_id) f q e =
      elim (Bool-cases (is_answer q.accepted_answer_id answer_id)) [
        | inl same ↦ rw same (untouched e refl)
        | inr other ↦ rw other (
            bind-Returns (λ _ g. Accepting uuid_text id answer_id asker f g) (Preparing id asker f)
              (accept_answer uuid_text id answer_id asker) (λ _. load_question id) f
              (accept_answer-Accepting uuid_text id answer_id asker f)
              (λ _ g h.
                weaken-Returns (λ q' g'. (lookup id g.questions ≡ some q') × (g' ≡ g))
                  (Preparing id asker f) (load_question id g)
                  (λ q' g' r. accepted_now answer_id (rw r.1 h) (rw r.1 r.0))
                  (load_question-lookup id g)))
      ]

  -- A question has been closed.
  pub record IsClosing (id asker : ℕ) (f g : Forum) : Type 0 where
    pub question : Question
    pub row : lookup id f.questions ≡ some question
    pub own : question.author ≡ asker
    pub opened_before : is_open question.status ≡ true
    pub reloaded : Question
    pub between : Forum
    pub before : Preparing id asker f reloaded between
    pub after : Forum
    pub settlement : Settled uuid_text id reloaded between tt after
    pub forum_after : g ≡ bump_qa after

  pub close_question-IsClosing :
      (id asker : ℕ) (wanted : Option ℕ) (f : Forum)
      → Returns (λ _ g. IsClosing id asker f g) (close_question uuid_text id asker wanted f)
  unfolding close_question
  close_question-IsClosing id asker wanted f = elim (Option-cases (lookup id f.questions)) [
    | inl e ↦
        raised-Returns (λ _ g. IsClosing id asker f g) (close_question uuid_text id asker wanted f)
          question_not_found f (rw (e, ◌>>=◌) refl)
    | inr (q, e) ↦ elim (Bool-cases (q.author == asker)) [
      | inr own ↦
          raised-Returns (λ _ g. IsClosing id asker f g)
            (close_question uuid_text id asker wanted f) not_asker f (rw (e, ◌>>=◌, own) refl)
      | inl own ↦ elim (Bool-cases (is_open q.status)) [
        | inr shut ↦
            raised-Returns (λ _ g. IsClosing id asker f g)
              (close_question uuid_text id asker wanted f) question_not_open f
              (rw (e, ◌>>=◌, own, shut) refl)
        | inl open_ ↦
            same-Returns (λ _ g. IsClosing id asker f g)
              (close_question uuid_text id asker wanted f)
              ((accept_first uuid_text id q wanted asker >>= λ r.
                  settle_question uuid_text id r >> modify bump_qa)
                f)
              (rw (e, ◌>>=◌, own, open_) refl)
              (bind-Returns (Preparing id asker f) (λ _ g. IsClosing id asker f g)
                (accept_first uuid_text id q wanted asker)
                (λ r. settle_question uuid_text id r >> modify bump_qa) f
                (accept_first-Preparing id asker wanted f q e)
                (λ r g before.
                  bind-Returns (Settled uuid_text id r g) (λ _ g. IsClosing id asker f g)
                    (settle_question uuid_text id r) (λ _. modify bump_qa) g
                    (settle_question-Settled uuid_text id r g)
                    (λ _ t settlement. record {
                      question = q;
                      row = e;
                      own = (nat_eqb_iff q.author asker).0 own;
                      opened_before = open_;
                      reloaded = r;
                      between = g;
                      before = before;
                      after = t;
                      settlement = settlement;
                      forum_after = refl;
                    })))
      ]
    ]
  ]
