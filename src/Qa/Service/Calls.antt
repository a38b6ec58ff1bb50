-- ===== src/Qa/Service/Calls.antt =====
-- What a whole call that returns has done to the forum (app/modules/qa/service.py).

use lkm_service.Prelude.Exec.{◌>>=◌}
use lkm_service.Prelude.Exec.{
  bind-Returns, weaken-Returns, raised-Returns, returned-Returns, same-Returns, ◌>>=◌,
}
use lkm_service.Qa.Service.Outcome.{
  IsEscrow, IsAccepted, Held, accept_open-IsAccepted, hold_escrow-Held,
}
use lkm_service.Points.{Books}
use lkm_service.Prelude.Exec.{Returns, bind-Returns, weaken-Returns, modify}
use lkm_service.Prelude.Dict.{lookup}
use lkm_service.Qa.{
  QuestionCreate, Answer, Forum, Question, is_open, question_not_found, answer_not_found,
  self_answer_forbidden, not_asker, question_not_open, bounty_expired, key_in_use,
}
use lkm_service.Qa.Service.{
  create_answer, accept_loaded, accept_answer, create_question, put_question, bump_qa, put_answer,
  has_expired, new_question, publish, accept_open, hold_escrow,
}
use lkm_service.Prelude.{
  ℕ, ◌*◌, ◌≡◌, refl, sym, ap, ◌≢◌, inl, inr, true, false, Option, none, some, String, ◌==◌, nat_key,
  text_key, Bool-cases, Option-cases, is_some, nat_eqb_iff,
}

pub record IsCreation (uuid_text : ℕ → String) (id author : ℕ) (info : QuestionCreate) (f g : Forum)
    : Type 0 where
  pub unused : lookup id f.questions ≡ none
  pub books_after : Books
  pub escrow :
      IsEscrow author
        (info.bounty_people * info.bounty_per_person)
        (uuid_text id)
        f.books
        books_after
  pub forum_after :
      g
      ≡ publish author id (record (put_question id (new_question author info f.books.now) f) {
        books = books_after;
      })

abbrev pub new_answer : ℕ → ℕ → String → Answer
new_answer id author content = record {
  question_id = id;
  author = author;
  content = content;
  is_accepted = false;
}

pub record IsReply (answer_id id author : ℕ) (content : String) (f g : Forum) : Type 0 where
  pub question : Question
  pub row : lookup id f.questions ≡ some question
  pub is_opened : is_open question.status ≡ true
  pub by_other : author ≢ question.author
  pub unused : lookup answer_id f.answers ≡ none
  pub forum_after : g ≡ bump_qa (put_answer answer_id (new_answer id author content) f)

-- Accepting an answer accepted_before changes nothing.
pub data Accepting (uuid_text : ℕ → String) (id answer_id asker : ℕ) (f : Forum)
    : Forum → Type 0 where
  accepted_before : {g : Forum} → g ≡ f → Accepting uuid_text id answer_id asker f g
  accepted_first :
      {g : Forum} (q : Question) (a : Answer)
      → lookup id f.questions ≡ some q
      → q.author ≡ asker
      → is_open q.status ≡ true
      → has_expired f.books.now q ≡ false
      → lookup answer_id f.answers ≡ some a
      → a.question_id ≡ id
      → a.is_accepted ≡ false
      → IsAccepted uuid_text id q answer_id a f g
      → Accepting uuid_text id answer_id asker f g

none_of : {A : Type 0} (o : Option A) → is_some o ≡ false → o ≡ none
none_of none h = refl
none_of (some a) h = absurd (cc h)

pub create_answer-IsReply :
    (answer_id id author : ℕ) (content : String) (f : Forum)
    → Returns
        (λ _ g. IsReply answer_id id author content f g)
        (create_answer answer_id id author content f)
unfolding create_answer
create_answer-IsReply answer_id id author content f = elim (Option-cases (lookup id f.questions)) [
  | inl e ↦
      raised-Returns (λ _ g. IsReply answer_id id author content f g)
        (create_answer answer_id id author content f) question_not_found f (rw (e, ◌>>=◌) refl)
  | inr (q, e) ↦ elim (Bool-cases (q.author == author)) [
    | inl own ↦
        raised-Returns (λ _ g. IsReply answer_id id author content f g)
          (create_answer answer_id id author content f) self_answer_forbidden f
          (rw (e, ◌>>=◌, own) refl)
    | inr own ↦ elim (Bool-cases (is_open q.status)) [
      | inr shut ↦
          raised-Returns (λ _ g. IsReply answer_id id author content f g)
            (create_answer answer_id id author content f) question_not_open f
            (rw (e, ◌>>=◌, own, shut) refl)
      | inl open_ ↦ elim (Bool-cases (has_expired f.books.now q)) [
        | inl late ↦
            raised-Returns (λ _ g. IsReply answer_id id author content f g)
              (create_answer answer_id id author content f) bounty_expired f
              (rw (e, ◌>>=◌, own, open_, late) refl)
        | inr early ↦ elim (Bool-cases (is_some (lookup answer_id f.answers))) [
          | inl used ↦
              raised-Returns (λ _ g. IsReply answer_id id author content f g)
                (create_answer answer_id id author content f) key_in_use f
                (rw (e, ◌>>=◌, own, open_, early, used) refl)
          | inr free ↦
              returned-Returns (λ _ g. IsReply answer_id id author content f g)
                (create_answer answer_id id author content f) tt
                (bump_qa (put_answer answer_id (new_answer id author content) f))
                (rw (e, ◌>>=◌, own, open_, early, free) refl)
                (record {
                  question = q;
                  row = e;
                  is_opened = open_;
                  by_other = λ same. absurd (cc ((nat_eqb_iff q.author author).1 (sym same)));
                  unused = none_of (lookup answer_id f.answers) free;
                  forum_after = refl;
                })
        ]
      ]
    ]
  ]
]

module _ (uuid_text : ℕ → String) where
  pub create_question-IsCreation :
      (id author : ℕ) (info : QuestionCreate) (f : Forum)
      → Returns
          (λ _ g. IsCreation uuid_text id author info f g)
          (create_question uuid_text id author info f)
  unfolding create_question
  create_question-IsCreation id author info f =
      let f' = put_question id (new_question author info f.books.now) f in
      let total = info.bounty_people * info.bounty_per_person in
      elim (Bool-cases (is_some (lookup id f.questions))) [
        | inl used ↦ rw used tt
        | inr free ↦ rw free (
            bind-Returns (Held uuid_text id author total f')
              (λ _ g. IsCreation uuid_text id author info f g)
              (hold_escrow uuid_text id author total) (λ _. modify (publish author id)) f'
              (hold_escrow-Held uuid_text id author total f')
              (λ e g h. record {
                unused = none_of (lookup id f.questions) free;
                books_after = h.0;
                escrow = h.2;
                forum_after = ap (publish author id) h.1;
              }))
      ]

  accept_loaded-Accepting :
      (id answer_id asker : ℕ) (f : Forum) (q : Question)
      → lookup id f.questions ≡ some q
      → q.author ≡ asker
      → is_open q.status ≡ true
      → has_expired f.books.now q ≡ false
      → Returns
          (λ _ g. Accepting uuid_text id answer_id asker f g)
          (accept_loaded uuid_text id q answer_id f)
  unfolding accept_loaded
  accept_loaded-Accepting id answer_id asker f q e own open_ early =
      elim (Option-cases (lookup answer_id f.answers)) [
        | inl r ↦
            raised-Returns (λ _ g. Accepting uuid_text id answer_id asker f g)
              (accept_loaded uuid_text id q answer_id f) answer_not_found f (rw (r, ◌>>=◌) refl)
        | inr (a, r) ↦ elim (Bool-cases (a.question_id == id)) [
          | inr stray ↦
              raised-Returns (λ _ g. Accepting uuid_text id answer_id asker f g)
                (accept_loaded uuid_text id q answer_id f) answer_not_found f
                (rw (r, ◌>>=◌, stray) refl)
          | inl mine ↦ elim (Bool-cases a.is_accepted) [
            | inl was ↦
                returned-Returns (λ _ g. Accepting uuid_text id answer_id asker f g)
                  (accept_loaded uuid_text id q answer_id f) tt f (rw (r, ◌>>=◌, mine, was) refl)
                  (accepted_before refl)
            | inr was ↦
                same-Returns (λ _ g. Accepting uuid_text id answer_id asker f g)
                  (accept_loaded uuid_text id q answer_id f)
                  (accept_open uuid_text id q answer_id a f) (rw (r, ◌>>=◌, mine, was) refl)
                  (weaken-Returns (λ _ g. IsAccepted uuid_text id q answer_id a f g)
                    (λ _ g. Accepting uuid_text id answer_id asker f g)
                    (accept_open uuid_text id q answer_id a f)
                    (λ _ g h.
                      accepted_first q a e own open_ early r ((nat_eqb_iff a.question_id id).0 mine)
                        was h)
                    (accept_open-IsAccepted uuid_text id q answer_id a f))
          ]
        ]
      ]

  pub accept_answer-Accepting :
      (id answer_id asker : ℕ) (f : Forum)
      → Returns
          (λ _ g. Accepting uuid_text id answer_id asker f g)
          (accept_answer uuid_text id answer_id asker f)
  unfolding accept_answer
  accept_answer-Accepting id answer_id asker f = elim (Option-cases (lookup id f.questions)) [
    | inl e ↦
        raised-Returns (λ _ g. Accepting uuid_text id answer_id asker f g)
          (accept_answer uuid_text id answer_id asker f) question_not_found f (rw (e, ◌>>=◌) refl)
    | inr (q, e) ↦ elim (Bool-cases (q.author == asker)) [
      | inr own ↦
          raised-Returns (λ _ g. Accepting uuid_text id answer_id asker f g)
            (accept_answer uuid_text id answer_id asker f) not_asker f (rw (e, ◌>>=◌, own) refl)
      | inl own ↦ elim (Bool-cases (is_open q.status)) [
        | inr shut ↦
            raised-Returns (λ _ g. Accepting uuid_text id answer_id asker f g)
              (accept_answer uuid_text id answer_id asker f) question_not_open f
              (rw (e, ◌>>=◌, own, shut) refl)
        | inl open_ ↦ elim (Bool-cases (has_expired f.books.now q)) [
          | inl late ↦
              raised-Returns (λ _ g. Accepting uuid_text id answer_id asker f g)
                (accept_answer uuid_text id answer_id asker f) bounty_expired f
                (rw (e, ◌>>=◌, own, open_, late) refl)
          | inr early ↦
              same-Returns (λ _ g. Accepting uuid_text id answer_id asker f g)
                (accept_answer uuid_text id answer_id asker f)
                (accept_loaded uuid_text id q answer_id f) (rw (e, ◌>>=◌, own, open_, early) refl)
                (accept_loaded-Accepting id answer_id asker f q e
                  ((nat_eqb_iff q.author asker).0 own) open_ early)
        ]
      ]
    ]
  ]
