-- ===== src/Qa/Service.antt =====
-- The operations on questions (app/modules/qa/service.py and repository.py). A call that raises
-- leaves its writes to the caller's session, which rolls them back (`Exec.atomic`).
pub mod Outcome
pub mod Count
pub mod Calls
pub mod Due
pub mod Expiring
pub mod Closing
use lkm_service.Prelude.Int.{pos}
use lkm_service.Points.Ledger.{spend, reward}
use lkm_service.Points.{PointsErr, Books}
use lkm_service.Prelude.Exec.{
  reads, get_or_raise, Result, Exec, pure, ok, ◌>>◌, ◌>>=◌, err, modify, raise_if, gets,
}
use lkm_service.Prelude.Dict.{Dict, insert, lookup}
use lkm_service.Qa.{
  Answer, Forum, QuestionCreate, Question, opened, is_open, QaErr, accepted, closed, points_error,
  question_not_found, answer_not_found, self_accept_forbidden, question_not_open, not_asker,
  bounty_exhausted, bounty_expired, self_answer_forbidden, key_in_use,
}
use lkm_service.Prelude.{
  ◌&&◌, not, length, String, ◌+◌, is_some, leb, ◌≢◌, max, Option-cases, ◌⊎◌, if◌then◌else◌, All,
  keep, drop, ◌-◌, true, ltb, [], ◌||◌, ◌==◌, zero, inl, Bool-cases, List, ◌<◌, false, subst,
  Option, ◌≤◌, some, ◌∙◌, ◌∷◌, min, none, all, contains, any, ◌↔◌, refl, ◌++◌, inr, take, ap, arith,
  ℕ, nat_key, suc, ◌≡◌, sym, text_key, ◌*◌, map, Bool, nat_eqb,
}
use Prim.Native.String.{◌++◌ as ◌+++◌}

-- A call of the points port, in the same session.
abbrev pub with_books : {A : Type 0} → Exec PointsErr Books A → Exec QaErr Forum A
with_books m f =
    let (r, b) = m f.books in
    elim r [
      | ok a ↦ (ok a, record f { books = b })
      | err e ↦ (err (points_error e), record f { books = b })
    ]

-- A bounty that is due: `bounty_expires_at is not None and bounty_expires_at <= now`.
abbrev pub has_expired : ℕ → Question → Bool
has_expired now q = elim q.bounty_expires_at [ none ↦ false | some t ↦ leb t now ]

abbrev pub microseconds_of_days : ℕ → ℕ
microseconds_of_days d = d * 86400000000

abbrev pub put_question : ℕ → Question → Forum → Forum
put_question id q f = record f { questions = insert id q f.questions }

abbrev pub put_answer : ℕ → Answer → Forum → Forum
put_answer id a f = record f { answers = insert id a f.answers }

-- `bump_collection_version("qa")`
abbrev pub bump_qa : Forum → Forum
bump_qa f = record f { version = f.version + 1 }

abbrev pub bump_if : Bool → Exec QaErr Forum (Unit {0})
bump_if c f = (ok tt, if c then bump_qa f else f)

abbrev pub enqueue_event : ℕ → String → String → Forum → Forum
enqueue_event user type_of ref f = record f { events = f.events ++ (user, type_of, ref) ∷ [] }

abbrev pub new_question : ℕ → QuestionCreate → ℕ → Question
new_question author info now =
    let total = info.bounty_people * info.bounty_per_person in
    record {
      author = author;
      title = info.title;
      situation = info.situation;
      content = info.content;
      category = info.category;
      bounty_people = info.bounty_people;
      bounty_per_person = info.bounty_per_person;
      bounty_total = total;
      bounty_distributed = 0;
      bounty_expires_at =
          if ltb 0 total then some (now + microseconds_of_days info.bounty_days) else none;
      urgent = info.urgent;
      status = opened;
      accepted_answer_id = none;
    }

abbrev pub load_question : ℕ → Exec QaErr Forum Question
load_question id = reads (λ f. get_or_raise question_not_found (lookup id f.questions))

abbrev pub counts_for : ℕ → Answer → Bool
counts_for id a = a.question_id == id && a.is_accepted

-- `QAAnswerRepository.count_accepted`
unfoldable pub count_accepted : ℕ → Dict ℕ Answer → ℕ
count_accepted id [] = 0
count_accepted id ((_, a) ∷ d) =
    if counts_for id a then suc (count_accepted id d) else count_accepted id d

-- The answer with this id, if it belongs to the question.
abbrev pub answer_of : ℕ → Option Answer → Option Answer
answer_of id none = none
answer_of id (some a) = if a.question_id == id then some a else none

abbrev pub load_answer : ℕ → ℕ → Exec QaErr Forum Answer
load_answer id answer_id =
    reads (λ f. get_or_raise answer_not_found (answer_of id (lookup answer_id f.answers)))

unfoldable pub create_answer : ℕ → ℕ → ℕ → String → Exec QaErr Forum (Unit {0})
create_answer new_id id author content = do
  q ← load_question id
  raise_if (q.author == author) self_answer_forbidden
  raise_if (not (is_open q.status)) question_not_open
  now ← gets (λ f. f.books.now)
  raise_if (has_expired now q) bounty_expired
  taken ← gets (λ f. is_some (lookup new_id f.answers))
  raise_if taken key_in_use
  modify (
      put_answer new_id
        (record { question_id = id; author = author; content = content; is_accepted = false }))
  modify bump_qa

abbrev pub settled : Question → Question
settled q = record q { status = if is_some q.accepted_answer_id then accepted else closed }

-- The rows that `expired_for_update` may return, and their order.
abbrev pub is_due : ℕ → Question → Bool
is_due now q = is_open q.status && has_expired now q

unfoldable pub due_rows : ℕ → Dict ℕ Question → Dict ℕ Question
due_rows now [] = []
due_rows now ((id, q) ∷ d) = if is_due now q then (id, q) ∷ due_rows now d else due_rows now d

abbrev pub expiry : Question → ℕ
expiry q = elim q.bounty_expires_at [ none ↦ 0 | some t ↦ t ]

abbrev pub comes_first : ℕ × Question → ℕ × Question → Bool
comes_first (i, p) (j, q) = ltb (expiry p) (expiry q) || (nat_eqb (expiry p) (expiry q) && leb i j)

unfoldable pub place : ℕ × Question → Dict ℕ Question → Dict ℕ Question
place p [] = p ∷ []
place p (q ∷ d) = if comes_first p q then p ∷ q ∷ d else q ∷ place p d

unfoldable pub ordered : Dict ℕ Question → Dict ℕ Question
ordered [] = []
ordered (p ∷ d) = place p (ordered d)

abbrev pub expired_for_update : ℕ → ℕ → Dict ℕ Question → Dict ℕ Question
expired_for_update now limit d = take limit (ordered (due_rows now d))

-- `accepted_answer_id == q.accepted_answer_id`
abbrev pub is_answer : Option ℕ → ℕ → Bool
is_answer none _ = false
is_answer (some j) i = i == j

-- The call of `publish_qa_item`, and `bump_collection_version`.
abbrev pub publish : ℕ → ℕ → Forum → Forum
publish author id f = bump_qa (record f { published = f.published ++ (author, id) ∷ [] })

-- `str(uuid)` is a parameter.
module _ (uuid_text : ℕ → String) where
  unfoldable pub hold_escrow : ℕ → ℕ → ℕ → Exec QaErr Forum (Unit {0})
  hold_escrow id author total =
      if ltb 0 total
      then with_books (spend author (pos total) "qa_escrow" "qa_question" (uuid_text id)) >> pure tt
      else pure tt

  unfoldable pub create_question : ℕ → ℕ → QuestionCreate → Exec QaErr Forum (Unit {0})
  create_question new_id author info = do
    taken ← gets (λ f. is_some (lookup new_id f.questions))
    raise_if taken key_in_use
    modify (λ f. put_question new_id (new_question author info f.books.now) f)
    hold_escrow new_id author (info.bounty_people * info.bounty_per_person)
    modify (publish author new_id)

  abbrev pub accept_ref : ℕ → ℕ → String
  accept_ref id answer_id = uuid_text id +++ ":" +++ uuid_text answer_id

  -- The share of the bounty for one answer.
  unfoldable pub pay_share : ℕ → Question → ℕ → Answer → Exec QaErr Forum Question
  pay_share id q answer_id a =
      if ltb 0 q.bounty_per_person
      then with_books (
          reward a.author (pos q.bounty_per_person) "qa_accept" "qa_accept"
            (accept_ref id answer_id) false)
        >> pure (record q { bounty_distributed = q.bounty_distributed + q.bounty_per_person })
      else pure q

  abbrev pub record_acceptance : ℕ → ℕ → Answer → Question → Forum → Forum
  record_acceptance id answer_id a paid f =
      let marked = put_answer answer_id (record a { is_accepted = true }) f in
      let noted = put_question id (record paid { accepted_answer_id = some answer_id }) marked in
      let told =
        enqueue_event a.author "answer_accepted" ("answer:" +++ uuid_text answer_id) noted in
      bump_qa
        (enqueue_event paid.author "qa_accept_notice" ("answer:" +++ uuid_text answer_id) told)

  unfoldable pub accept_open : ℕ → Question → ℕ → Answer → Exec QaErr Forum (Unit {0})
  accept_open id q answer_id a = do
    raise_if (a.author == q.author) self_accept_forbidden
    accepted_count ← gets (λ f. count_accepted id f.answers)
    raise_if (leb q.bounty_people accepted_count) bounty_exhausted
    paid ← pay_share id q answer_id a
    modify (record_acceptance id answer_id a paid)

  unfoldable pub accept_loaded : ℕ → Question → ℕ → Exec QaErr Forum (Unit {0})
  accept_loaded id q answer_id = do
    a ← load_answer id answer_id
    if a.is_accepted then pure tt else accept_open id q answer_id a

  unfoldable pub accept_answer : ℕ → ℕ → ℕ → Exec QaErr Forum (Unit {0})
  accept_answer id answer_id asker = do
    q ← load_question id
    raise_if (not (q.author == asker)) not_asker
    raise_if (not (is_open q.status)) question_not_open
    now ← gets (λ f. f.books.now)
    raise_if (has_expired now q) bounty_expired
    accept_loaded id q answer_id

  unfoldable pub refund_rest : ℕ → ℕ → ℕ → Exec QaErr Forum (Unit {0})
  refund_rest id author refund =
      if ltb 0 refund
      then with_books (reward author (pos refund) "qa_refund" "qa_refund" (uuid_text id) false)
        >> pure tt
      else pure tt

  -- `refund > 0` also fails where Python's difference is negative and that of ℕ is 0.
  unfoldable pub settle_question : ℕ → Question → Exec QaErr Forum (Unit {0})
  settle_question id q = do
    refund_rest id q.author (q.bounty_total - q.bounty_distributed)
    modify (put_question id (settled q))

  -- The answer that the caller wants accepted before the question closes.
  unfoldable pub accept_first : ℕ → Question → Option ℕ → ℕ → Exec QaErr Forum Question
  accept_first id q none asker = pure q
  accept_first id q (some answer_id) asker =
      if is_answer q.accepted_answer_id answer_id
      then pure q
      else accept_answer id answer_id asker >> load_question id

  unfoldable pub close_question : ℕ → ℕ → Option ℕ → Exec QaErr Forum (Unit {0})
  close_question id asker accepted_answer_id = do
    q ← load_question id
    raise_if (not (q.author == asker)) not_asker
    raise_if (not (is_open q.status)) question_not_open
    reloaded ← accept_first id q accepted_answer_id asker
    settle_question id reloaded
    modify bump_qa

  unfoldable pub settle_all : Dict ℕ Question → Exec QaErr Forum (Unit {0})
  settle_all [] = pure tt
  settle_all ((id, q) ∷ rows) = settle_question id q >> settle_all rows

  unfoldable pub expire_due_questions : ℕ → Exec QaErr Forum ℕ
  expire_due_questions limit = do
    rows ← gets (λ f. expired_for_update f.books.now limit f.questions)
    settle_all rows
    bump_if (ltb 0 (length rows))
    pure (length rows)
