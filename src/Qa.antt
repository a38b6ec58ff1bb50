-- ===== src/Qa.antt =====
-- The questions and answers (app/modules/qa): the rows of qa_questions and qa_answers, and the
-- state that a transaction reads and writes. A uuid is a number, the primary key of its row.
pub mod Service
pub mod Runs
pub mod Expiry
mod Tests
use lkm_service.Prelude.{
  List, some, ◌<◌, All, ◌⊎◌, ℕ, contains, String, take, inl, sym, ◌≢◌, ◌||◌, Option-cases, ◌++◌,
  Bool-cases, ltb, Bool, ◌∙◌, nat_key, ◌↔◌, Option, suc, true, false, keep, ◌+◌, map, ◌-◌, min,
  refl, subst, not, ◌≤◌, length, max, ◌≡◌, ◌==◌, all, none, text_key, ap, if◌then◌else◌, [], leb,
  ◌*◌, ◌&&◌, is_some, ◌∷◌, any, drop, arith, zero, inr, nat_eqb,
}
use lkm_service.Prelude.Dict.{Dict}
use lkm_service.Points.{PointsErr, Books}

pub data QaErr : Type 0 where
  question_not_found answer_not_found question_not_open not_asker bounty_exhausted : QaErr
  self_accept_forbidden bounty_expired self_answer_forbidden : QaErr
  -- what the points port raises, and the error of the database on a primary key in use
  points_error : PointsErr → QaErr
  key_in_use : QaErr

pub data Status : Type 0 where
  opened accepted closed : Status

abbrev pub is_open : Status → Bool
is_open opened = true
is_open accepted = false
is_open closed = false

pub record Question : Type 0 where
  pub author : ℕ
  pub title : String
  pub situation : String
  pub content : String
  pub category : String
  pub bounty_people : ℕ
  pub bounty_per_person : ℕ
  pub bounty_total : ℕ
  pub bounty_distributed : ℕ
  pub bounty_expires_at : Option ℕ
  pub urgent : Bool
  pub status : Status
  pub accepted_answer_id : Option ℕ

pub record Answer : Type 0 where
  pub question_id : ℕ
  pub author : ℕ
  pub content : String
  pub is_accepted : Bool

-- The tables, the books of the points port, the calls made of the content port (author,
-- question) and of the event port (user, type, reference), and the version of the collection.
pub record Forum : Type 0 where
  pub books : Books
  pub questions : Dict ℕ Question
  pub answers : Dict ℕ Answer
  pub published : List (ℕ × ℕ)
  pub events : List (ℕ × String × String)
  pub version : ℕ

-- The body of a request that asks a question.
pub record QuestionCreate : Type 0 where
  pub title : String
  pub situation : String
  pub content : String
  pub category : String
  pub bounty_people : ℕ
  pub bounty_per_person : ℕ
  pub bounty_days : ℕ
  pub urgent : Bool
  pub images : List String

-- The bounds of the bounty's fields and `check_bounty`.
pub is_valid_create : QuestionCreate → Bool
is_valid_create info =
    leb 1 info.bounty_people
    && leb info.bounty_people 10
    && leb info.bounty_per_person 1000
    && leb 7 info.bounty_days
    && leb info.bounty_days 90
    && nat_eqb (length info.images) 0
    && leb (info.bounty_people * info.bounty_per_person) 1000
    && not (info.urgent && (nat_eqb info.bounty_per_person 0 || not (nat_eqb info.bounty_days 7)))
