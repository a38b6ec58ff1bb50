-- ===== src/Qa/Tests.antt =====
-- The questions at concrete inputs: a run, and each law at an input that meets it.
use lkm_service.Prelude.Int.{◌+ℤ◌, -ℤ◌}
use lkm_service.Prelude.Dict.{remove, insert}
use lkm_service.Qa.Expiry.Rounds.{openness}
use lkm_service.Qa.Runs.Absorbing.{run_all_settled, answers_of}
use lkm_service.Qa.Expiry.Drain.{EndsWell, expire_qa_bounties_ends}
use lkm_service.Prelude.Keys.{HasUniqueKeys}
use lkm_service.Qa.Runs.Escrow.Conservation.{wealth-run_all}
use lkm_service.Qa.Runs.Bounty.{IsFunded, run_all-IsFunded}
use lkm_service.Qa.Expiry.{expire_qa_bounties}
use lkm_service.Prelude.Dict.{lookup, insert, remove}
use lkm_service.Points.Ledger.{
  upsert_entry, in_int4, ensure_balance, update_balance, apply_delta, confirmed, granted, replayed,
  find_ref, get_by_ref, pick, pick_from, write_entry, read_back, reward, ensure_balance, spend,
  granted, apply_delta, update_balance, in_int4,
}
use lkm_service.Qa.Runs.Escrow.{wealth, weigh}
use lkm_service.Prelude.Int.{pos, ◌+ℤ◌, -ℤ◌, -ℤ◌}
use lkm_service.Qa.Service.{
  accept_ref, expire_due_questions, create_question, count_accepted, create_answer, settle_all,
  accept_answer, ordered, close_question, place, hold_escrow, due_rows, refund_rest, accept_loaded,
  accept_open, settle_question, pay_share, accept_first,
}
use lkm_service.Qa.Runs.{Op, run_all, ask, reply, accept, close, run_op, expire}
use lkm_service.Qa.Runs.Escrow.References.{IsTelling, IsFresh}
use lkm_service.Qa.{Forum, QuestionCreate, Question, closed, opened}
use lkm_service.Prelude.{
  ◌<◌, ◌∷◌, false, Bool, nat_key, if◌then◌else◌, suc, [], sym, String, some, ℕ, zero, refl, List,
  none, arith, ap, ◌≡◌, ◌∙◌, text_key, nat_eqb,
}
use Prim.Native.String.{[] as empty_text, ◌∷◌ as ◌then◌, ◌++◌ as ◌+++◌}
use Prim.Native.String.append
use Prim.Native.Char.{Char, code}

-- A concrete text of ids: one letter for each unit.
abbrev marks : ℕ → String
marks zero = ""
marks (suc n) = "a" then marks n

marks_tell : (i j : ℕ) → marks i ≡ marks j → i ≡ j
marks_tell zero zero h = refl
marks_tell zero (suc j) h = absurd (cc h)
marks_tell (suc i) zero h = absurd (cc h)
marks_tell (suc i) (suc j) h = ap suc (marks_tell i j (cc h))

behind : ℕ → String → String
behind i t = marks i +++ t

behind-suc : (i : ℕ) (t : String) → behind (suc i) t ≡ "a" then behind i t
unfolding behind
behind-suc i t = append.cons "a" (marks i) t

behind-zero : (t : String) → behind zero t ≡ t
unfolding behind
behind-zero t = append.nil t

colon : (j : ℕ) → ":" +++ marks j ≡ ":" then marks j
colon j = append.cons ":" "" (marks j) ∙ ap (λ t. ":" then t) (append.nil (marks j))

tail : String → String
tail empty_text = ""
tail (c then t) = t

tail_of : (c d : Char) (s t : String) → (c then s) ≡ (d then t) → s ≡ t
unfolding tail
tail_of c d s t h = ap tail h

starts_with_colon : String → Bool
starts_with_colon empty_text = false
starts_with_colon (c then t) = nat_eqb (code c) b':'

clash : (s t : String) → ¬ ((":" then s) ≡ ("a" then t))
unfolding starts_with_colon
clash s t h = cc (ap starts_with_colon h)

behind_tells : (i j k l : ℕ) → behind i (":" then marks j) ≡ behind k (":" then marks l) → j ≡ l
behind_tells zero j zero l h =
    let e = sym (behind-zero (":" then marks j)) ∙ h ∙ behind-zero (":" then marks l) in
    marks_tell j l (tail_of ":" ":" (marks j) (marks l) e)
behind_tells zero j (suc k) l h =
    let e = sym (behind-zero (":" then marks j)) ∙ h ∙ behind-suc k (":" then marks l) in
    absurd (clash (marks j) (behind k (":" then marks l)) e)
behind_tells (suc i) j zero l h =
    let e = sym (behind-suc i (":" then marks j)) ∙ h ∙ behind-zero (":" then marks l) in
    absurd (clash (marks l) (behind i (":" then marks j)) (sym e))
behind_tells (suc i) j (suc k) l h =
    let e = sym (behind-suc i (":" then marks j)) ∙ h ∙ behind-suc k (":" then marks l) in
    behind_tells i j k l
      (tail_of "a" "a" (behind i (":" then marks j)) (behind k (":" then marks l)) e)

pairs_tell : (i j k l : ℕ) → accept_ref marks i j ≡ accept_ref marks k l → j ≡ l
unfolding behind
pairs_tell i j k l h =
    behind_tells i j k l
      (ap (λ t. marks i +++ t) (sym (colon j)) ∙ h ∙ ap (λ t. marks k +++ t) (colon l))

marks-IsTelling : IsTelling marks
marks-IsTelling = record { by_id = marks_tell; by_pair = pairs_tell }

-- User 1 asks for two answers at 10 points each; 2 and 3 answer; 1 accepts 2's answer and closes.
abbrev start : Forum
start = record {
  books = record {
    balances = (1, pos 50) ∷ [];
    ledger = [];
    now = 5;
    version = 0;
    cached = [];
    plan = 0;
  };
  questions = [];
  answers = [];
  published = [];
  events = [];
  version = 0;
}

abbrev bounty : QuestionCreate
bounty = record {
  title = "t";
  situation = "s";
  content = "c";
  category = "help";
  bounty_people = 2;
  bounty_per_person = 10;
  bounty_days = 7;
  urgent = false;
  images = [];
}

abbrev story : List Op
story = ask 1 1 bounty ∷ reply 1 1 2 "x" ∷ reply 2 1 3 "y" ∷ accept 1 1 1 ∷ close 1 1 none ∷ []

story_run : (run_all marks story start).books.balances ≡ (1, pos 40) ∷ (2, pos 10) ∷ []
unfolding run_all run_op create_question create_answer accept_answer close_question hold_escrow
    accept_loaded accept_open pay_share refund_rest settle_question accept_first count_accepted
    spend reward ensure_balance granted write_entry read_back apply_delta update_balance in_int4
    upsert_entry confirmed get_by_ref pick pick_from replayed ◌+ℤ◌ -ℤ◌ lookup insert remove
story_run = refl

start-IsFunded : IsFunded start
unfolding lookup count_accepted
start-IsFunded = record { each = λ id q it. absurd (cc it); orphans = λ id free. refl }

start-IsFresh : IsFresh marks start
unfolding find_ref
start-IsFresh = record {
  escrows = λ u id free. refl;
  shares = λ u id i o. refl;
  refunds = λ u id o. refl;
}

wealth-run_all_example : wealth (run_all marks story start) ≡ wealth start
wealth-run_all_example =
    wealth-run_all marks story start marks-IsTelling tt start-IsFunded start-IsFresh

run_all-IsFunded_example : IsFunded (run_all marks story start)
run_all-IsFunded_example = run_all-IsFunded marks story start tt start-IsFunded

-- A question that was closed, in a forum of its own.
abbrev closed_question : Question
closed_question = record {
  author = 1;
  title = "t";
  situation = "s";
  content = "c";
  category = "help";
  bounty_people = 2;
  bounty_per_person = 10;
  bounty_total = 20;
  bounty_distributed = 0;
  bounty_expires_at = some 3;
  urgent = false;
  status = closed;
  accepted_answer_id = none;
}

abbrev open_question : Question
open_question = record closed_question { status = opened }

abbrev later : Forum
later = record start { questions = (7, closed_question) ∷ (8, open_question) ∷ [] }

later_unique : HasUniqueKeys later.questions
unfolding lookup
later_unique = (refl, (refl, tt))

later_row : lookup 7 later.questions ≡ some closed_question
unfolding lookup
later_row = refl

run_all_settled_example :
    let g = run_all marks (expire 100 ∷ close 7 1 none ∷ []) later in
    (lookup 7 g.questions ≡ some closed_question)
    × (answers_of 7 g.answers ≡ answers_of 7 later.answers)
run_all_settled_example =
    run_all_settled marks 7 closed_question (expire 100 ∷ close 7 1 none ∷ []) later later_unique
      later_row refl

later_open : weigh openness later.questions < 3
unfolding weigh
later_open = omega arith

expire_qa_bounties_ends_example :
    EndsWell marks (λ i. 9) 0 later (expire_qa_bounties marks (λ i. 9) 3 0 later)
expire_qa_bounties_ends_example =
    expire_qa_bounties_ends marks (λ i. 9) 3 0 later later_unique later_open

expiry_run : (expire_qa_bounties marks (λ i. 9) 3 0 later).1.books.balances ≡ (1, pos 70) ∷ []
unfolding expire_qa_bounties expire_due_questions settle_all ordered place due_rows refund_rest
    settle_question reward ensure_balance granted write_entry read_back apply_delta update_balance
    in_int4 upsert_entry confirmed get_by_ref pick pick_from ◌+ℤ◌ lookup insert remove
expiry_run = refl
