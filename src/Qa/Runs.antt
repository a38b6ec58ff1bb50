-- ===== src/Qa/Runs.antt =====
-- Any sequence of requests of app/modules/qa/router.py and rounds of its expiry task, each in its
-- own session, and what they keep.
pub mod Absorbing
pub mod Bounty
pub mod Escrow
use lkm_service.Prelude.Exec.{atomic_keeps, bind-Returns, weaken-Returns, Returns}
use lkm_service.Prelude.Keys.{HasUniqueKeys, insert-HasUniqueKeys}
use lkm_service.Qa.Service.Calls.{
  accepted_before, accepted_first, create_question-IsCreation, create_answer-IsReply,
  accept_answer-Accepting,
}
use lkm_service.Qa.Service.Closing.{untouched, accepted_now, IsClosing, close_question-IsClosing}
use lkm_service.Qa.Service.Expiring.{
  all_settled, next_settled, IsExpiry, expire_due_questions-IsExpiry,
}
use lkm_service.Prelude.{
  eqb_self, ℕ, zero, suc, ◌+◌, ◌-◌, ◌*◌, ◌≤◌, ◌<◌, ◌≡◌, refl, sym, ap, ◌∙◌, subst, ◌≢◌, ◌↔◌, ◌⊎◌,
  inl, inr, Bool, true, false, not, ◌&&◌, ◌||◌, Option, none, some, List, [], ◌∷◌, ◌++◌, map, min,
  max, String, arith, if◌then◌else◌, ltb, leb, ◌==◌, nat_key, text_key, Bool-cases, Option-cases,
  All, any, all, keep, length, take, drop, is_some, contains,
}
use lkm_service.Qa.Service.Outcome.{IsAccepted, Settled, raised, with_accepted}
use lkm_service.Qa.Service.Closing.{Preparing, untouched}
use lkm_service.Qa.Service.{
  create_question, create_answer, accept_answer, close_question, bump_qa, expire_due_questions,
  new_question, settled,
}
use lkm_service.Qa.Service.Expiring.{Settling, all_settled, next_settled}
use lkm_service.Prelude.Dict.{Dict, lookup, lookup-insert}
use lkm_service.Qa.Service.Calls.{IsCreation, Accepting, IsReply}
use lkm_service.Prelude.Exec.{
  Exec, atomic, ◌>>◌, pure, modify, Returns, atomic_keeps, weaken-Returns, bind-Returns,
}
use lkm_service.Qa.{Forum, QuestionCreate, QaErr, Question, is_open, Answer, accepted}
use lkm_service.Prelude.{
  ℕ, zero, suc, ◌+◌, ◌-◌, ◌*◌, ◌≤◌, ◌<◌, ◌≡◌, refl, sym, ap, ◌∙◌, subst, ◌≢◌, ◌↔◌, ◌⊎◌, inl, inr,
  Bool, true, false, not, ◌&&◌, ◌||◌, Option, none, some, List, [], ◌∷◌, ◌++◌, map, min, max,
  String, arith, if◌then◌else◌, ltb, leb, ◌==◌, nat_key, text_key, Bool-cases, Option-cases, All,
  any, all, keep, length, take, drop, is_some, contains,
}

pub data Op : Type 0 where
  ask : ℕ → ℕ → QuestionCreate → Op
  reply : ℕ → ℕ → ℕ → String → Op
  accept : ℕ → ℕ → ℕ → Op
  close : ℕ → ℕ → Option ℕ → Op
  expire : ℕ → Op
  -- time passes
  wait : ℕ → Op

abbrev pub at_time : ℕ → Forum → Forum
at_time t f = record f { books = record f.books { now = t } }

module _ (uuid_text : ℕ → String) where
  unfoldable pub run_op : Op → Exec QaErr Forum (Unit {0})
  run_op (ask id author info) = create_question uuid_text id author info
  run_op (reply answer_id id author content) = create_answer answer_id id author content
  run_op (accept id answer_id asker) = accept_answer uuid_text id answer_id asker
  run_op (close id asker wanted) = close_question uuid_text id asker wanted
  run_op (expire limit) = expire_due_questions uuid_text limit >> pure tt
  run_op (wait t) = modify (at_time t)

  unfoldable pub run_all : List Op → Forum → Forum
  run_all [] f = f
  run_all (op ∷ ops) f = run_all ops (atomic (run_op op) f).1

  -- A property of the forum that each single change keeps.
  pub record IsKept (P : Forum → Type 0) : Type 0 where
    pub by_creation :
        (id author : ℕ) (info : QuestionCreate) (f g : Forum)
        → IsCreation uuid_text id author info f g
        → P f
        → P g
    pub by_reply :
        (answer_id id author : ℕ) (content : String) (f g : Forum)
        → IsReply answer_id id author content f g
        → P f
        → P g
    pub by_acceptance :
        (id answer_id asker : ℕ) (q : Question) (a : Answer) (f g : Forum)
        → lookup id f.questions ≡ some q
        → is_open q.status ≡ true
        → lookup answer_id f.answers ≡ some a
        → a.question_id ≡ id
        → a.is_accepted ≡ false
        → IsAccepted uuid_text id q answer_id a f g
        → P f
        → P g
    pub by_settlement :
        (id : ℕ) (q : Question) (f g : Forum)
        → lookup id f.questions ≡ some q
        → is_open q.status ≡ true
        → Settled uuid_text id q f tt g
        → P f
        → P g
    pub by_bump : (f : Forum) → P f → P (bump_qa f)
    pub by_time : (t : ℕ) (f : Forum) → P f → P (at_time t f)

  Accepting-keeps :
      {P : Forum → Type 0} {id answer_id asker : ℕ} {f g : Forum}
      → IsKept P
      → Accepting uuid_text id answer_id asker f g
      → P f
      → P g
  Accepting-keeps kept (accepted_before e) p = rw e p
  Accepting-keeps {id = id} {answer_id = answer_id} {asker = asker} {f = f} {g = g} kept
        (accepted_first q a row own o early r mine was h) p =
      kept.by_acceptance id answer_id asker q a f g row o r mine was h p

  -- The question that is about to close is open.
  Preparing-keeps :
      {P : Forum → Type 0} {id asker : ℕ} {f g : Forum} {q r : Question}
      → IsKept P
      → lookup id f.questions ≡ some q
      → is_open q.status ≡ true
      → Preparing uuid_text id asker f r g
      → P f
      → P g × (lookup id g.questions ≡ some r) × (is_open r.status ≡ true)
  Preparing-keeps kept row o (untouched e same) p = (rw same p, rw same e, ground arith)
  Preparing-keeps kept row o (accepted_now answer_id (accepted_before same) e) p =
      (rw same p, e, ground (arith, same))
  Preparing-keeps {id = id} {f = f} {g = g} kept row o
        (accepted_now answer_id (accepted_first q a row' own o' early r mine was h) e) p =
      (
        Accepting-keeps kept (accepted_first q a row' own o' early r mine was h) p,
        e,
        ground (
          arith,
          h.forum_after,
          lookup-insert id id (with_accepted answer_id q) f.questions,
          eqb_self id,
        ),
      )

  Settling-keeps :
      {P : Forum → Type 0} {rows : Dict ℕ Question} {f g : Forum}
      → IsKept P
      → Settling uuid_text rows f g
      → P f
      → P g
  Settling-keeps kept (all_settled e) p = rw e p
  Settling-keeps {f = f} kept (next_settled {id = id} {q = q} m row o s rest) p =
      Settling-keeps kept rest (kept.by_settlement id q f m row o s p)

  -- Requests keep the primary key of qa_questions unique.
  pub unique_keys-IsKept : IsKept (λ f. HasUniqueKeys f.questions)
  unique_keys-IsKept = record {
    by_creation = λ id author info f g c u.
        rw c.forum_after
          (insert-HasUniqueKeys id (new_question author info f.books.now) f.questions u);
    by_reply = λ answer_id id author content f g r u. rw r.forum_after u;
    by_acceptance = λ id answer_id asker q a f g row o r mine was h u.
        rw h.forum_after (insert-HasUniqueKeys id (with_accepted answer_id q) f.questions u);
    by_settlement =
        λ id q f g row o s u. rw s.1 (insert-HasUniqueKeys id (settled q) f.questions u);
    by_bump = λ f u. u;
    by_time = λ t f u. u;
  }

  module _ {P : Forum → Type 0} (kept : IsKept P) where
    bump_if-keeps : (c : Bool) (f : Forum) → P f → P (if c then bump_qa f else f)
    bump_if-keeps true f p = kept.by_bump f p
    bump_if-keeps false f p = p

    pub expire-keeps :
        (limit : ℕ) (f : Forum)
        → HasUniqueKeys f.questions
        → P f
        → Returns (λ _ g. P g) (expire_due_questions uuid_text limit f)
    expire-keeps limit f u p =
        weaken-Returns (IsExpiry uuid_text limit f) (λ _ g. P g)
          (expire_due_questions uuid_text limit f)
          (λ n g h.
            rw h.forum_after (bump_if-keeps (ltb 0 n) h.after (Settling-keeps kept h.settling p)))
          (expire_due_questions-IsExpiry uuid_text limit f u)

    run_op-keeps :
        (op : Op) (f : Forum) → HasUniqueKeys f.questions → P f → Returns (λ _ g. P g) (run_op op f)
    unfolding run_op
    run_op-keeps (ask id author info) f u p =
        weaken-Returns (λ _ g. IsCreation uuid_text id author info f g) (λ _ g. P g)
          (create_question uuid_text id author info f)
          (λ _ g h. kept.by_creation id author info f g h p)
          (create_question-IsCreation uuid_text id author info f)
    run_op-keeps (reply answer_id id author content) f u p =
        weaken-Returns (λ _ g. IsReply answer_id id author content f g) (λ _ g. P g)
          (create_answer answer_id id author content f)
          (λ _ g h. kept.by_reply answer_id id author content f g h p)
          (create_answer-IsReply answer_id id author content f)
    run_op-keeps (accept id answer_id asker) f u p =
        weaken-Returns (λ _ g. Accepting uuid_text id answer_id asker f g) (λ _ g. P g)
          (accept_answer uuid_text id answer_id asker f) (λ _ g h. Accepting-keeps kept h p)
          (accept_answer-Accepting uuid_text id answer_id asker f)
    run_op-keeps (close id asker wanted) f u p =
        weaken-Returns (λ _ g. IsClosing uuid_text id asker f g) (λ _ g. P g)
          (close_question uuid_text id asker wanted f)
          (λ _ g h.
            let (q, row, o) = Preparing-keeps kept h.row h.opened_before h.before p in
            rw h.forum_after (
              kept.by_bump h.after
                (kept.by_settlement id h.reloaded h.between h.after row o h.settlement q)))
          (close_question-IsClosing uuid_text id asker wanted f)
    run_op-keeps (expire limit) f u p =
        bind-Returns (λ _ g. P g) (λ _ g. P g) (expire_due_questions uuid_text limit) (λ _. pure tt)
          f (expire-keeps limit f u p) (λ _ g h. h)
    run_op-keeps (wait t) f u p = kept.by_time t f p

  op-HasUniqueKeys :
      (op : Op) (f : Forum)
      → HasUniqueKeys f.questions
      → HasUniqueKeys (atomic (run_op op) f).1.questions
  op-HasUniqueKeys op f u =
      atomic_keeps (λ g. HasUniqueKeys g.questions) (run_op op) f u
        (run_op-keeps unique_keys-IsKept op f u u)

  -- What each change keeps, a run keeps.
  pub run_all-keeps :
      {P : Forum → Type 0} (kept : IsKept P) (ops : List Op) (f : Forum)
      → HasUniqueKeys f.questions
      → P f
      → P (run_all ops f)
  unfolding run_all
  run_all-keeps kept [] f u p = p
  run_all-keeps {P = P} kept (op ∷ ops) f u p =
      run_all-keeps kept ops (atomic (run_op op) f).1 (op-HasUniqueKeys op f u)
        (atomic_keeps P (run_op op) f p (run_op-keeps kept op f u p))
