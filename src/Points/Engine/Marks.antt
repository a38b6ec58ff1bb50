-- ===== src/Points/Engine/Marks.antt =====
-- Which operations keep the marks of a user's processed events (app/modules/points/engine.py).
use lkm_service.Points.Ledger.{reward}
use lkm_service.Points.{PointsErr, LedgerEntry, Books}
use lkm_service.Prelude.Int.{ℤ, pos}
use lkm_service.Prelude.{
  arith, text_key, ◌==◌, ◌∷◌, ◌∙◌, keep, eqb_self, inr, String, ℕ, [], inl, List, nat_key,
  Option-cases, true, false, ◌≡◌, Bool-cases, refl, ◌+◌,
}
use lkm_service.Prelude.Dict.{lookup, insert, lookup-insert}
use lkm_service.Prelude.Exec.{Result, ok, err, ◌>>◌, modify}
use lkm_service.Points.Engine.{
  Engine, recheck_achievements, advance_task, advance_each, recheck_each, already_processed,
  stat_of, get_or_create_stats, mark_processed, Stat, bump_count, pay_task, Task,
  stat_to_achievement_type, recheck_one, count_of, put_stat, progress_for, Achievement, Action,
  advance_tasks, UserTaskProgress, progress_of, event_task_key, advanced, reaches, on_books,
  put_progress, ◌+++◌,
}

marked-insert : (user : ℕ) (st : Stat) (s : Engine) → stat_of user (put_stat user st s) ≡ st
unfolding stat_of
marked-insert user st s = rw (lookup-insert user user st s.stats, stat_of) (rw (eqb_self user))

pub mark-already_processed :
    (user : ℕ) (key : String) (s : Engine)
    → already_processed user key (mark_processed user key s) ≡ true
unfolding already_processed mark_processed
mark-already_processed user key s =
    rw
      (marked-insert user (record (stat_of user s) { processed = key ∷ (stat_of user s).processed })
        s)
      (ground (arith, eqb_self key))

pub bump-already_processed :
    (user : ℕ) (count key : String) (s : Engine)
    → already_processed user key (bump_count user count s) ≡ already_processed user key s
unfolding already_processed bump_count
bump-already_processed user count key s =
    let st = stat_of user s in
    rw
      (marked-insert user (record st { counts = insert count (count_of count st + 1) st.counts }) s)

pub create-already_processed :
    (user : ℕ) (key : String) (s : Engine)
    → already_processed user key (get_or_create_stats user s) ≡ already_processed user key s
unfolding already_processed get_or_create_stats
create-already_processed user key s = rw (marked-insert user (stat_of user s) s)

recheck_each-stats :
    (user : ℕ) (progress : ℤ) (now : ℕ) (l : List Achievement) (s : Engine)
    → (recheck_each user progress now l s).stats ≡ s.stats
unfolding recheck_each recheck_one
recheck_each-stats user progress now [] s = refl
recheck_each-stats user progress now (a ∷ l) s =
    recheck_each-stats user progress now l (recheck_one user progress now a s)

pub recheck-stats :
    (user : ℕ) (stat_key : String) (now : ℕ) (s : Engine)
    → (recheck_achievements user stat_key now s).stats ≡ s.stats
unfolding recheck_achievements
recheck-stats user stat_key now s = elim (Option-cases (lookup stat_key stat_to_achievement_type)) [
  | inl e ↦ rw (e, recheck_achievements)
  | inr (t, e) ↦
      rw (e, recheck_achievements)
        (recheck_each-stats user (pos (progress_for user t s)) now
          (keep (λ a. a.type_of == t) s.achievements) s)
]

-- A call leaves the behaviour rows as they are.
abbrev pub KeepsStats : Action → Type 0
KeepsStats m = (s : Engine) → (m s).1.stats ≡ s.stats

then-KeepsStats : (m k : Action) → KeepsStats m → KeepsStats k → KeepsStats (m >> k)
then-KeepsStats m k h g s = go (m s) (h s)
  where
    go :
        (r : Result PointsErr (Unit {0}) × Engine)
        → r.1.stats ≡ s.stats
        → (((λ _. r) >> k) s).1.stats ≡ s.stats
    go (ok x, s') same = g s' ∙ same
    go (err e, s') same = same

pay_task-KeepsStats :
    (user : ℕ) (today : String) (t : Task) (up : UserTaskProgress)
    → KeepsStats (pay_task user today t up)
unfolding pay_task
pay_task-KeepsStats user today t up s = elim (Bool-cases up.rewarded) [
  | inl e ↦ rw (e, pay_task)
  | inr e ↦
      rw (e, pay_task)
        (go (
          reward user t.reward_points "daily_task" "task" (t.key +++ (":" +++ today)) false
            s.books))
]
  where
    go :
        (r : Result PointsErr LedgerEntry × Books)
        → ((on_books (λ _. r) >> modify (put_progress user t today (record up { rewarded = true })))
            s).1.stats
          ≡ s.stats
    go (ok x, b) = refl
    go (err e, b) = refl

advance_task-KeepsStats :
    (user : ℕ) (event today : String) (t : Task) → KeepsStats (advance_task user event today t)
unfolding advance_task
advance_task-KeepsStats user event today t s =
    let up : UserTaskProgress = record (progress_of user t today s) {
      progress = advanced event t (progress_of user t today s);
    } in
    let done : UserTaskProgress = record up { completed = true } in
    elim (Bool-cases (reaches t up)) [
      | inl e ↦
          rw (e, advance_task)
            (pay_task-KeepsStats user today t done (put_progress user t today done s))
      | inr e ↦ rw (e, advance_task)
    ]

advance_each-KeepsStats :
    (user : ℕ) (event today : String) (l : List Task) → KeepsStats (advance_each user event today l)
unfolding advance_each
advance_each-KeepsStats user event today [] s = refl
advance_each-KeepsStats user event today (t ∷ l) s =
    then-KeepsStats (advance_task user event today t) (advance_each user event today l)
      (advance_task-KeepsStats user event today t) (advance_each-KeepsStats user event today l) s

pub advance_tasks-KeepsStats :
    (user : ℕ) (event today : String) → KeepsStats (advance_tasks user event today)
unfolding advance_tasks
advance_tasks-KeepsStats user event today s = elim (Option-cases (lookup event event_task_key)) [
  | inl e ↦ rw (e, advance_tasks)
  | inr (category, e) ↦
      rw (e, advance_tasks)
        (advance_each-KeepsStats user event today (keep (λ t. t.category == category) s.tasks) s)
]
