-- ===== src/Points/Engine.antt =====
-- What an event does besides its reward (app/modules/points/engine.py): behaviour counts,
-- achievements and the tasks of the day. The calls work in the caller's session (`Exec`).
pub mod Marks
pub mod Once
pub mod Counts
mod Tests
use lkm_service.Prelude.{
  pair_key, ℕ, zero, suc, ◌+◌, ◌-◌, ◌*◌, ◌≤◌, ◌<◌, ◌≡◌, refl, sym, ap, ◌∙◌, subst, ◌≢◌, ◌↔◌, ◌⊎◌,
  inl, inr, Bool, true, false, not, ◌&&◌, ◌||◌, Option, none, some, List, [], ◌∷◌, ◌++◌, map, min,
  max, String, arith, if◌then◌else◌, ltb, leb, ◌==◌, nat_key, text_key, Bool-cases, Option-cases,
  All, any, all, keep, length, take, drop, is_some, contains,
}
use Prim.Native.String.{◌++◌ as ◌+++◌}
use lkm_service.Prelude.Int.{ℤ, pos, ◌+ℤ◌, leb_ℤ, eqb_ℤ}
use lkm_service.Prelude.Dict.{Dict, lookup, insert}
use lkm_service.Prelude.Exec.{Exec, Result, ok, err, pure, raise, gets, modify, ◌>>=◌, ◌>>◌}
use lkm_service.Points.{PointsErr, Books}
use lkm_service.Points.Ledger.{reward}

-- The JSON of a user's behaviour row: the counts, and the keys under "processed_events".
pub record Stat : Type 0 where
  pub counts : Dict String ℕ
  pub processed : List String

pub record Achievement : Type 0 where
  pub id : ℕ
  pub type_of : String
  pub threshold : ℤ

pub record UserAchievement : Type 0 where
  pub progress : ℤ
  pub unlocked : Bool
  pub unlocked_at : Option ℕ

pub record Task : Type 0 where
  pub id : ℕ
  pub key : String
  pub category : String
  pub requirement_count : ℤ
  pub reward_points : ℤ

pub record UserTaskProgress : Type 0 where
  pub progress : ℤ
  pub completed : Bool
  pub rewarded : Bool

-- The tables; a day is a text. An achievement row is keyed by (user, achievement), a task row by
-- (user, task, day).
pub record Engine : Type 0 where
  pub books : Books
  pub stats : Dict ℕ Stat
  pub achievements : List Achievement
  pub unlocks : Dict (ℕ × ℕ) UserAchievement
  pub tasks : List Task
  pub progresses : Dict (ℕ × (ℕ × String)) UserTaskProgress

abbrev pub Action : Type 0
Action = Exec PointsErr Engine (Unit {0})

abbrev pub event_stat_key : Dict String String
event_stat_key =
    ("post", "post")
    ∷ ("comment", "comment")
    ∷ ("like", "like")
    ∷ ("file_approved", "file_approved")
    ∷ ("answer_accepted", "answer_accepted")
    ∷ ("competition", "competition")
    ∷ []

abbrev pub stat_to_achievement_type : Dict String String
stat_to_achievement_type =
    ("post", "post_count")
    ∷ ("like", "like_count")
    ∷ ("file_approved", "approved_files")
    ∷ ("answer_accepted", "accepted_answers")
    ∷ ("checkin_streak", "checkin_streak")
    ∷ ("competition", "competition_count")
    ∷ []

abbrev pub event_task_key : Dict String String
event_task_key =
    ("post", "post")
    ∷ ("answer_accepted", "answer")
    ∷ ("like", "like")
    ∷ ("file_approved", "file_upload")
    ∷ ("checkin", "checkin")
    ∷ ("competition", "competition")
    ∷ []

-- The count that an achievement type reads.
abbrev pub progress_key : Dict String String
progress_key =
    ("post_count", "post")
    ∷ ("featured_count", "featured_count")
    ∷ ("accepted_answers", "answer_accepted")
    ∷ ("approved_files", "file_approved")
    ∷ ("checkin_streak", "checkin_streak")
    ∷ ("project_count", "project_count")
    ∷ ("column_articles", "column_articles")
    ∷ ("like_count", "like")
    ∷ ("competition_count", "competition")
    ∷ ("onboarding", "onboarding")
    ∷ []

abbrev pub new_stat : Stat
new_stat = record { counts = []; processed = [] }

-- The row, or the empty one that is created in its place.
unfoldable pub stat_of : ℕ → Engine → Stat
stat_of user s = elim (lookup user s.stats) [ none ↦ new_stat | some st ↦ st ]

abbrev pub put_stat : ℕ → Stat → Engine → Engine
put_stat user st s = record s { stats = insert user st s.stats }

unfoldable pub get_or_create_stats : ℕ → Engine → Engine
get_or_create_stats user s = put_stat user (stat_of user s) s

abbrev pub count_of : String → Stat → ℕ
count_of key st = elim (lookup key st.counts) [ none ↦ 0 | some n ↦ n ]

unfoldable pub bump_count : ℕ → String → Engine → Engine
bump_count user key s =
    let st = stat_of user s in
    put_stat user (record st { counts = insert key (count_of key st + 1) st.counts }) s

abbrev pub processed_key : String → String → String → String
processed_key namespace event ref_id = namespace +++ (":" +++ (event +++ (":" +++ ref_id)))

unfoldable pub already_processed : ℕ → String → Engine → Bool
already_processed user key s = contains key (stat_of user s).processed

unfoldable pub mark_processed : ℕ → String → Engine → Engine
mark_processed user key s =
    let st = stat_of user s in put_stat user (record st { processed = key ∷ st.processed }) s

unfoldable pub progress_for : ℕ → String → Engine → ℕ
progress_for user type_of s = elim (lookup type_of progress_key) [
  | none ↦ 0
  | some key ↦ count_of key (stat_of user s)
]

abbrev pub min_ℤ : ℤ → ℤ → ℤ
min_ℤ a b = if leb_ℤ a b then a else b

abbrev pub updated_unlock : ℤ → ℕ → ℤ → UserAchievement → UserAchievement
updated_unlock progress now threshold ua =
    if not ua.unlocked && leb_ℤ threshold progress
    then record { progress = min_ℤ progress threshold; unlocked = true; unlocked_at = some now }
    else record ua { progress = min_ℤ progress threshold }

unfoldable pub recheck_one : ℕ → ℤ → ℕ → Achievement → Engine → Engine
recheck_one user progress now a s =
    let ua : UserAchievement = elim (lookup (user, a.id) s.unlocks) [
      | none ↦ record { progress = pos 0; unlocked = false; unlocked_at = none }
      | some ua ↦ ua
    ] in
    record s {
      unlocks = insert (user, a.id) (updated_unlock progress now a.threshold ua) s.unlocks;
    }

unfoldable pub recheck_each : ℕ → ℤ → ℕ → List Achievement → Engine → Engine
recheck_each user progress now [] s = s
recheck_each user progress now (a ∷ l) s =
    recheck_each user progress now l (recheck_one user progress now a s)

unfoldable pub recheck_achievements : ℕ → String → ℕ → Engine → Engine
recheck_achievements user stat_key now s = elim (lookup stat_key stat_to_achievement_type) [
  | none ↦ s
  | some t ↦
      recheck_each user (pos (progress_for user t s)) now
        (keep (λ a. a.type_of == t) s.achievements) s
]

-- A call of the ledger's service on the books.
abbrev pub on_books :
    {A : Type 0} → (Books → Result PointsErr A × Books) → Engine → Result PointsErr A × Engine
on_books m s = let (r, books) = m s.books in (r, record s { books = books })

abbrev pub advanced : String → Task → UserTaskProgress → ℤ
advanced event t up =
    if eqb_ℤ t.requirement_count (pos 1) && event == "checkin"
    then pos 1
    else min_ℤ (up.progress +ℤ pos 1) t.requirement_count

abbrev pub put_progress : ℕ → Task → String → UserTaskProgress → Engine → Engine
put_progress user t today up s = record s {
  progresses = insert (user, (t.id, today)) up s.progresses;
}

abbrev pub progress_of : ℕ → Task → String → Engine → UserTaskProgress
progress_of user t today s = elim (lookup (user, (t.id, today)) s.progresses) [
  | none ↦ record { progress = pos 0; completed = false; rewarded = false }
  | some up ↦ up
]

abbrev pub reaches : Task → UserTaskProgress → Bool
reaches t up =
    not (leb_ℤ t.requirement_count (pos 0))
    && (not up.completed && leb_ℤ t.requirement_count up.progress)

-- The extra reward of a task that has just been completed.
unfoldable pub pay_task : ℕ → String → Task → UserTaskProgress → Action
pay_task user today t up =
    if up.rewarded
    then pure tt
    else (on_books
          (reward user t.reward_points "daily_task" "task" (t.key +++ (":" +++ today)) false)
        >> modify (put_progress user t today (record up { rewarded = true })))

unfoldable pub advance_task : ℕ → String → String → Task → Action
advance_task user event today t s =
    let up = progress_of user t today s in
    let up' : UserTaskProgress = record up { progress = advanced event t up } in
    if reaches t up'
    then (let done : UserTaskProgress = record up' { completed = true } in
        pay_task user today t done (put_progress user t today done s))
    else (ok tt, put_progress user t today up' s)

unfoldable pub advance_each : ℕ → String → String → List Task → Action
advance_each user event today [] = pure tt
advance_each user event today (t ∷ l) =
    advance_task user event today t >> advance_each user event today l

unfoldable pub advance_tasks : ℕ → String → String → Action
advance_tasks user event today s = elim (lookup event event_task_key) [
  | none ↦ (ok tt, s)
  | some category ↦ advance_each user event today (keep (λ t. t.category == category) s.tasks) s
]

abbrev pub count_and_recheck : ℕ → String → ℕ → Engine → Engine
count_and_recheck user stat_key now s =
    recheck_achievements user stat_key now (bump_count user stat_key s)

-- `if await _already_processed(...): return`, then the mark and the effects.
unfoldable pub once : ℕ → String → Action → Action
once user key effects s =
    let s' = get_or_create_stats user s in
    if already_processed user key s' then (ok tt, s') else effects (mark_processed user key s')

unfoldable pub apply_event_side_effects : ℕ → String → String → String → ℕ → Action
apply_event_side_effects user event ref_id today now s = elim (lookup event event_stat_key) [
  | none ↦ elim (lookup event event_task_key) [
    | none ↦ (ok tt, s)
    | some _ ↦ once user (processed_key "legacy" event ref_id) (advance_tasks user event today) s
  ]
  | some stat_key ↦
      once user (processed_key "legacy" event ref_id)
        (modify (count_and_recheck user stat_key now) >> advance_tasks user event today) s
]

unfoldable pub apply_stats_side_effects : ℕ → String → String → ℕ → Action
apply_stats_side_effects user event ref_id now s = elim (lookup event event_stat_key) [
  | none ↦ (ok tt, s)
  | some stat_key ↦
      once user (processed_key "stats" event ref_id) (modify (count_and_recheck user stat_key now))
        s
]

unfoldable pub apply_task_side_effects : ℕ → String → String → String → Action
apply_task_side_effects user event ref_id today s = elim (lookup event event_task_key) [
  | none ↦ (ok tt, s)
  | some _ ↦ once user (processed_key "tasks" event ref_id) (advance_tasks user event today) s
]
