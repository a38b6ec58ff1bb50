-- ===== src/Points/Engine/Tests.antt =====
-- The side effects of events at concrete inputs.
use lkm_service.Points.Engine.Once.{apply_event-apply_event}
use lkm_service.Prelude.{◌≡◌, refl, true, false, some, [], ◌∷◌, nat_key, text_key}
use lkm_service.Prelude.Int.{pos, ◌+ℤ◌}
use lkm_service.Prelude.Dict.{lookup, insert}
use lkm_service.Prelude.Exec.{ok}
use lkm_service.Points.{Books}
use lkm_service.Points.Engine.{
  Engine, apply_event_side_effects, Task, Achievement, already_processed, apply_task_side_effects,
  apply_stats_side_effects, advance_task, stat_of, once, get_or_create_stats, mark_processed,
  bump_count, advance_tasks, recheck_achievements, advance_each, recheck_each, recheck_one,
  progress_for,
}

abbrev no_books : Books
no_books = record { balances = []; ledger = []; now = 5; version = 0; cached = []; plan = 0 }

abbrev second_post : Achievement
second_post = record { id = 1; type_of = "post_count"; threshold = pos 2 }

abbrev two_posts : Task
two_posts = record {
  id = 3;
  key = "t2";
  category = "post";
  requirement_count = pos 2;
  reward_points = pos 5;
}

abbrev start : Engine
start = record {
  books = no_books;
  stats = (7, record { counts = ("post", 1) ∷ []; processed = [] }) ∷ [];
  achievements = second_post ∷ [];
  unlocks = [];
  tasks = two_posts ∷ [];
  progresses = [];
}

abbrev marked_stats : Engine
marked_stats = record start {
  stats = (7, record { counts = ("post", 2) ∷ []; processed = "stats:post:p1" ∷ [] }) ∷ [];
  unlocks = ((7, 1), record { progress = pos 2; unlocked = true; unlocked_at = some 9 }) ∷ [];
}

-- The second post unlocks the achievement.
stats_run : apply_stats_side_effects 7 "post" "p1" 9 start ≡ (ok tt, marked_stats)
unfolding apply_stats_side_effects once get_or_create_stats stat_of already_processed mark_processed
    bump_count recheck_achievements recheck_each recheck_one progress_for lookup insert
stats_run = refl

abbrev half_way : Engine
half_way = record start {
  stats = (7, record { counts = ("post", 1) ∷ []; processed = "tasks:post:p1" ∷ [] }) ∷ [];
  progresses =
      ((7, (3, "d1")), record { progress = pos 1; completed = false; rewarded = false }) ∷ [];
}

task_run : apply_task_side_effects 7 "post" "p1" "d1" start ≡ (ok tt, half_way)
unfolding apply_task_side_effects once get_or_create_stats stat_of already_processed mark_processed
    advance_tasks advance_each advance_task lookup insert ◌+ℤ◌
task_run = refl

abbrev both : Engine
both = record half_way {
  stats = (7, record { counts = ("post", 2) ∷ []; processed = "legacy:post:p1" ∷ [] }) ∷ [];
  unlocks = ((7, 1), record { progress = pos 2; unlocked = true; unlocked_at = some 9 }) ∷ [];
}

event_run : apply_event_side_effects 7 "post" "p1" "d1" 9 start ≡ (ok tt, both)
unfolding apply_event_side_effects once get_or_create_stats stat_of already_processed mark_processed
    bump_count recheck_achievements recheck_each recheck_one progress_for advance_tasks advance_each
    advance_task lookup insert ◌+ℤ◌
event_run = refl

apply_event-apply_event_example :
    apply_event_side_effects 7 "post" "p1" "d2" 40 both ≡ (ok tt, both)
apply_event-apply_event_example =
    apply_event-apply_event 7 "post" "p1" "d1" "d2" 9 40 start both event_run

abbrev paid_up : Engine
paid_up = record half_way {
  progresses =
      ((7, (3, "d1")), record { progress = pos 2; completed = true; rewarded = true }) ∷ [];
}
