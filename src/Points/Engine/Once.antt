-- ===== src/Points/Engine/Once.antt =====
-- An event's side effects happen once (app/modules/points/engine.py), however often the message
-- is delivered.
use lkm_service.Points.Engine.Marks.{
  mark-already_processed, advance_tasks-KeepsStats, recheck-stats, bump-already_processed,
}
use lkm_service.Prelude.{
  nat_key, inl, ap, ◌≡◌, text_key, Bool-cases, ◌∙◌, String, inr, ℕ, true, Option-cases,
}
use lkm_service.Prelude.Dict.{lookup, insert-lookup}
use lkm_service.Prelude.Exec.{ok, modify, ◌>>◌}
use lkm_service.Points.Engine.{
  Engine, once, Action, get_or_create_stats, stat_of, already_processed, mark_processed,
  advance_tasks, apply_task_side_effects, apply_stats_side_effects, count_and_recheck,
  apply_event_side_effects, processed_key, bump_count, event_task_key, event_stat_key,
}

-- A second creation of the row changes nothing.
create_again :
    (user : ℕ) (key : String) (s : Engine)
    → already_processed user key s ≡ true
    → get_or_create_stats user s ≡ s
unfolding get_or_create_stats stat_of already_processed
create_again user key s h = elim (Option-cases (lookup user s.stats)) [
  | inl e ↦ absurd (cc (rw (e, already_processed, stat_of) at h))
  | inr (st, e) ↦
      rw (e, get_or_create_stats, stat_of)
        (λ i. record s { stats = insert-lookup user st s.stats e i })
]

same_stats :
    (user : ℕ) (key : String) (s s' : Engine)
    → s'.stats ≡ s.stats
    → already_processed user key s ≡ true
    → already_processed user key s' ≡ true
unfolding already_processed stat_of
same_stats user key s s' e h = rw e h

-- Effects that leave a marked event marked.
abbrev pub KeepsMarks : ℕ → Action → Type 0
KeepsMarks user m =
    (key : String) (s : Engine)
    → already_processed user key s ≡ true
    → already_processed user key (m s).1 ≡ true

once-marks :
    (user : ℕ) (key : String) (effects : Action) (s s' : Engine)
    → KeepsMarks user effects
    → once user key effects s ≡ (ok tt, s')
    → already_processed user key s' ≡ true
unfolding once
once-marks user key effects s s' k h =
    elim (Bool-cases (already_processed user key (get_or_create_stats user s))) [
      | inl e ↦ let same : get_or_create_stats user s ≡ s' = cc (rw (e, once) at h) in rw (← same) e
      | inr e ↦
          let start = mark_processed user key (get_or_create_stats user s) in
          let same : (effects start).1 ≡ s' = ap (λ r. r.1) (rw (e, once) at h) in
          rw (← same) (k key start (mark-already_processed user key (get_or_create_stats user s)))
    ]

pub once-again :
    (user : ℕ) (key : String) (effects : Action) (s : Engine)
    → already_processed user key s ≡ true
    → once user key effects s ≡ (ok tt, s)
unfolding once
once-again user key effects s h = rw (create_again user key s h, once) (rw h)

advance_tasks-KeepsMarks :
    (user : ℕ) (event today : String) → KeepsMarks user (advance_tasks user event today)
advance_tasks-KeepsMarks user event today key s h =
    same_stats user key s (advance_tasks user event today s).1
      (advance_tasks-KeepsStats user event today s) h

count-marks :
    (user : ℕ) (stat_key : String) (now : ℕ) (key : String) (s : Engine)
    → already_processed user key s ≡ true
    → already_processed user key (count_and_recheck user stat_key now s) ≡ true
count-marks user stat_key now key s h =
    same_stats user key (bump_count user stat_key s) (count_and_recheck user stat_key now s)
      (recheck-stats user stat_key now (bump_count user stat_key s))
      (bump-already_processed user stat_key key s ∙ h)

count-KeepsMarks :
    (user : ℕ) (stat_key : String) (now : ℕ)
    → KeepsMarks user (modify (count_and_recheck user stat_key now))
count-KeepsMarks user stat_key now key s h = count-marks user stat_key now key s h

both-KeepsMarks :
    (user : ℕ) (stat_key event today : String) (now : ℕ)
    → KeepsMarks user
        (modify (count_and_recheck user stat_key now) >> advance_tasks user event today)
both-KeepsMarks user stat_key event today now key s h =
    advance_tasks-KeepsMarks user event today key (count_and_recheck user stat_key now s)
      (count-marks user stat_key now key s h)

-- An event whose effects have been applied, applied again, on whatever day, changes nothing.
pub apply_event-apply_event :
    (user : ℕ) (event ref_id today later : String) (now now' : ℕ) (s s' : Engine)
    → apply_event_side_effects user event ref_id today now s ≡ (ok tt, s')
    → apply_event_side_effects user event ref_id later now' s' ≡ (ok tt, s')
unfolding apply_event_side_effects
apply_event-apply_event user event ref_id today later now now' s s' h =
    let key = processed_key "legacy" event ref_id in
    elim (Option-cases (lookup event event_stat_key)) [
      | inl e ↦ elim (Option-cases (lookup event event_task_key)) [
        | inl f ↦ rw (e, apply_event_side_effects) (rw f)
        | inr (c, f) ↦
            rw (e, apply_event_side_effects)
              (rw f (
                once-again user key (advance_tasks user event later) s' (
                  once-marks user key (advance_tasks user event today) s s'
                    (advance_tasks-KeepsMarks user event today)
                    (rw f at (rw (e, apply_event_side_effects) at h)))))
      ]
      | inr (stat_key, e) ↦
          rw (e, apply_event_side_effects)
            (once-again user key
              (modify (count_and_recheck user stat_key now') >> advance_tasks user event later) s'
              (once-marks user key
                (modify (count_and_recheck user stat_key now) >> advance_tasks user event today) s
                s' (both-KeepsMarks user stat_key event today now)
                (rw (e, apply_event_side_effects) at h)))
    ]

-- An event that the subscription for counts has applied, applied there again, changes nothing.
pub apply_stats-apply_stats :
    (user : ℕ) (event ref_id : String) (now later : ℕ) (s s' : Engine)
    → apply_stats_side_effects user event ref_id now s ≡ (ok tt, s')
    → apply_stats_side_effects user event ref_id later s' ≡ (ok tt, s')
unfolding apply_stats_side_effects
apply_stats-apply_stats user event ref_id now later s s' h =
    let key = processed_key "stats" event ref_id in
    elim (Option-cases (lookup event event_stat_key)) [
      | inl e ↦ rw (e, apply_stats_side_effects)
      | inr (stat_key, e) ↦
          rw (e, apply_stats_side_effects)
            (once-again user key (modify (count_and_recheck user stat_key later)) s' (
              once-marks user key (modify (count_and_recheck user stat_key now)) s s'
                (count-KeepsMarks user stat_key now) (rw (e, apply_stats_side_effects) at h)))
    ]

-- An event that the subscription for tasks has applied, applied there again, on whatever day,
-- changes nothing.
pub apply_task-apply_task :
    (user : ℕ) (event ref_id today later : String) (s s' : Engine)
    → apply_task_side_effects user event ref_id today s ≡ (ok tt, s')
    → apply_task_side_effects user event ref_id later s' ≡ (ok tt, s')
unfolding apply_task_side_effects
apply_task-apply_task user event ref_id today later s s' h =
    let key = processed_key "tasks" event ref_id in
    elim (Option-cases (lookup event event_task_key)) [
      | inl e ↦ rw (e, apply_task_side_effects)
      | inr (c, e) ↦
          rw (e, apply_task_side_effects)
            (once-again user key (advance_tasks user event later) s' (
              once-marks user key (advance_tasks user event today) s s'
                (advance_tasks-KeepsMarks user event today) (rw (e, apply_task_side_effects) at h)))
    ]
