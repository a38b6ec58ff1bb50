-- ===== src/Points/Engine/Counts.antt =====
-- What an event adds (app/modules/points/engine.py): one to its count, and no second reward for a
-- task of the day.
use lkm_service.Points.Engine.Marks.{create-already_processed, recheck-stats}
use lkm_service.Prelude.{
  pair_key, ℕ, ◌+◌, ◌≡◌, refl, ap, ◌∙◌, true, false, some, ◌∷◌, String, arith, nat_key, text_key,
  eqb_self,
}
use lkm_service.Prelude.Dict.{lookup, insert, lookup-insert}
use lkm_service.Points.Engine.{
  Engine, apply_stats_side_effects, bump_count, stat_of, advance_task, once, Stat, Task, count_of,
  progress_of, mark_processed, put_stat, get_or_create_stats, event_stat_key, already_processed,
  processed_key, count_and_recheck, UserTaskProgress, advanced, reaches, put_progress,
}

put-stat_of : (user : ℕ) (st : Stat) (s : Engine) → stat_of user (put_stat user st s) ≡ st
unfolding stat_of
put-stat_of user st s = rw (lookup-insert user user st s.stats, stat_of) (rw (eqb_self user))

counts_up :
    (user : ℕ) (stat_key : String) (s : Engine)
    → count_of stat_key (stat_of user (bump_count user stat_key s))
      ≡ count_of stat_key (stat_of user s) + 1
unfolding bump_count
counts_up user stat_key s =
    let st = stat_of user s in
    let n = count_of stat_key st + 1 in
    rw (put-stat_of user (record st { counts = insert stat_key n st.counts }) s)
      (rw (lookup-insert stat_key stat_key n st.counts, count_of) (rw (eqb_self stat_key)))

same_count :
    (user : ℕ) (key : String) (s s' : Engine)
    → s'.stats ≡ s.stats
    → count_of key (stat_of user s') ≡ count_of key (stat_of user s)
unfolding stat_of
same_count user key s s' e = rw e

marked_count :
    (user : ℕ) (key stat_key : String) (s : Engine)
    → count_of stat_key (stat_of user (mark_processed user key (get_or_create_stats user s)))
      ≡ count_of stat_key (stat_of user s)
unfolding mark_processed get_or_create_stats
marked_count user key stat_key s =
    let created = put_stat user (stat_of user s) s in
    let st = stat_of user created in
    ap (count_of stat_key) (put-stat_of user (record st { processed = key ∷ st.processed }) created)
    ∙ ap (count_of stat_key) (put-stat_of user (stat_of user s) s)

-- An event that counts, delivered for the first time to the subscription that counts, adds one to
-- the count of its kind.
pub apply_stats_counts :
    (user : ℕ) (event ref_id stat_key : String) (now : ℕ) (s : Engine)
    → lookup event event_stat_key ≡ some stat_key
    → already_processed user (processed_key "stats" event ref_id) s ≡ false
    → count_of stat_key (stat_of user (apply_stats_side_effects user event ref_id now s).1)
      ≡ count_of stat_key (stat_of user s) + 1
unfolding apply_stats_side_effects once
apply_stats_counts user event ref_id stat_key now s e fresh =
    let key = processed_key "stats" event ref_id in
    let created = get_or_create_stats user s in
    let marked = mark_processed user key created in
    rw (e, apply_stats_side_effects)
      (rw (create-already_processed user key s ∙ fresh) (
        same_count user stat_key (bump_count user stat_key marked)
          (count_and_recheck user stat_key now marked)
          (recheck-stats user stat_key now (bump_count user stat_key marked))
        ∙ (counts_up user stat_key marked ∙ ap (λ n. n + 1) (marked_count user key stat_key s))))

put_progress-of :
    (user : ℕ) (t : Task) (today : String) (up : UserTaskProgress) (s : Engine)
    → progress_of user t today (put_progress user t today up s) ≡ up
put_progress-of user t today up s =
    rw (lookup-insert (user, (t.id, today)) (user, (t.id, today)) up s.progresses, progress_of)
      (rw (eqb_self {A = ℕ × (ℕ × String)} (user, (t.id, today))))

-- A task that is complete for the day is not paid again, whatever events follow: the books stay,
-- and the task stays complete.
pub advance_task-completed :
    (user : ℕ) (event today : String) (t : Task) (s : Engine)
    → (progress_of user t today s).completed ≡ true
    → ((advance_task user event today t s).1.books ≡ s.books)
      × ((progress_of user t today (advance_task user event today t s).1).completed ≡ true)
unfolding advance_task
advance_task-completed user event today t s h =
    let up : UserTaskProgress = record (progress_of user t today s) {
      progress = advanced event t (progress_of user t today s);
    } in
    let still : reaches t up ≡ false = ground (arith, h) in
    rw (still, advance_task) (refl, ap (λ x. x.completed) (put_progress-of user t today up s) ∙ h)
