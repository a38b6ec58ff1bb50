-- ===== src/Cache/Local/Tests.antt =====
-- The process-local cache at concrete inputs.
use lkm_service.Cache.Local.Laws.{IsBounded}
use lkm_service.Cache.Local.Runs.{run_all, fill_after_delete, set, get, delete, run_all-IsBounded}
use lkm_service.Prelude.Dict.{lookup, remove}
use lkm_service.Prelude.{ℕ, ◌≡◌, refl, false, some, [], ◌∷◌, arith, nat_key, text_key}
use lkm_service.Cache.Local.{Cache, l1_set_if_unchanged, l1_set, evict, l1_delete}

abbrev one_entry : Cache ℕ
one_entry = record { entries = ("a", (50, 1)) ∷ []; maxsize = 1; revision = 3 }

-- A full cache drops its oldest entry.
set_run : (l1_set "b" (some 2) 10 20 one_entry).entries ≡ ("b", (30, 2)) ∷ []
unfolding l1_set evict remove
set_run = refl

one_entry-IsBounded : IsBounded one_entry
unfolding lookup
one_entry-IsBounded = record { small = omega arith; room = omega arith; keyed = (refl, tt) }

run_all-IsBounded_example :
    IsBounded (run_all (set "b" (some 2) 10 20 ∷ get "a" 21 ∷ delete "b" ∷ []) one_entry)
run_all-IsBounded_example =
    run_all-IsBounded (set "b" (some 2) 10 20 ∷ get "a" 21 ∷ delete "b" ∷ []) one_entry
      one_entry-IsBounded

abbrev after_delete : Cache ℕ
after_delete = run_all [] (l1_delete "a" (run_all (get "a" 4 ∷ []) one_entry))

fill_after_delete_example :
    l1_set_if_unchanged "a" (some 9) 10 3 5 6 after_delete ≡ (false, after_delete)
fill_after_delete_example = fill_after_delete (get "a" 4 ∷ []) [] "a" "a" (some 9) 10 5 6 one_entry
