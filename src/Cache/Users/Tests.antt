-- ===== src/Cache/Users/Tests.antt =====
-- The user snapshots at concrete inputs: the payload is a number.
use lkm_service.Prelude.Dict.{lookup, insert, remove}
use lkm_service.Cache.Users.Epochs.{Written, write-Written, write_after_bump, done}
use lkm_service.Prelude.{some, ◌∷◌, ℕ, text_key, none, [], refl, false, nat_key, true, ◌≡◌}
use lkm_service.Cache.Local.{Cache, l1_get, get_at, l1_set, evict}
use lkm_service.Cache.Users.{
  Redis, write_if_newer, payload, bump, Config, Mirror, epoch_of, cas, accepts, mirror_written,
  read_local,
}

abbrev config : Config
config = record { l1_on = true; l1_ttl = 10; snap_key = λ u. "snap" }

abbrev local_cache : Cache (Mirror ℕ)
local_cache = record { entries = []; maxsize = 2; revision = 0 }

abbrev started_redis : Redis ℕ
started_redis = record {
  snaps = (7, payload (some 3) false (some 30)) ∷ [];
  epochs = (7, 100) ∷ [];
}

abbrev bumped_redis : Redis ℕ
bumped_redis = bump 7 started_redis

write_after_bump_example :
    write_if_newer config [] [] 5 7
      (some 40)
      4
      (epoch_of 7 started_redis)
      false
      (bumped_redis, local_cache)
    ≡ (false, (bumped_redis, local_cache))
write_after_bump_example =
    write_after_bump config [] [] 5 7 (some 40) 4 false started_redis started_redis bumped_redis
      local_cache (done started_redis) (done bumped_redis)

abbrev newer : Redis ℕ
newer = record started_redis { snaps = (7, payload (some 4) false (some 40)) ∷ [] }

abbrev mirrored : Cache (Mirror ℕ)
mirrored = record local_cache {
  entries = ("snap", (15, record { sv = some 4; data_of = some 40 })) ∷ [];
}

write_run :
    write_if_newer config [] [] 5 7 (some 40) 4 100 false (started_redis, local_cache)
    ≡ (true, (newer, mirrored))
unfolding write_if_newer cas accepts epoch_of mirror_written l1_get get_at l1_set evict lookup
    insert remove
write_run = refl

write-Written_example : Written 7 (payload (some 4) false (some 40)) 4 100 started_redis newer
write-Written_example =
    write-Written config [] [] 5 7 (some 40) 4 100 false started_redis newer local_cache mirrored tt
      write_run

empty_miss : (read_local config 7 5 local_cache).0 ≡ none
unfolding read_local l1_get get_at lookup
empty_miss = refl
