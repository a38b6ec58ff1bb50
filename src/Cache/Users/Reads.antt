-- ===== src/Cache/Users/Reads.antt =====
-- What a read gives after an invalidation (core/user_cache.py).
use lkm_service.Cache.Local.Runs.{Op, delete, run_all, fill_after_delete, run}
use lkm_service.Cache.Local.{l1_get, get_at, l1_delete, Cache, l1_set_if_unchanged}
use lkm_service.Prelude.{
  ◌≡◌, none, inr, eqb_self, nat_key, ℕ, if◌then◌else◌, List, Bool, inl, ◌∙◌, text_key, Bool-cases,
  refl, ap, true, false, Option, some, [], ◌∷◌, ◌++◌, String,
}
use lkm_service.Prelude.Dict.{lookup, lookup-remove}
use lkm_service.Cache.Users.{
  garbage, payload, Redis, read_snap_state, read_local, invalidate_user_snap, from_raw, bump,
  Config, Mirror, Raw, payload,
}

module _ {D : Type 0} where
  missed :
      (config : Config) (user now : ℕ) (c : Cache (Mirror D))
      → (read_local config user now
          (if config.l1_on then l1_delete (config.snap_key user) c else c)).0
        ≡ none
  unfolding read_local l1_get get_at l1_delete
  missed config user now c = elim (Bool-cases config.l1_on) [
    | inl on ↦
        rw (on, lookup-remove (config.snap_key user) (config.snap_key user) c.entries)
          (rw (eqb_self (config.snap_key user)))
    | inr off ↦ rw off
  ]

  both_missed :
      (config : Config) (absent : Bool) (waiting : List (Op (Mirror D))) (now user : ℕ)
      (r : Redis D) (c : Cache (Mirror D))
      → (read_local config user now c).0 ≡ none
      → lookup user r.snaps ≡ none
      → (read_snap_state config absent waiting now user r c).0 ≡ (absent, none)
  unfolding read_snap_state from_raw
  both_missed config absent waiting now user r c local second =
      rw (local, read_snap_state) (rw (second, from_raw))

  -- A read right after an invalidation answers from neither level: it finds no data, and says that
  -- the user does not exist only where the filter does.
  pub read_after_invalidation :
      (config : Config) (absent : Bool) (waiting : List (Op (Mirror D))) (now user : ℕ)
      (r : Redis D) (c : Cache (Mirror D))
      → let (r', c') = invalidate_user_snap config user (r, c) in
        (read_snap_state config absent waiting now user r' c').0 ≡ (absent, none)
  unfolding invalidate_user_snap bump
  read_after_invalidation config absent waiting now user r c =
      both_missed config absent waiting now user (bump user r)
        (if config.l1_on then l1_delete (config.snap_key user) c else c) (missed config user now c)
        (lookup-remove user user r.snaps ∙ rw (eqb_self user))

  run_all-append :
      (before after : List (Op (Mirror D))) (c : Cache (Mirror D))
      → run_all (before ++ after) c ≡ run_all after (run_all before c)
  run_all-append [] after c = refl
  run_all-append (op ∷ before) after c = run_all-append before after (run op c)

  unfilled :
      (config : Config) (absent : Bool) (user revision now : ℕ) (raw : Option (Raw D))
      (c : Cache (Mirror D))
      → ((v : Option (Mirror D))
          → l1_set_if_unchanged (config.snap_key user) v config.l1_ttl revision now now c
            ≡ (false, c))
      → (from_raw config absent user revision now raw c).1 ≡ c
  unfolding from_raw
  unfilled config absent user revision now none c h = refl
  unfilled config absent user revision now (some garbage) c h = refl
  unfilled config absent user revision now (some (payload sv true body)) c h = refl
  unfilled config absent user revision now (some (payload sv false none)) c h = refl
  unfilled config absent user revision now (some (payload sv false (some d))) c h =
      elim (Bool-cases config.l1_on) [
        | inl on ↦ rw on (ap (λ r. r.1) (h (some (record { sv = sv; data_of = some d }))))
        | inr off ↦ rw off
      ]

  -- A read that misses the local cache, and during which some key is dropped from it, leaves that
  -- cache as the other calls have left it: what Redis answered is not mirrored.
  pub read_unmirrored :
      (config : Config) (absent : Bool) (before after : List (Op (Mirror D))) (dropped : String)
      (now user : ℕ) (r : Redis D) (c : Cache (Mirror D))
      → (read_local config user now c).0 ≡ none
      → (read_snap_state config absent (before ++ (delete dropped ∷ after)) now user r c).1
        ≡ run_all (before ++ (delete dropped ∷ after)) (read_local config user now c).1
  unfolding read_snap_state
  read_unmirrored config absent before after dropped now user r c miss =
      let c' = (read_local config user now c).1 in
      rw (miss, read_snap_state)
        (rw (run_all-append before (delete dropped ∷ after) c') (
          unfilled config absent user c'.revision now (lookup user r.snaps)
            (run_all after (l1_delete dropped (run_all before c')))
            (λ v.
              fill_after_delete before after (config.snap_key user) dropped v config.l1_ttl now now
                c')))
