-- ===== src/Cache/Users.antt =====
-- The user snapshots (core/user_cache.py): Redis holds the snapshot of a user and the epoch of its
-- invalidations, the process-local cache mirrors it. The other inputs of a call are what Redis answers,
-- the clock, and what other processes and coroutines do while it waits.
pub mod Epochs
pub mod Reads
mod Tests
use lkm_service.Cache.Local.Runs.{Op, run_all}
use lkm_service.Prelude.{
  ℕ, zero, suc, ◌+◌, ◌-◌, ◌*◌, ◌≤◌, ◌<◌, ◌≡◌, refl, sym, ap, ◌∙◌, subst, ◌≢◌, ◌↔◌, ◌⊎◌, inl, inr,
  Bool, true, false, not, ◌&&◌, ◌||◌, Option, none, some, List, [], ◌∷◌, ◌++◌, map, min, max,
  String, arith, if◌then◌else◌, ltb, leb, ◌==◌, nat_key, text_key, Bool-cases, Option-cases, All,
  any, all, keep, length, take, drop, is_some, contains,
}
use lkm_service.Prelude.Dict.{Dict, lookup, insert, remove}
use lkm_service.Cache.Local.{Cache, l1_delete, l1_set_if_unchanged, l1_get, l1_set}

-- A stored value: what does not parse to an object, or a payload.
pub data Raw (D : Type 0) : Type 0 where
  garbage : Raw D
  payload : Option ℕ → Bool → Option D → Raw D

pub record Redis (D : Type 0) : Type 0 where
  pub snaps : Dict ℕ (Raw D)
  pub epochs : Dict ℕ ℕ

-- The entry of the local cache.
pub record Mirror (D : Type 0) : Type 0 where
  pub sv : Option ℕ
  pub data_of : Option D

-- `_l1_on()`, the time to live of the mirror (`jitter_ttl` of the setting) and `_snap_key`.
pub record Config : Type 0 where
  pub l1_on : Bool
  pub l1_ttl : ℕ
  pub snap_key : ℕ → String

abbrev pub max_cas_retry : ℕ
max_cas_retry = 8

abbrev pub to_int : Option ℕ → ℕ
to_int none = 0
to_int (some n) = n

module _ {D : Type 0} where
  abbrev pub extract_sv : Raw D → Option ℕ
  extract_sv garbage = none
  extract_sv (payload sv neg body) = sv

  -- An epoch that is absent counts as 0.
  unfoldable pub epoch_of : ℕ → Redis D → ℕ
  epoch_of user r = to_int (lookup user r.epochs)

  -- The first reader of an epoch starts it at the clock's value.
  unfoldable pub current_epoch : ℕ → ℕ → Redis D → ℕ × Redis D
  current_epoch user clock r = elim (lookup user r.epochs) [
    | some e ↦ (e, r)
    | none ↦ (clock, record r { epochs = insert user clock r.epochs })
  ]

  abbrev pub newer_stored : ℕ → Option (Raw D) → Bool
  newer_stored source_version none = false
  newer_stored source_version (some raw) = elim (extract_sv raw) [
    | none ↦ false
    | some sv ↦ ltb source_version sv
  ]

  unfoldable pub accepts : ℕ → ℕ → ℕ → Redis D → Bool
  accepts user source_version expected r =
      not (newer_stored source_version (lookup user r.snaps)) && epoch_of user r == expected

  abbrev pub store : ℕ → Raw D → Redis D → Redis D
  store user raw r = record r { snaps = insert user raw r.snaps }

  -- The optimistic lock: each of `races` is a change of a watched key that makes one attempt fail.
  unfoldable pub cas : ℕ → List (Redis D → Redis D) → ℕ → Raw D → ℕ → ℕ → Redis D → Bool × Redis D
  cas zero races user raw source_version expected r = (false, r)
  cas (suc n) [] user raw source_version expected r =
      if accepts user source_version expected r then (true, store user raw r) else (false, r)
  cas (suc n) (race ∷ races) user raw source_version expected r =
      let rest = cas n races user raw source_version expected (race r) in
      if accepts user source_version expected r then rest else (false, r)

  -- The mirror after the store, unless a local entry was invalidated meanwhile or is newer.
  unfoldable pub mirror_written :
      Config → ℕ → Option D → ℕ → Bool → ℕ → ℕ → Cache (Mirror D) → Cache (Mirror D)
  mirror_written config user body source_version negative revision now c =
      if config.l1_on && (not negative && revision == c.revision)
      then (let (existing, c') = l1_get (config.snap_key user) now c in
          if elim existing [ none ↦ false | some m ↦ ltb source_version (to_int m.sv) ]
          then c'
          else l1_set (config.snap_key user)
              (some (record { sv = some source_version; data_of = body })) config.l1_ttl now c')
      else c

  -- `waiting` are the local calls made while the transaction is executed.
  unfoldable pub write_if_newer :
      Config
      → List (Redis D → Redis D)
      → List (Op (Mirror D))
      → ℕ
      → ℕ
      → Option D
      → ℕ
      → ℕ
      → Bool
      → Redis D × Cache (Mirror D)
      → Bool × (Redis D × Cache (Mirror D))
  write_if_newer config races waiting now user body source_version expected negative (r, c) =
      let (done, r') =
        cas max_cas_retry races user (payload (some source_version) negative body) source_version
          expected r in
      if done
      then (
        true,
        (
          r',
          mirror_written config user body source_version negative c.revision now
              (run_all waiting c),
        ),
      )
      else (false, (r', c))

  -- No snapshot, of version 0.
  abbrev pub write_negative :
      Config
      → List (Redis D → Redis D)
      → List (Op (Mirror D))
      → ℕ
      → ℕ
      → ℕ
      → Redis D × Cache (Mirror D)
      → Bool × (Redis D × Cache (Mirror D))
  write_negative config races waiting now user expected =
      write_if_newer config races waiting now user none 0 expected true

  -- `INCR epoch; DEL snap` in one step.
  unfoldable pub bump : ℕ → Redis D → Redis D
  bump user r = record {
    snaps = remove user r.snaps;
    epochs = insert user (epoch_of user r + 1) r.epochs;
  }

  unfoldable pub invalidate_user_snap :
      Config → ℕ → Redis D × Cache (Mirror D) → Redis D × Cache (Mirror D)
  invalidate_user_snap config user (r, c) =
      (bump user r, if config.l1_on then l1_delete (config.snap_key user) c else c)

  -- The second level's answer, with the mirror filled from it.
  unfoldable pub from_raw :
      Config
      → Bool
      → ℕ
      → ℕ
      → ℕ
      → Option (Raw D)
      → Cache (Mirror D)
      → (Bool × Option D) × Cache (Mirror D)
  from_raw config absent user revision now none c = ((absent, none), c)
  from_raw config absent user revision now (some garbage) c = ((false, none), c)
  from_raw config absent user revision now (some (payload sv true body)) c = ((true, none), c)
  from_raw config absent user revision now (some (payload sv false none)) c = ((false, none), c)
  from_raw config absent user revision now (some (payload sv false (some d))) c = (
    (false, some d),
    if config.l1_on
        then (l1_set_if_unchanged (config.snap_key user)
            (some (record { sv = sv; data_of = some d })) config.l1_ttl revision now now c).1
        else c,
  )

  unfoldable pub read_local : Config → ℕ → ℕ → Cache (Mirror D) → Option D × Cache (Mirror D)
  read_local config user now c =
      if config.l1_on
      then (let (entry, c') = l1_get (config.snap_key user) now c in
          elim entry [
            | none ↦ (none, c')
            | some m ↦ elim m.data_of [
              | some d ↦ (some d, c')
              | none ↦ (none, l1_delete (config.snap_key user) c')
            ]
          ])
      else (none, c)

  -- (known not to exist, data). `absent` is the answer of the filter, `waiting` the local calls
  -- made while Redis answers.
  unfoldable pub read_snap_state :
      Config
      → Bool
      → List (Op (Mirror D))
      → ℕ
      → ℕ
      → Redis D
      → Cache (Mirror D)
      → (Bool × Option D) × Cache (Mirror D)
  read_snap_state config absent waiting now user r c =
      let (hit, c') = read_local config user now c in
      elim hit [
        | some d ↦ ((false, some d), c')
        | none ↦
            from_raw config absent user c'.revision now (lookup user r.snaps) (run_all waiting c')
      ]
