-- ===== src/Cache/Users/Epochs.antt =====
-- Epochs fence off a fill that began before an invalidation (core/user_cache.py).
use lkm_service.Cache.Local.{Cache}
use lkm_service.Cache.Local.Runs.{Op}
use lkm_service.Prelude.{
  true, ◌+◌, zero, suc, ℕ, refl, ◌<◌, List, Option, Bool-cases, nat_key, All, inl, eqb_self,
  Option-cases, Bool, some, ◌≤◌, [], inr, ◌∷◌, false, text_key, subst, ◌≡◌, arith,
}
use lkm_service.Prelude.Dict.{lookup, remove, lookup-insert}
use lkm_service.Cache.Users.{
  Redis, Raw, accepts, epoch_of, cas, store, bump, current_epoch, extract_sv, write_if_newer,
  Config, Mirror, max_cas_retry, payload,
}

module _ {D : Type 0} where
  -- A change of Redis by any process: a fill that is accepted, an invalidation, the start of an
  -- epoch, the end of a snapshot's time to live. Redis keeps the epochs, which have none.
  pub data Step : Redis D → Redis D → Type 0 where
    stored : (u : ℕ) (raw : Raw D) (r : Redis D) → Step r (store u raw r)
    bumped : (u : ℕ) (r : Redis D) → Step r (bump u r)
    started : (u clock : ℕ) (r : Redis D) → Step r (current_epoch u clock r).1
    expired : (u : ℕ) (r : Redis D) → Step r (record r { snaps = remove u r.snaps })

  pub data Steps : Redis D → Redis D → Type 0 where
    done : (r : Redis D) → Steps r r
    next : (r s t : Redis D) → Step r s → Steps s t → Steps r t

  epoch_bump : (u v : ℕ) (r : Redis D) → epoch_of v r ≤ epoch_of v (bump u r)
  unfolding epoch_of bump
  epoch_bump u v r =
      ground (arith, lookup-insert u v (epoch_of u r + 1) r.epochs, nat_key.same_iff u v)

  epoch_started :
      (u v clock : ℕ) (r : Redis D) → epoch_of v r ≤ epoch_of v (current_epoch u clock r).1
  unfolding epoch_of current_epoch
  epoch_started u v clock r = elim (Option-cases (lookup u r.epochs)) [
    | inr (e, at) ↦ rw (at, current_epoch) (omega arith)
    | inl at ↦
        rw (at, current_epoch)
          (ground (arith, at, lookup-insert u v clock r.epochs, nat_key.same_iff u v))
  ]

  epoch_of-Step : (v : ℕ) (r s : Redis D) → Step r s → epoch_of v r ≤ epoch_of v s
  unfolding epoch_of
  epoch_of-Step v r s (stored u raw r') = omega arith
  epoch_of-Step v r s (bumped u r') = epoch_bump u v r'
  epoch_of-Step v r s (started u clock r') = epoch_started u v clock r'
  epoch_of-Step v r s (expired u r') = omega arith

  pub epoch_of-Steps : (v : ℕ) (r s : Redis D) → Steps r s → epoch_of v r ≤ epoch_of v s
  epoch_of-Steps v r s (done r') = omega arith
  epoch_of-Steps v r s (next r' m t first rest) =
      omega (arith, epoch_of-Step v r' m first, epoch_of-Steps v m t rest)

  epoch_bumped : (u : ℕ) (r : Redis D) → epoch_of u r < epoch_of u (bump u r)
  unfolding epoch_of bump
  epoch_bumped u r = ground (arith, lookup-insert u u (epoch_of u r + 1) r.epochs, eqb_self u)

  -- Each of the changes that make an attempt fail is a step.
  abbrev pub AreSteps : List (Redis D → Redis D) → Type 0
  AreSteps = All (λ race. (r : Redis D) → Steps r (race r))

  refused :
      (user source_version expected : ℕ) (r : Redis D)
      → expected < epoch_of user r
      → accepts user source_version expected r ≡ false
  unfolding accepts
  refused user source_version expected r h = ground (arith, h)

  pub cas_stale :
      (n : ℕ) (races : List (Redis D → Redis D)) (user : ℕ) (raw : Raw D)
      (source_version expected : ℕ) (r : Redis D)
      → expected < epoch_of user r
      → cas n races user raw source_version expected r ≡ (false, r)
  unfolding cas
  cas_stale zero races user raw sv expected r h = refl
  cas_stale (suc n) [] user raw sv expected r h = rw (refused user sv expected r h)
  cas_stale (suc n) (race ∷ races) user raw sv expected r h = rw (refused user sv expected r h)

  -- A fill whose epoch was read before an invalidation of the user stores nothing, neither in Redis
  -- nor in the local cache, whatever steps other processes have made before and after it, and
  -- whatever version the fill has.
  pub write_after_bump :
      (config : Config) (races : List (Redis D → Redis D)) (waiting : List (Op (Mirror D)))
      (now user : ℕ) (body : Option D) (source_version : ℕ) (negative : Bool) (r s t : Redis D)
      (c : Cache (Mirror D))
      → Steps r s
      → Steps (bump user s) t
      → write_if_newer config races waiting now user body source_version
          (epoch_of user r)
          negative
          (t, c)
        ≡ (false, (t, c))
  unfolding write_if_newer
  write_after_bump config races waiting now user body sv negative r s t c before after = rw (
      cas_stale max_cas_retry races user (payload (some sv) negative body) sv (epoch_of user r) t (
        omega (
          arith,
          epoch_of-Steps user r s before,
          epoch_bumped user s,
          epoch_of-Steps user (bump user s) t after,
        )))

  -- A fill that stored: in a state that other processes' steps have led to, the epoch was the
  -- expected one and no newer version was there.
  pub record Written (user : ℕ) (raw : Raw D) (source_version expected : ℕ) (r r' : Redis D)
      : Type 0 where
    pub at : Redis D
    pub reached : Steps r at
    pub current : epoch_of user at ≡ expected
    pub older :
        (old : Raw D) (v : ℕ)
        → lookup user at.snaps ≡ some old
        → extract_sv old ≡ some v
        → v ≤ source_version
    pub result : r' ≡ store user raw at

  append-Steps : (r s t : Redis D) → Steps r s → Steps s t → Steps r t
  append-Steps r s t (done _) q = q
  append-Steps r s t (next _ m _ first rest) q = next r m t first (append-Steps m s t rest q)

  accepted-Written :
      (user : ℕ) (raw : Raw D) (source_version expected : ℕ) (r : Redis D)
      → accepts user source_version expected r ≡ true
      → Written user raw source_version expected r (store user raw r)
  unfolding accepts
  accepted-Written user raw sv expected r h = record {
    at = r;
    reached = done r;
    current = ground (arith, h, nat_key.same_iff (epoch_of user r) expected);
    older = λ old v found version. ground (arith, h);
    result = refl;
  }

  cas-Written :
      (n : ℕ) (races : List (Redis D → Redis D)) (user : ℕ) (raw : Raw D)
      (source_version expected : ℕ) (r r' : Redis D)
      → AreSteps races
      → cas n races user raw source_version expected r ≡ (true, r')
      → Written user raw source_version expected r r'
  unfolding cas
  cas-Written zero races user raw sv expected r r' k h = absurd (cc h)
  cas-Written (suc n) [] user raw sv expected r r' k h =
      elim (Bool-cases (accepts user sv expected r)) [
        | inl ready ↦
            let p : store user raw r ≡ r' = cc (rw ready at h) in
            subst (Written user raw sv expected r) p (accepted-Written user raw sv expected r ready)
        | inr failed ↦ absurd (cc (rw failed at h))
      ]
  cas-Written (suc n) (race ∷ races) user raw sv expected r r' k h =
      elim (Bool-cases (accepts user sv expected r)) [
        | inl ready ↦
            let w = cas-Written n races user raw sv expected (race r) r' k.1 (rw ready at h) in
            record {
              at = w.at;
              reached = append-Steps r (race r) w.at (k.0 r) w.reached;
              current = w.current;
              older = w.older;
              result = w.result;
            }
        | inr failed ↦ absurd (cc (rw failed at h))
      ]

  -- A fill that reports success has stored its payload in Redis at a moment when the epoch was the
  -- one that its caller had read and no stored version was newer than its own.
  pub write-Written :
      (config : Config) (races : List (Redis D → Redis D)) (waiting : List (Op (Mirror D)))
      (now user : ℕ) (body : Option D) (source_version expected : ℕ) (negative : Bool)
      (r r' : Redis D) (c c' : Cache (Mirror D))
      → AreSteps races
      → write_if_newer config races waiting now user body source_version expected negative (r, c)
        ≡ (true, (r', c'))
      → Written user (payload (some source_version) negative body) source_version expected r r'
  unfolding write_if_newer
  write-Written config races waiting now user body sv expected negative r r' c c' k h =
      let written = payload (some sv) negative body in
      elim (Bool-cases (cas max_cas_retry races user written sv expected r).0) [
        | inl won ↦
            let same : (cas max_cas_retry races user written sv expected r).1 ≡ r' =
              cc (rw won at h) in
            cas-Written max_cas_retry races user written sv expected r r' k (λ i. (won i, same i))
        | inr failed ↦ absurd (cc (rw failed at h))
      ]
