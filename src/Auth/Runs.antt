-- ===== src/Auth/Runs.antt =====
-- Any sequence of requests to the sign-in service, each in its own session: sign-ins, refreshes and
-- the revocation of all sessions of a user (auth/service_auth.py).
use lkm_service.Auth.Login.Admitted.{Entered, login_password-Entered}
use lkm_service.Auth.Login.Outcome.{setup_first, session_opened}
use lkm_service.Prelude.{eqb_self, nat_eqb_iff}
use lkm_service.Auth.Login.Outcome.{Answers, setup_first, session_opened}
use lkm_service.Auth.Sessions.Rotation.{
  IsRotation, used_up, refresh_access_token-IsRotation, stale_refresh,
}
use lkm_service.Auth.Sessions.Issue.{IsIssue}
use lkm_service.Auth.Login.{login_password, Reply}
use lkm_service.Prelude.Dict.{Dict, lookup, insert, lookup-insert_other, lookup-insert_same}
use lkm_service.Auth.Sessions.{
  revoke_rows, is_consumable, refresh_access_token, revoke_all_refresh_tokens, Session,
  bump_token_version, new_token, revoked_of,
}
use lkm_service.Auth.{RefreshToken, Accounts, AuthErr, AccessToken, User, token_invalid}
use lkm_service.Rbac.{SeparationConstraint}
use lkm_service.Auth.{in_session}
use lkm_service.Prelude.Exec.{Result, ◌>>◌, Exec, pure, modify, ok, err, Returns, bind-Returns}
use lkm_service.Prelude.{
  refl, String, inl, true, is_some, arith, subst, Option, ◌∙◌, sym, nat_key, inr, text_key, ◌≡◌, [],
  ℕ, Bool, Bool-cases, none, some, ◌==◌, ◌∷◌, List, eqb_self,
}

pub data Op : Type 0 where
  -- limited, account, password, token drawn
  login : Bool → String → String → String → Op
  -- token, token drawn
  refresh : String → String → Op
  sign_out_all : ℕ → Op
  pass_time : ℕ → Op

module _ (ssd dsd : List SeparationConstraint) (sha256 : String → String) (session_time : ℕ)
    (verifypwd : String → String → Option Bool) where
  pub run_op : Op → Exec AuthErr Accounts (Unit {0})
  run_op (login limited account password raw) =
      login_password ssd dsd sha256 session_time verifypwd limited account password raw >> pure tt
  run_op (refresh raw new_raw) =
      refresh_access_token ssd dsd sha256 session_time raw new_raw >> pure tt
  run_op (sign_out_all user) = revoke_all_refresh_tokens user
  run_op (pass_time t) = modify (λ s. record s { now = t })

  pub run_all : List Op → Accounts → Accounts
  run_all [] s = s
  run_all (op ∷ ops) s = run_all ops (in_session (run_op op) s).1

-- A row that is revoked stays as it is.
module _ (h : String) (t : RefreshToken) (gone : is_some t.revoked_at ≡ true) where
  abbrev Stands : Accounts → Type 0
  Stands s = lookup h s.tokens ≡ some t

  session_keeps :
      {A : Type 0} (m : Exec AuthErr Accounts A) (s : Accounts)
      → Stands s
      → Returns (λ _ g. Stands g) (m s)
      → Stands (in_session m s).1
  session_keeps {A = A} m s old new = go (m s) new
    where
      go :
          (p : Result AuthErr A × Accounts)
          → Returns (λ _ g. Stands g) p
          → let q : Result AuthErr A × Accounts = elim p.0 [
            | ok a ↦ (ok a, p.1)
            | err e ↦ (err e, record s { events = p.1.events })
          ] in
            Stands q.1
      go (ok a, g) k = k
      go (err e, g) k = old

  fresh_row :
      (k : String) (row : RefreshToken) (d : Dict String RefreshToken)
      → lookup k d ≡ none
      → lookup h d ≡ some t
      → lookup h (insert k row d) ≡ some t
  fresh_row k row d free stands = elim (Bool-cases (k == h)) [
    | inl same ↦
        let e : k ≡ h = (text_key.same_iff k h).0 same in absurd (cc (free, rw (← e) at stands))
    | inr other ↦ lookup-insert_other k h row d other ∙ stands
  ]

  used_row :
      (k : String) (old row : RefreshToken) (d : Dict String RefreshToken)
      → lookup k d ≡ some old
      → is_consumable old ≡ true
      → lookup h d ≡ some t
      → lookup h (insert k row d) ≡ some t
  used_row k old row d there fresh stands = elim (Bool-cases (k == h)) [
    | inl same ↦
        let e : k ≡ h = (text_key.same_iff k h).0 same in
        let it : some old ≡ some t = sym there ∙ rw e stands in
        absurd (ground (arith, it, fresh, gone))
    | inr other ↦ lookup-insert_other k h row d other ∙ stands
  ]

  revoked_row :
      (user now : ℕ) (d : Dict String RefreshToken)
      → lookup h d ≡ some t
      → lookup h (revoke_rows user now d) ≡ some t
  unfolding revoke_rows lookup
  revoked_row user now [] stands = absurd (cc stands)
  revoked_row user now ((k, r) ∷ d) stands = elim (Bool-cases (k == h)) [
    | inl same ↦ let it : r ≡ t = cc (rw same at stands) in rw (same, it) (ground (arith, gone))
    | inr other ↦ rw other (revoked_row user now d (rw other at stands))
  ]

  module _ (ssd dsd : List SeparationConstraint) (sha256 : String → String) (session_time : ℕ)
      (verifypwd : String → String → Option Bool) where
    answer_keeps :
        {id : ℕ} {u : User} {raw : String} {s g : Accounts} {r : Reply}
        → Answers ssd dsd sha256 session_time verifypwd id u raw s r g
        → Stands s
        → Stands g
    answer_keeps (setup_first e same) stands = rw same stands
    answer_keeps {raw = raw} {s = s} (session_opened a row e x y z unused w n f) stands =
        rw f (fresh_row (sha256 raw) row s.tokens unused stands)

    issue_keeps :
        {id : ℕ} {old : Session} {raw : String} {s g : Accounts} {p : AccessToken × String}
        → IsIssue ssd dsd sha256 session_time id old raw s p g
        → Stands s
        → Stands g
    issue_keeps {id = id} {old = old} {raw = raw} {s = s} i stands = rw i.state_after (
        fresh_row (sha256 raw) (new_token ssd dsd sha256 session_time id old i.roles s.now) s.tokens
          i.unused stands)

    rotation_keeps :
        {raw new_raw : String} {s g : Accounts} {p : AccessToken × String}
        → IsRotation ssd dsd sha256 session_time raw new_raw s p g
        → Stands s
        → Stands g
    rotation_keeps {raw = raw} {s = s} r stands = issue_keeps r.issue (
        rw r.used_after
          (used_row (sha256 raw) r.old (used_up s.now r.old) s.tokens r.old_row r.usable stands))

    bump_keeps : (user : ℕ) (s : Accounts) → (bump_token_version user s).tokens ≡ s.tokens
    unfolding bump_token_version
    bump_keeps user s = ground arith

    op_keeps :
        (op : Op) (s : Accounts)
        → Stands s
        → Returns (λ _ g. Stands g) (run_op ssd dsd sha256 session_time verifypwd op s)
    unfolding run_op revoke_all_refresh_tokens
    op_keeps (login limited account password raw) s stands =
        bind-Returns (Entered ssd dsd sha256 session_time verifypwd account password raw s)
          (λ _ g. Stands g)
          (login_password ssd dsd sha256 session_time verifypwd limited account password raw)
          (λ _. pure tt) s
          (login_password-Entered ssd dsd sha256 session_time verifypwd limited account password raw
            s)
          (λ r g (id, u, e, right, h). answer_keeps h.answer stands)
    op_keeps (refresh raw new_raw) s stands =
        bind-Returns (IsRotation ssd dsd sha256 session_time raw new_raw s) (λ _ g. Stands g)
          (refresh_access_token ssd dsd sha256 session_time raw new_raw) (λ _. pure tt) s
          (refresh_access_token-IsRotation ssd dsd sha256 session_time raw new_raw s)
          (λ p g r. rotation_keeps r stands)
    op_keeps (sign_out_all user) s stands =
        rw (bump_keeps user (record s { tokens = revoke_rows user s.now s.tokens }))
          (revoked_row user s.now s.tokens stands)
    op_keeps (pass_time t') s stands = stands

    run_keeps :
        (ops : List Op) (s : Accounts)
        → Stands s
        → Stands (run_all ssd dsd sha256 session_time verifypwd ops s)
    unfolding run_all
    run_keeps [] s stands = stands
    run_keeps (op ∷ ops) s stands =
        run_keeps ops (in_session (run_op ssd dsd sha256 session_time verifypwd op) s).1 (
          session_keeps (run_op ssd dsd sha256 session_time verifypwd op) s stands
            (op_keeps op s stands))

module _ (ssd dsd : List SeparationConstraint) (sha256 : String → String) (session_time : ℕ)
    (verifypwd : String → String → Option Bool) where
  revoked_of_own :
      (user now : ℕ) (t : RefreshToken)
      → t.user_id ≡ user
      → is_some (revoked_of user now t).revoked_at ≡ true
  revoked_of_own user now t own = ground (arith, (nat_eqb_iff t.user_id user).1 own)

  lookup-revoke_rows :
      (user now : ℕ) (h : String) (t : RefreshToken) (d : Dict String RefreshToken)
      → lookup h d ≡ some t
      → lookup h (revoke_rows user now d) ≡ some (revoked_of user now t)
  unfolding revoke_rows lookup
  lookup-revoke_rows user now h t [] e = absurd (cc e)
  lookup-revoke_rows user now h t ((k, r) ∷ d) e = elim (Bool-cases (k == h)) [
    | inl same ↦ let it : r ≡ t = cc (rw same at e) in rw (same, it) refl
    | inr other ↦ rw other (lookup-revoke_rows user now h t d (rw other at e))
  ]

  -- A refresh token works once: after a refresh that returned, and whatever requests follow, every
  -- further refresh with it is refused and changes nothing.
  pub refresh_once :
      (raw new_raw new_raw' : String) (ops : List Op) (s g : Accounts) (p : AccessToken × String)
      → refresh_access_token ssd dsd sha256 session_time raw new_raw s ≡ (ok p, g)
      → let later = run_all ssd dsd sha256 session_time verifypwd ops g in
        refresh_access_token ssd dsd sha256 session_time raw new_raw' later
        ≡ (err token_invalid, later)
  refresh_once raw new_raw new_raw' ops s g p h =
      let r =
        subst (Returns (IsRotation ssd dsd sha256 session_time raw new_raw s)) h
          (refresh_access_token-IsRotation ssd dsd sha256 session_time raw new_raw s) in
      let t = used_up s.now r.old in
      let used_row_now : lookup (sha256 raw) r.used.tokens ≡ some t =
        rw r.used_after
          (lookup-insert_same (sha256 raw) (sha256 raw) t s.tokens (eqb_self (sha256 raw))) in
      let after_issue =
        issue_keeps (sha256 raw) t refl ssd dsd sha256 session_time verifypwd r.issue
          used_row_now in
      let later = run_all ssd dsd sha256 session_time verifypwd ops g in
      stale_refresh ssd dsd sha256 session_time raw new_raw' t later
        (run_keeps (sha256 raw) t refl ssd dsd sha256 session_time verifypwd ops g after_issue) refl

  -- After all sessions of a user were revoked, and whatever requests follow, a refresh with any
  -- token that the user had by then is refused and changes nothing.
  pub refresh_after_revocation :
      (user : ℕ) (raw new_raw : String) (t : RefreshToken) (ops : List Op) (s : Accounts)
      → lookup (sha256 raw) s.tokens ≡ some t
      → t.user_id ≡ user
      → let gone = (revoke_all_refresh_tokens user s).1 in
        let later = run_all ssd dsd sha256 session_time verifypwd ops gone in
        refresh_access_token ssd dsd sha256 session_time raw new_raw later
        ≡ (err token_invalid, later)
  unfolding revoke_all_refresh_tokens
  refresh_after_revocation user raw new_raw t ops s e own =
      let s' = record s { tokens = revoke_rows user s.now s.tokens } in
      let gone = bump_token_version user s' in
      let t' = revoked_of user s.now t in
      let dead = revoked_of_own user s.now t own in
      let row : lookup (sha256 raw) gone.tokens ≡ some t' =
        rw (bump_keeps (sha256 raw) t' dead ssd dsd sha256 session_time verifypwd user s')
          (lookup-revoke_rows user s.now (sha256 raw) t s.tokens e) in
      let later = run_all ssd dsd sha256 session_time verifypwd ops gone in
      stale_refresh ssd dsd sha256 session_time raw new_raw t' later
        (run_keeps (sha256 raw) t' dead ssd dsd sha256 session_time verifypwd ops gone row)
        (ground (arith, dead))
