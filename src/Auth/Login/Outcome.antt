-- ===== src/Auth/Login/Outcome.antt =====
-- What a password sign-in that returns has done (auth/service_auth.py).
use lkm_service.Auth.Sessions.Gates.{
  clear_keeps_version, Passed, check_account_locked-Passed, Allowed,
  assert_admission_allowed-Allowed, clear_keeps,
}
use lkm_service.Prelude.{eqb_self}
use lkm_service.Prelude.Exec.{◌>>=◌, ◌>>◌, weaken-Returns}
use lkm_service.Auth.Sessions.Issue.{IsIssue, issue_session_tokens-IsIssue}
use lkm_service.Prelude.Dict.{lookup, insert, lookup-insert_same}
use lkm_service.Prelude.Exec.{Returns, bind-Returns, raised-Returns, returned-Returns, pure}
use lkm_service.Auth.Login.{
  Reply, open_session, setup_required, first_session, session, finish, finalize_auth_response,
  needs_setup,
}
use lkm_service.Rbac.{SeparationConstraint}
use lkm_service.Auth.Sessions.{
  clear_expired_lock, lock_is_active, load_user, admission_is_active, issue_session_tokens,
  new_token, check_account_locked, assert_admission_allowed,
}
use lkm_service.Auth.{Accounts, User, AccessToken, RefreshToken, user_not_found}
use lkm_service.Prelude.{
  ℕ, ◌≡◌, refl, ◌∙◌, inl, inr, Bool, true, false, Option, none, some, List, String, nat_key,
  text_key, Bool-cases, Option-cases,
}

pub load_user-lookup :
    (id : ℕ) (s : Accounts)
    → Returns (λ u t. (lookup id s.users ≡ some u) × (t ≡ s)) (load_user id s)
load_user-lookup id s = elim (Option-cases (lookup id s.users)) [
  | inl e ↦
      raised-Returns (λ u t. (lookup id s.users ≡ some u) × (t ≡ s)) (load_user id s) user_not_found
        s (rw e refl)
  | inr (u, e) ↦
      returned-Returns (λ u t. (lookup id s.users ≡ some u) × (t ≡ s)) (load_user id s) u s
        (rw e refl) (e, refl)
]

module _ (ssd dsd : List SeparationConstraint) (sha256 : String → String) (session_time : ℕ)
    (verifypwd : String → String → Option Bool) where
  -- A session was session_opened under a digest that no other token has, with the user's current version,
  -- or an administrator without a second factor got no session.
  pub data Answers (id : ℕ) (u : User) (raw : String) (s : Accounts)
      : Reply → Accounts → Type 0 where
    setup_first :
        {g : Accounts} {r : Reply}
        → r ≡ setup_required id
        → g.tokens ≡ s.tokens
        → Answers id u raw s r g
    session_opened :
        {g : Accounts} {r : Reply} (a : AccessToken) (row : RefreshToken)
        → r ≡ session a raw
        → a.user_id ≡ id
        → a.token_version ≡ u.token_version
        → a.refresh_token_hash ≡ sha256 raw
        → lookup (sha256 raw) s.tokens ≡ none
        → row.user_id ≡ id
        → row.revoked_at ≡ none
        → g.tokens ≡ insert (sha256 raw) row s.tokens
        → Answers id u raw s r g

  pub record IsFinal (id : ℕ) (raw : String) (s : Accounts) (r : Reply) (g : Accounts)
      : Type 0 where
    pub user : User
    pub row : lookup id s.users ≡ some user
    pub unlocked : lock_is_active s.now user ≡ false
    pub admitted : admission_is_active user ≡ true
    pub answer : Answers id user raw s r g

  opening :
      (id : ℕ) (u u' : User) (raw : String) (s t : Accounts)
      → u'.token_version ≡ u.token_version
      → lookup id t.users ≡ some u'
      → t.tokens ≡ s.tokens
      → Returns (Answers id u raw s) (open_session ssd dsd sha256 session_time verifypwd id raw t)
  unfolding open_session
  opening id u u' raw s t version row same =
      let old = first_session in
      bind-Returns (IsIssue ssd dsd sha256 session_time id old raw t) (Answers id u raw s)
        (issue_session_tokens ssd dsd sha256 session_time id old raw) (λ p. pure (session p.0 p.1))
        t (issue_session_tokens-IsIssue ssd dsd sha256 session_time id old raw t)
        (λ p g i.
          let is_it : i.user ≡ u' = cc (i.row, row) in
          session_opened (p.0) (new_token ssd dsd sha256 session_time id old i.roles t.now)
            (rw i.reply refl) (rw i.reply refl)
            (rw i.reply (clear_keeps_version t.now i.user ∙ rw is_it version)) (rw i.reply refl)
            (rw same at (i.unused)) refl refl (rw i.state_after (rw same refl)))

  finishing :
      (id : ℕ) (u u' : User) (raw : String) (s t : Accounts)
      → u'.token_version ≡ u.token_version
      → lookup id t.users ≡ some u'
      → t.tokens ≡ s.tokens
      → Returns
          (Answers id u raw s)
          (finish ssd dsd sha256 session_time verifypwd (needs_setup u') id raw t)
  finishing id u u' raw s t version row same = elim (Bool-cases (needs_setup u')) [
    | inl setup ↦ rw setup (setup_first refl same)
    | inr ready ↦ rw ready (opening id u u' raw s t version row same)
  ]

  pub finalize_auth_response-IsFinal :
      (id : ℕ) (raw : String) (s : Accounts)
      → Returns
          (IsFinal id raw s)
          (finalize_auth_response ssd dsd sha256 session_time verifypwd id raw s)
  unfolding finalize_auth_response
  finalize_auth_response-IsFinal id raw s =
      let end = λ (u : User). finish ssd dsd sha256 session_time verifypwd (needs_setup u) id raw in
      bind-Returns (Passed id s) (IsFinal id raw s) (check_account_locked id)
        (λ _. assert_admission_allowed id >> (load_user id >>= end)) s
        (check_account_locked-Passed id s)
        (λ _ t (u, row, free, eq).
          bind-Returns (Allowed id t) (IsFinal id raw s) (assert_admission_allowed id)
            (λ _. load_user id >>= end) t (assert_admission_allowed-Allowed id t)
            (λ _ t' (v, row', admitted, eq').
              bind-Returns (λ w t''. (lookup id t'.users ≡ some w) × (t'' ≡ t')) (IsFinal id raw s)
                (load_user id) end t' (load_user-lookup id t')
                (λ w t'' h.
                  let u' = clear_expired_lock s.now u in
                  let there = lookup-insert_same id id u' s.users (eqb_self id) in
                  let first : v ≡ u' = cc (rw eq at row', there) in
                  let found : lookup id t'.users ≡ some u' = rw (eq', eq) there in
                  let second : w ≡ u' = cc (h.0, found) in
                  let same : t''.tokens ≡ s.tokens = rw (h.1, eq', eq) refl in
                  weaken-Returns (Answers id u raw s) (IsFinal id raw s) (end w t'')
                    (λ r g answer. record {
                      user = u;
                      row = row;
                      unlocked = free;
                      admitted = clear_keeps s.now u (rw first at admitted);
                      answer = answer;
                    })
                    (finishing id u w raw s t'' (rw second (clear_keeps_version s.now u))
                      (rw h.1 (h.0)) same))))
