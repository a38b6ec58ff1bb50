-- ===== src/Auth/Sessions/Success.antt =====
-- When a refresh succeeds, and with what (auth/service_auth.py).
use lkm_service.Prelude.Dict.{lookup, lookup-insert_same}
use lkm_service.Rbac.{SeparationConstraint}
use lkm_service.Auth.Sessions.{
  clear_expired_lock, check_account_locked, admission_check, admission_is_active,
  issue_session_tokens, issue_to, write_tokens, is_after, Session, assert_admission_allowed,
  put_user, session_roles, lock_is_active, access_token, new_token, put_token, load_user,
}
use lkm_service.Auth.{active, pending, rejected, User, Accounts, Admission}
use lkm_service.Prelude.{
  ◌∙◌, false, not, true, nat_key, some, ◌==◌, refl, arith, ◌<◌, ◌&&◌, text_key, Bool-cases, inl,
  inr, eqb_self, none, String, leb, ℕ, ◌≡◌, List,
}
use lkm_service.Prelude.Exec.{◌>>=◌, ◌>>◌, ok, bind-ok}
use lkm_service.Prelude.{
  ℕ, ◌<◌, ◌≡◌, refl, ◌∙◌, inl, inr, true, false, not, ◌&&◌, none, some, List, String, arith, leb,
  ◌==◌, nat_key, text_key, Bool-cases,
}

-- A user who gets new tokens.
pub record MaySignIn (id : ℕ) (u : User) (s : Accounts) : Type 0 where
  pub row : lookup id s.users ≡ some u
  pub unlocked : lock_is_active s.now u ≡ false
  pub admitted : admission_is_active u ≡ true

passes_gate :
    (id : ℕ) (u : User) (s : Accounts)
    → MaySignIn id u s
    → check_account_locked id s ≡ (ok tt, put_user id (clear_expired_lock s.now u) s)
unfolding check_account_locked
passes_gate id u s may = rw (may.row, ◌>>=◌, may.unlocked) refl

is_admitted :
    (id : ℕ) (u : User) (s : Accounts)
    → lookup id s.users ≡ some u
    → admission_is_active u ≡ true
    → assert_admission_allowed id s ≡ (ok tt, s)
unfolding admission_check
is_admitted id u s row h = go u.admission_status refl
  where
    go : (a : Admission) → u.admission_status ≡ a → assert_admission_allowed id s ≡ (ok tt, s)
    go active e = rw (row, ◌>>=◌, e) refl
    go pending e = absurd (cc (rw e at h))
    go rejected e = absurd (cc (rw e at h))

clear_is_active :
    (now : ℕ) (u : User)
    → admission_is_active u ≡ true
    → admission_is_active (clear_expired_lock now u) ≡ true
unfolding clear_expired_lock
clear_is_active now u h = elim (Bool-cases (u.is_locked && not (is_after now u.locked_until))) [
  | inl p ↦ rw p h
  | inr p ↦ rw p h
]

module _ (ssd dsd : List SeparationConstraint) (sha256 : String → String) (session_time : ℕ) where
  writes :
      (id : ℕ) (old : Session) (raw : String) (u : User) (s : Accounts)
      → old.active_roles ≡ none
      → lookup (sha256 raw) s.tokens ≡ none
      → issue_to ssd dsd sha256 session_time id old raw u s ≡ (
        ok (access_token ssd dsd sha256 session_time id u old none raw s.now, raw),
        put_token (sha256 raw) (new_token ssd dsd sha256 session_time id old none s.now) s,
      )
  unfolding issue_to write_tokens session_roles
  writes id old raw u s plain unused = rw (plain, ◌>>=◌, unused) refl

  pub issue_succeeds :
      (id : ℕ) (old : Session) (raw : String) (u : User) (s : Accounts)
      → MaySignIn id u s
      → old.active_roles ≡ none
      → lookup (sha256 raw) s.tokens ≡ none
      → let u' = clear_expired_lock s.now u in
        issue_session_tokens ssd dsd sha256 session_time id old raw s ≡ (
          ok (access_token ssd dsd sha256 session_time id u' old none raw s.now, raw),
          put_token
              (sha256 raw)
              (new_token ssd dsd sha256 session_time id old none s.now)
              (put_user id u' s),
        )
  unfolding issue_session_tokens
  issue_succeeds id old raw u s may plain unused =
      let u' = clear_expired_lock s.now u in
      let t = put_user id u' s in
      let there : lookup id t.users ≡ some u' = lookup-insert_same id id u' s.users (eqb_self id) in
      let last = issue_to ssd dsd sha256 session_time id old raw in
      bind-ok (check_account_locked id)
        (λ _. assert_admission_allowed id >> (load_user id >>= last)) s t tt
        (passes_gate id u s may)
      ∙ (bind-ok (assert_admission_allowed id) (λ _. load_user id >>= last) t t tt
            (is_admitted id u' t there (clear_is_active s.now u may.admitted))
          ∙ (bind-ok (load_user id) last t t u' (rw there refl)
              ∙ writes id old raw u' t plain unused))
