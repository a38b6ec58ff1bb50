-- ===== src/Auth/Sessions.antt =====
-- Session tokens (auth/service_auth.py, auth/account_state.py, auth/admission.py and
-- auth/repository.py): gates, issue, rotation and revocation.
pub mod Gates
pub mod Issue
pub mod Rotation
pub mod Success
use Prim.Native.String.{count}
use lkm_service.Auth.{
  active, pending, rejected, key_in_use, invalid_credentials, token_expired, account_locked,
}
use lkm_service.Prelude.Exec.{
  Exec, reads, get_or_raise, ◌>>=◌, ◌>>◌, raise_if, modify, gets, pure, ok, err, Result,
}
use lkm_service.Prelude.Exec.{Exec, Result, reads, ok, get_or_raise, err}
use lkm_service.Prelude.Dict.{Dict, insert, lookup}
use lkm_service.Auth.{
  User, Admission, Accounts, RefreshToken, AccessToken, AuthErr, admission_pending, token_invalid,
  user_not_found, admission_rejected,
}
use lkm_service.Rbac.{SeparationConstraint, activated_roles, known_roles, role_inheritance}
use lkm_service.Prelude.{
  ℕ, zero, suc, ◌+◌, ◌-◌, ◌*◌, ◌≤◌, ◌<◌, ◌≡◌, refl, sym, ap, ◌∙◌, subst, ◌≢◌, ◌↔◌, ◌⊎◌, inl, inr,
  Bool, true, false, not, ◌&&◌, ◌||◌, Option, none, some, List, [], ◌∷◌, ◌++◌, map, min, max,
  String, arith, if◌then◌else◌, ltb, leb, ◌==◌, nat_key, text_key, Bool-cases, Option-cases, All,
  any, all, keep, length, take, drop, is_some, contains,
}

abbrev pub load_user : ℕ → Exec AuthErr Accounts User
load_user id = reads (λ s. get_or_raise user_not_found (lookup id s.users))

abbrev pub put_user : ℕ → User → Accounts → Accounts
put_user id u s = record s { users = insert id u s.users }

abbrev pub put_token : String → RefreshToken → Accounts → Accounts
put_token h t s = record s { tokens = insert h t s.tokens }

-- A lock without an end is permanent.
abbrev pub is_after : ℕ → Option ℕ → Bool
is_after now none = true
is_after now (some t) = ltb now t

unfoldable pub lock_is_active : ℕ → User → Bool
lock_is_active now u = u.is_locked && is_after now u.locked_until

unfoldable pub clear_expired_lock : ℕ → User → User
clear_expired_lock now u =
    if u.is_locked && not (is_after now u.locked_until)
    then record u { is_locked = false; locked_until = none; failed_login_attempts = 0 }
    else u

unfoldable pub check_account_locked : ℕ → Exec AuthErr Accounts (Unit {0})
check_account_locked id = do
  u ← load_user id
  now ← gets (λ s. s.now)
  raise_if (lock_is_active now u) invalid_credentials
  modify (put_user id (clear_expired_lock now u))

unfoldable pub admission_check : Admission → Result AuthErr (Unit {0})
admission_check active = ok tt
admission_check pending = err admission_pending
admission_check rejected = err admission_rejected

abbrev pub admission_is_active : User → Bool
admission_is_active u = elim u.admission_status [
  | active ↦ true
  | pending ↦ false
  | rejected ↦ false
]

abbrev pub assert_admission_allowed : ℕ → Exec AuthErr Accounts (Unit {0})
assert_admission_allowed id = do u ← load_user id; reads (λ _. admission_check u.admission_status)

-- `consume_once` with `consume_conditions`: a token is consumed if it is there, not revoked, and of
-- the web.
abbrev pub is_consumable : RefreshToken → Bool
is_consumable t = not (is_some t.revoked_at) && t.is_web

unfoldable pub consume_token : String → Exec AuthErr Accounts RefreshToken
consume_token h = do
  t ← reads (λ s. get_or_raise token_invalid (lookup h s.tokens))
  raise_if (not (is_consumable t)) token_invalid
  now ← gets (λ s. s.now)
  modify (put_token h (record t { revoked_at = some now }))
  pure t

abbrev pub revoked_of : ℕ → ℕ → RefreshToken → RefreshToken
revoked_of user now t =
    if t.user_id == user && not (is_some t.revoked_at)
    then record t { revoked_at = some now }
    else t

-- `RefreshTokenRepository.revoke_all_for_user`
unfoldable pub revoke_rows : ℕ → ℕ → Dict String RefreshToken → Dict String RefreshToken
revoke_rows user now [] = []
revoke_rows user now ((h, t) ∷ d) = (h, revoked_of user now t) ∷ revoke_rows user now d

-- An UPDATE changes nothing where the row is missing.
unfoldable pub bump_token_version : ℕ → Accounts → Accounts
bump_token_version user s = elim (lookup user s.users) [
  | none ↦ s
  | some u ↦ put_user user (record u { token_version = u.token_version + 1 }) s
]

unfoldable pub revoke_all_refresh_tokens : ℕ → Exec AuthErr Accounts (Unit {0})
revoke_all_refresh_tokens user = do
  modify (λ s. record s { tokens = revoke_rows user s.now s.tokens })
  modify (bump_token_version user)

-- What of an earlier session a new pair of tokens carries on.
pub record Session : Type 0 where
  pub mfa_verified : Bool
  pub mfa_at : Option ℕ
  pub active_roles : Option (List String)
  pub session_expires_at : Option ℕ

abbrev pub or_else : Option ℕ → ℕ → ℕ
or_else none t = t
or_else (some t) _ = t

abbrev pub carried_on : RefreshToken → Session
carried_on t = record {
  mfa_verified = t.mfa_verified && is_some t.mfa_at;
  mfa_at = t.mfa_at;
  active_roles = t.active_roles;
  session_expires_at = some t.expires_at;
}

abbrev pub valid_refresh_token : String → Bool
valid_refresh_token raw = ltb 0 (count raw) && leb (count raw) 128

-- The role constraints of the configuration, the digest of a token, and the life of a new
-- session are parameters.
module _ (ssd dsd : List SeparationConstraint) (sha256 : String → String) (session_time : ℕ) where
  unfoldable pub session_roles : User → Option (List String) → Result AuthErr (Option (List String))
  session_roles u none = ok none
  session_roles u (some roles) =
      elim (activated_roles known_roles role_inheritance ssd dsd u.account_level u.role
        u.extra_roles (some roles)) [ ok chosen ↦ ok (some chosen) | err _ ↦ err token_invalid ]

  abbrev pub new_token : ℕ → Session → Option (List String) → ℕ → RefreshToken
  new_token id old roles now = record {
    user_id = id;
    is_web = true;
    mfa_verified = old.mfa_verified;
    mfa_at = if old.mfa_verified then some (or_else old.mfa_at now) else none;
    active_roles = roles;
    expires_at = or_else old.session_expires_at (now + session_time);
    revoked_at = none;
  }

  abbrev pub access_token : ℕ → User → Session → Option (List String) → String → ℕ → AccessToken
  access_token id u old roles raw now = record {
    user_id = id;
    account_level = u.account_level;
    role = u.role;
    token_version = u.token_version;
    mfa_verified = old.mfa_verified;
    mfa_at = if old.mfa_verified then some (or_else old.mfa_at now) else none;
    active_roles = roles;
    session_expires_at = old.session_expires_at;
    refresh_token_hash = sha256 raw;
  }

  -- `raw` is the token that `generate_refresh_token` draws.
  unfoldable pub write_tokens :
      ℕ
      → Session
      → String
      → User
      → Option (List String)
      → Exec AuthErr Accounts (AccessToken × String)
  write_tokens id old raw u roles = do
    taken ← gets (λ s. is_some (lookup (sha256 raw) s.tokens))
    raise_if taken key_in_use
    now ← gets (λ s. s.now)
    modify (put_token (sha256 raw) (new_token id old roles now))
    pure (access_token id u old roles raw now, raw)

  unfoldable pub issue_to :
      ℕ → Session → String → User → Exec AuthErr Accounts (AccessToken × String)
  issue_to id old raw u = do
    roles ← reads (λ _. session_roles u old.active_roles)
    write_tokens id old raw u roles

  unfoldable pub issue_session_tokens :
      ℕ → Session → String → Exec AuthErr Accounts (AccessToken × String)
  issue_session_tokens id old raw = do
    check_account_locked id
    assert_admission_allowed id
    u ← load_user id
    issue_to id old raw u

  unfoldable pub reissue : RefreshToken → String → Exec AuthErr Accounts (AccessToken × String)
  reissue t new_raw = do
    now ← gets (λ s. s.now)
    raise_if (leb t.expires_at now) token_expired
    u ← load_user t.user_id
    raise_if (lock_is_active now u) account_locked
    raise_if (not (admission_is_active u)) account_locked
    issue_session_tokens t.user_id (carried_on t) new_raw

  unfoldable pub refresh_access_token :
      String → String → Exec AuthErr Accounts (AccessToken × String)
  refresh_access_token raw new_raw = do
    raise_if (not (valid_refresh_token raw)) token_invalid
    t ← consume_token (sha256 raw)
    reissue t new_raw
