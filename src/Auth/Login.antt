-- ===== src/Auth/Login.antt =====
-- Signing in with a password (auth/service_auth.py, auth/repository.py): the lock after failed
-- attempts, and the session that a success opens.
pub mod Outcome
pub mod Admitted
pub mod Lockout
use lkm_service.Prelude.Exec.{◌>>=◌, ◌>>◌, gets, modify, raise_if, raise, reads, get_or_raise}
use lkm_service.Prelude.Texts.{strip}
use lkm_service.Auth.{in_session, invalid_credentials, account_locked}
use lkm_service.Auth.Sessions.{
  Session, issue_session_tokens, load_user, check_account_locked, assert_admission_allowed,
  put_user,
}
use lkm_service.Prelude.Exec.{Exec, pure, ◌>>=◌}
use lkm_service.Auth.{User, AccessToken, Accounts, AuthErr}
use lkm_service.Prelude.Dict.{Dict}
use lkm_service.Rbac.{SeparationConstraint}
use lkm_service.Prelude.{
  ℕ, zero, suc, ◌+◌, ◌-◌, ◌*◌, ◌≤◌, ◌<◌, ◌≡◌, refl, sym, ap, ◌∙◌, subst, ◌≢◌, ◌↔◌, ◌⊎◌, inl, inr,
  Bool, true, false, not, ◌&&◌, ◌||◌, Option, none, some, List, [], ◌∷◌, ◌++◌, map, min, max,
  String, arith, if◌then◌else◌, ltb, leb, ◌==◌, nat_key, text_key, Bool-cases, Option-cases, All,
  any, all, keep, length, take, drop, is_some, contains,
}

abbrev pub fail_lock_threshold : ℕ
fail_lock_threshold = 5

abbrev pub lock_time : ℕ
lock_time = 15 * 60000000

-- `failed_login_stmt`: one UPDATE, in which every column is the old row's.
pub counted : ℕ → User → User
counted now u =
    let reached = leb (fail_lock_threshold - 1) u.failed_login_attempts in
    record u {
      failed_login_attempts = u.failed_login_attempts + 1;
      is_locked = reached;
      locked_until = if reached then some (now + lock_time) else u.locked_until;
    }

-- Whether this attempt has reached the threshold.
pub record_failed_attempt : ℕ → Exec AuthErr Accounts Bool
record_failed_attempt id = do
  u ← load_user id
  modify (λ s. put_user id (counted s.now u) s)
  pure (leb fail_lock_threshold (u.failed_login_attempts + 1))

-- `reset_login_failures_stmt`
abbrev pub cleared : User → User
cleared u = record u { failed_login_attempts = 0; is_locked = false; locked_until = none }

abbrev pub is_text : Option String → String → Bool
is_text none _ = false
is_text (some a) b = a == b

-- `find_by_identity` with the account's text for all three fields. The table is in any order, so the
-- first row stands for whichever one the query returns.
abbrev pub is_identified : String → User → Bool
is_identified account u =
    u.username == account
    || not (account == "") && (is_text u.email account || is_text u.phone account)

unfoldable pub find_by_identity : String → Dict ℕ User → Option (ℕ × User)
find_by_identity account [] = none
find_by_identity account ((id, u) ∷ d) =
    if is_identified account u then some (id, u) else find_by_identity account d

abbrev pub note : ℕ → String → Accounts → Accounts
note id action s = record s { audit = s.audit ++ (id, action) ∷ [] }

abbrev pub tell : String → ℕ → Accounts → Accounts
tell event id s = record s { events = s.events ++ (event, id) ∷ [] }

abbrev pub tell_locked : Bool → ℕ → Accounts → Accounts
tell_locked true id s = tell "user_banned" id (note id "account_locked" s)
tell_locked false id s = s

abbrev pub tell_unlocked : Bool → ℕ → Accounts → Accounts
tell_unlocked true id s = tell "user_updated" id s
tell_unlocked false id s = s

-- The failed branch: the attempt is counted, and the call raises.
pub refuse : ℕ → Exec AuthErr Accounts (Unit {0})
refuse id = do
  locked ← record_failed_attempt id
  modify (tell_locked locked id)
  modify (tell "audit_login_fail" id)
  raise invalid_credentials

-- `_check_admin_totp_required`
abbrev pub needs_setup : User → Bool
needs_setup u = u.account_level == "admin" && not u.totp_enabled

pub data Reply : Type 0 where
  session : AccessToken → String → Reply
  -- an administrator without a second factor has to set it up
  setup_required : ℕ → Reply

abbrev pub first_session : Session
first_session = record {
  mfa_verified = false;
  mfa_at = none;
  active_roles = none;
  session_expires_at = none;
}

module _ (ssd dsd : List SeparationConstraint) (sha256 : String → String) (session_time : ℕ)
    (verifypwd : String → String → Option Bool) where
  -- `verifypwd` raises on a corrupted hash, which counts as a wrong password.
  abbrev pub is_right : String → User → Bool
  is_right password u = elim (verifypwd password u.hashed_password) [ none ↦ false | some b ↦ b ]

  unfoldable pub open_session : ℕ → String → Exec AuthErr Accounts Reply
  open_session id raw =
      issue_session_tokens ssd dsd sha256 session_time id first_session raw >>= λ p.
      pure (session p.0 p.1)

  abbrev pub finish : Bool → ℕ → String → Exec AuthErr Accounts Reply
  finish setup id raw = if setup then pure (setup_required id) else open_session id raw

  unfoldable pub finalize_auth_response : ℕ → String → Exec AuthErr Accounts Reply
  finalize_auth_response id raw = do
    check_account_locked id
    assert_admission_allowed id
    u ← load_user id
    finish (needs_setup u) id raw

  unfoldable pub admit : Bool → ℕ → String → Exec AuthErr Accounts Reply
  admit was_locked id raw = do
    assert_admission_allowed id
    u ← load_user id
    modify (put_user id (cleared u))
    modify (tell_unlocked was_locked id)
    modify (note id "login_password")
    finalize_auth_response id raw

  abbrev pub check_password : Bool → ℕ → Exec AuthErr Accounts (Unit {0})
  check_password right id = if right then pure tt else refuse id

  -- The found account: its lock, the password, and what follows.
  unfoldable pub sign_in : Bool → Bool → ℕ → String → Exec AuthErr Accounts Reply
  sign_in was_locked right id raw = do
    check_account_locked id
    check_password right id
    admit was_locked id raw

  -- `limited` is the answer of the rate limiter.
  unfoldable pub login_password : Bool → String → String → String → Exec AuthErr Accounts Reply
  login_password limited account password raw = do
    raise_if limited account_locked
    found ← reads (λ s. get_or_raise invalid_credentials (find_by_identity (strip account) s.users))
    sign_in found.1.is_locked (is_right password found.1) found.0 raw

  -- The route, in a session of its own.
  unfoldable pub login_password_route :
      Bool → String → String → String → Exec AuthErr Accounts Reply
  login_password_route limited account password raw =
      in_session (login_password limited account password raw)
