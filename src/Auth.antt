-- ===== src/Auth.antt =====
-- The sign-in service (auth/): the rows of its tables that decide about sessions, and the state
-- that a request reads and writes. A user id is a number; a time is a number of microseconds.
pub mod Sessions
pub mod Login
pub mod Runs
pub mod Breaker
mod Tests
use lkm_service.Prelude.{
  ℕ, zero, suc, ◌+◌, ◌-◌, ◌*◌, ◌≤◌, ◌<◌, ◌≡◌, refl, sym, ap, ◌∙◌, subst, ◌≢◌, ◌↔◌, ◌⊎◌, inl, inr,
  Bool, true, false, not, ◌&&◌, ◌||◌, Option, none, some, List, [], ◌∷◌, ◌++◌, map, min, max,
  String, arith, if◌then◌else◌, ltb, leb, ◌==◌, nat_key, text_key, Bool-cases, Option-cases, All,
  any, all, keep, length, take, drop, is_some, contains,
}
use lkm_service.Prelude.Dict.{Dict}
use lkm_service.Prelude.Exec.{Exec, ok, err}

pub data AuthErr : Type 0 where
  invalid_credentials account_locked admission_pending admission_rejected : AuthErr
  token_invalid token_expired user_not_found key_in_use : AuthErr

pub data Admission : Type 0 where
  active pending rejected : Admission

pub record User : Type 0 where
  pub username : String
  pub email : Option String
  pub phone : Option String
  pub hashed_password : String
  pub account_level : String
  pub role : String
  pub extra_roles : List String
  pub is_locked : Bool
  pub locked_until : Option ℕ
  pub failed_login_attempts : ℕ
  pub token_version : ℕ
  pub admission_status : Admission
  pub totp_enabled : Bool

-- A row of refresh_tokens; `token_hash` is its key in the table.
pub record RefreshToken : Type 0 where
  pub user_id : ℕ
  pub is_web : Bool
  pub mfa_verified : Bool
  pub mfa_at : Option ℕ
  pub active_roles : Option (List String)
  pub expires_at : ℕ
  pub revoked_at : Option ℕ

-- What an access token says.
pub record AccessToken : Type 0 where
  pub user_id : ℕ
  pub account_level : String
  pub role : String
  pub token_version : ℕ
  pub mfa_verified : Bool
  pub mfa_at : Option ℕ
  pub active_roles : Option (List String)
  pub session_expires_at : Option ℕ
  pub refresh_token_hash : String

-- The tables users, refresh_tokens and audit_logs, the events sent, and the clock.
pub record Accounts : Type 0 where
  pub users : Dict ℕ User
  pub tokens : Dict String RefreshToken
  pub audit : List (ℕ × String)
  pub events : List (String × ℕ)
  pub now : ℕ

-- A session of the accounts' database, rolled back when the call raises. The events are not of this
-- session: each was committed in one of the other database (`_enqueue_committed`), and stays.
abbrev pub in_session : {A : Type 0} → Exec AuthErr Accounts A → Exec AuthErr Accounts A
in_session m s =
    let (r, g) = m s in
    elim r [ ok a ↦ (ok a, g) | err e ↦ (err e, record s { events = g.events }) ]
