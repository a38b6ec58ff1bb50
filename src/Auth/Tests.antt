-- ===== src/Auth/Tests.antt =====
-- The sign-in service at concrete inputs: a run, and each law at an input that meets it.
use Prim.Native.String.{◌++◌ as ◌+++◌}
use lkm_service.Auth.{active}
use lkm_service.Prelude.Texts.{strip_start, strip_end}
use lkm_service.Prelude.Keys.{HasUniqueKeys}
use lkm_service.Auth.Login.Lockout.{run_logins, run_logins_forgets, IsWrong}
use lkm_service.Auth.Login.{
  find_by_identity, login_password, sign_in, admit, finalize_auth_response, open_session,
}
use lkm_service.Auth.{RefreshToken, User, AccessToken, Accounts, active, token_invalid}
use lkm_service.Auth.Breaker.{
  begin_request, end_request, Breaker, http_error, replied, open_circuit, abandoned, at_rest, shut,
}
use lkm_service.Prelude.Exec.{err, ok}
use lkm_service.Auth.Runs.{
  Op, run_all, login, refresh, sign_out_all, refresh_after_revocation, refresh_once,
}
use lkm_service.Auth.Sessions.{
  revoke_all_refresh_tokens, lock_is_active, refresh_access_token, consume_token, reissue,
  check_account_locked, clear_expired_lock, admission_check, issue_session_tokens, issue_to,
  write_tokens, session_roles,
}
use lkm_service.Auth.Breaker.Laws.{
  request, sent_in, after_parts, waiting, IsFailing, after_calls, Call, sent_of, abandoned_probe,
  threshold_opens,
}
use lkm_service.Prelude.Dict.{lookup, insert}
use lkm_service.Prelude.{
  [], All, none, ◌≡◌, List, ◌==◌, nat_key, text_key, false, true, Bool, Option, ◌∷◌, arith, String,
  some, refl,
}

-- A verifier that compares texts, and a digest that marks a token.
abbrev same_text : String → String → Option Bool
same_text password hashed = some (password == hashed)

abbrev digest : String → String
digest raw = raw +++ "#"

abbrev ann : User
ann = record {
  username = "ann";
  email = none;
  phone = none;
  hashed_password = "pw";
  account_level = "normal";
  role = "member";
  extra_roles = [];
  is_locked = false;
  locked_until = none;
  failed_login_attempts = 0;
  token_version = 3;
  admission_status = active;
  totp_enabled = false;
}

abbrev start : Accounts
start = record { users = (1, ann) ∷ []; tokens = []; audit = []; events = []; now = 10 }

abbrev ann_token : RefreshToken
ann_token = record {
  user_id = 1;
  is_web = true;
  mfa_verified = false;
  mfa_at = none;
  active_roles = none;
  expires_at = 110;
  revoked_at = none;
}

abbrev signed_in : Accounts
signed_in = record start { tokens = ("r1#", ann_token) ∷ [] }

start_unique : HasUniqueKeys start.users
unfolding lookup
start_unique = (refl, tt)

login_run :
    (login_password [] [] digest 100 same_text false "ann" "pw" "r1" start).1.tokens
    ≡ ("r1#", ann_token) ∷ []
unfolding login_password find_by_identity sign_in check_account_locked lock_is_active
    clear_expired_lock admit admission_check finalize_auth_response open_session
    issue_session_tokens issue_to write_tokens session_roles lookup insert strip_start strip_end
login_run = refl

-- Two wrong passwords for ann.
bad_passwords :
    All
      (IsWrong [] [] digest 100 same_text start)
      ((false, ("ann", ("x", "r1"))) ∷ (false, (" ann", ("y", "r2"))) ∷ [])
unfolding find_by_identity strip_start strip_end
bad_passwords = (
  λ id u h. (let e : some (1, ann) ≡ some (id, u) = h in let f : ann ≡ u = cc e in rw (← f) refl),
  (
    (λ id u h.
        (let e : some (1, ann) ≡ some (id, u) = h in let f : ann ≡ u = cc e in rw (← f) refl)),
    tt,
  ),
)

run_logins_forgets_example :
    let g =
      run_logins [] [] digest 100 same_text
        ((false, ("ann", ("x", "r1"))) ∷ (false, (" ann", ("y", "r2"))) ∷ [])
        start in
    (g.users ≡ start.users) × (g.tokens ≡ start.tokens) × (g.audit ≡ start.audit)
run_logins_forgets_example =
    run_logins_forgets [] [] digest 100 same_text
      ((false, ("ann", ("x", "r1"))) ∷ (false, (" ann", ("y", "r2"))) ∷ []) start start_unique
      bad_passwords

abbrev next_token : RefreshToken
next_token = ann_token

-- After r1 was used for r2.
abbrev refreshed : Accounts
refreshed = record start {
  tokens = ("r1#", record ann_token { revoked_at = some 10 }) ∷ ("r2#", next_token) ∷ [];
}

abbrev reply : AccessToken × String
reply = (
  record {
    user_id = 1;
    account_level = "normal";
    role = "member";
    token_version = 3;
    mfa_verified = false;
    mfa_at = none;
    active_roles = none;
    session_expires_at = some 110;
    refresh_token_hash = "r2#";
  },
  "r2",
)

refresh_run : refresh_access_token [] [] digest 100 "r1" "r2" signed_in ≡ (ok reply, refreshed)
unfolding refresh_access_token consume_token reissue check_account_locked lock_is_active
    clear_expired_lock admission_check issue_session_tokens issue_to write_tokens session_roles
    lookup insert
refresh_run = refl

abbrev requests : List Op
requests = refresh "r2" "r3" ∷ login false "ann" "pw" "r4" ∷ sign_out_all 2 ∷ []

refresh_once_example :
    let later = run_all [] [] digest 100 same_text requests refreshed in
    refresh_access_token [] [] digest 100 "r1" "r5" later ≡ (err token_invalid, later)
refresh_once_example =
    refresh_once [] [] digest 100 same_text "r1" "r2" "r5" requests signed_in refreshed reply
      refresh_run

ann_row : lookup (digest "r1") signed_in.tokens ≡ some ann_token
unfolding lookup
ann_row = refl

refresh_after_revocation_example :
    let gone = (revoke_all_refresh_tokens 1 signed_in).1 in
    let later = run_all [] [] digest 100 same_text requests gone in
    refresh_access_token [] [] digest 100 "r1" "r5" later ≡ (err token_invalid, later)
refresh_after_revocation_example =
    refresh_after_revocation [] [] digest 100 same_text 1 "r1" "r5" ann_token requests signed_in
      ann_row refl

one_fails : All (λ (c : Call). IsFailing c.1.1) ((1, (2, http_error)) ∷ [])
unfolding IsFailing
one_fails = (tt, tt)

five_hundred : IsFailing (replied 503)
unfolding IsFailing
five_hundred = omega arith

-- Two failures open the circuit.
threshold_opens_example :
    let b = after_calls 2 30 ((1, (2, http_error)) ∷ []) at_rest in
    let r = request 2 30 3 4 (replied 503) b in
    (b.state ≡ shut)
    × ((sent_of 2 30 ((1, (2, http_error)) ∷ []) at_rest ≡ 1)
        × ((r.0 ≡ true) × ((r.1.state ≡ open_circuit) × (r.1.opened_at ≡ 4))))
threshold_opens_example =
    threshold_opens 2 30 ((1, (2, http_error)) ∷ []) 3 4 (replied 503) one_fails five_hundred refl

abbrev cooled : Breaker
cooled = record { state = open_circuit; failures = 2; opened_at = 4; probing = false }

abandoned_probe_example :
    let probe = begin_request 2 30 40 (record { breaker = cooled; in_flight = 0 }) in
    let l = end_request 2 30 41 abandoned probe.1 in
    (probe.0 ≡ true)
    × ((sent_in 2 30 ((90, none) ∷ (91, some (replied 200)) ∷ (99, none) ∷ []) l ≡ 0)
        × (after_parts 2 30 ((90, none) ∷ (91, some (replied 200)) ∷ (99, none) ∷ []) l
            ≡ waiting 2 30 cooled.failures cooled.opened_at))
abandoned_probe_example =
    abandoned_probe 2 30 40 41 ((90, none) ∷ (91, some (replied 200)) ∷ (99, none) ∷ []) cooled refl
      (omega arith)
