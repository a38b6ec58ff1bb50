-- ===== src/Auth/Login/Lockout.antt =====
-- The lock after failed attempts (auth/service_auth.py): what one attempt counts, and what is left
-- of it when the request's session is rolled back (auth/db/session.py).
use lkm_service.Auth.Login.Admitted.{IsLogin, login_password-IsLogin}
use lkm_service.Auth.{in_session, AuthErr}
use lkm_service.Prelude.Exec.{Exec, Result, Returns, ok, err, weaken-Returns}
use lkm_service.Prelude.Texts.{strip}
use lkm_service.Prelude.Keys.{HasUniqueKeys}
use lkm_service.Auth.Sessions.{lock_is_active}
use lkm_service.Auth.{User, Accounts}
use lkm_service.Auth.Login.{
  counted, lock_time, find_by_identity, fail_lock_threshold, login_password_route, is_right,
  login_password,
}
use lkm_service.Rbac.{SeparationConstraint}
use lkm_service.Prelude.{
  ℕ, ◌+◌, ◌≡◌, refl, ap, Bool, false, Option, some, List, [], ◌∷◌, String, arith, leb, nat_key,
  text_key, All, ◌&&◌, ltb,
}

-- A counted attempt locks the account for `lock_time` exactly when it reaches the threshold, and
-- leaves an account below it without a lock.
pub counted-lock_is_active :
    (now t : ℕ) (u : User)
    → u.is_locked ≡ false
    → lock_is_active t (counted now u)
      ≡ (leb fail_lock_threshold (u.failed_login_attempts + 1) && ltb t (now + lock_time))
unfolding counted lock_is_active
counted-lock_is_active now t u h = ground arith

module _ (ssd dsd : List SeparationConstraint) (sha256 : String → String) (session_time : ℕ)
    (verifypwd : String → String → Option Bool) where
  -- The body of a request: whether it is limited, the account, the password, and the token drawn.
  pub run_logins : List (Bool × (String × (String × String))) → Accounts → Accounts
  run_logins [] s = s
  run_logins ((limited, (account, (password, raw))) ∷ tries) s =
      run_logins tries
        (login_password_route ssd dsd sha256 session_time verifypwd limited account password raw
          s).1

  abbrev pub IsWrong : Accounts → Bool × (String × (String × String)) → Type 0
  IsWrong s (limited, (account, (password, raw))) =
      (id : ℕ) (u : User)
      → find_by_identity (strip account) s.users ≡ some (id, u)
      → is_right ssd dsd sha256 session_time verifypwd password u ≡ false

  session_raises :
      {A : Type 0} (m : Exec AuthErr Accounts A) (s : Accounts)
      → Returns (λ _ _. ⊥) (m s)
      → let p = in_session m s in p.1 ≡ record s { events = p.1.events }
  session_raises {A = A} m s h = go (m s) h
    where
      go :
          (p : Result AuthErr A × Accounts)
          → Returns (λ _ _. ⊥) p
          → let q : Result AuthErr A × Accounts = elim p.0 [
            | ok a ↦ (ok a, p.1)
            | err e ↦ (err e, record s { events = p.1.events })
          ] in
            q.1 ≡ record s { events = q.1.events }
      go (ok a, g) k = absurd k
      go (err e, g) k = refl

  wrong_raises :
      (limited : Bool) (account password raw : String) (s : Accounts)
      → HasUniqueKeys s.users
      → IsWrong s (limited, (account, (password, raw)))
      → let p =
          login_password_route ssd dsd sha256 session_time verifypwd limited account password raw
            s in
        p.1 ≡ record s { events = p.1.events }
  unfolding login_password_route
  wrong_raises limited account password raw s u wrong =
      session_raises
        (login_password ssd dsd sha256 session_time verifypwd limited account password raw) s
        (weaken-Returns (IsLogin ssd dsd sha256 session_time verifypwd account password raw s)
          (λ _ _. ⊥)
          (login_password ssd dsd sha256 session_time verifypwd limited account password raw s)
          (λ r g h. cc (h.right, wrong h.id h.user h.found))
          (login_password-IsLogin ssd dsd sha256 session_time verifypwd limited account password raw
            s u))

  -- Requests with wrong passwords leave the tables as they are, however many there are: only the
  -- list of sent events may grow. The counted attempts, the locks and the audit entries are gone
  -- with the sessions that wrote them.
  pub run_logins_forgets :
      (tries : List (Bool × (String × (String × String)))) (s : Accounts)
      → HasUniqueKeys s.users
      → All (IsWrong s) tries
      → let g = run_logins tries s in
        (g.users ≡ s.users) × (g.tokens ≡ s.tokens) × (g.audit ≡ s.audit)
  unfolding run_logins
  run_logins_forgets [] s u wrong = (refl, refl, refl)
  run_logins_forgets ((limited, (account, (password, raw))) ∷ tries) s u wrong =
      let p =
        login_password_route ssd dsd sha256 session_time verifypwd limited account password raw s in
      let same : p.1 ≡ record s { events = p.1.events } =
        wrong_raises limited account password raw s u wrong.0 in
      let rest = run_logins_forgets tries (record s { events = p.1.events }) u wrong.1 in
      rw (ap (run_logins tries) same) rest
