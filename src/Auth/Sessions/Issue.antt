-- ===== src/Auth/Sessions/Issue.antt =====
-- What issuing and refreshing session tokens has done (auth/service_auth.py).
use lkm_service.Prelude.{eqb_self}
use lkm_service.Prelude.Exec.{◌>>=◌, ◌>>◌}
use lkm_service.Prelude.Dict.{lookup, lookup-insert_same}
use lkm_service.Prelude.Exec.{
  Returns, Result, bind-Returns, ok, ◌>>=◌, same-Returns, raised-Returns, err, ◌>>◌, weaken-Returns,
  returned-Returns,
}
use lkm_service.Auth.Sessions.Gates.{
  Passed, Allowed, check_account_locked-Passed, assert_admission_allowed-Allowed, clear_keeps,
}
use lkm_service.Auth.Sessions.{
  clear_expired_lock, issue_session_tokens, write_tokens, issue_to, Session, admission_is_active,
  access_token, session_roles, check_account_locked, lock_is_active, load_user,
  assert_admission_allowed, new_token, put_token, put_user,
}
use lkm_service.Auth.{Accounts, AccessToken, User, AuthErr, key_in_use}
use lkm_service.Rbac.{SeparationConstraint}
use lkm_service.Prelude.{
  ℕ, ◌≡◌, refl, inl, inr, true, false, Option, none, some, List, String, nat_key, text_key,
  Bool-cases, is_some, eqb_self,
}

module _ (ssd dsd : List SeparationConstraint) (sha256 : String → String) (session_time : ℕ) where
  -- A pair of tokens was issued: to a user that is there, admitted and not locked, under a digest
  -- that no other token has.
  pub record IsIssue (id : ℕ) (old : Session) (raw : String) (s : Accounts)
      (p : AccessToken × String) (t : Accounts) : Type 0 where
    pub user : User
    pub row : lookup id s.users ≡ some user
    pub unlocked : lock_is_active s.now user ≡ false
    pub admitted : admission_is_active user ≡ true
    pub roles : Option (List String)
    pub allowed :
        session_roles ssd dsd sha256 session_time (clear_expired_lock s.now user) old.active_roles
        ≡ ok roles
    pub unused : lookup (sha256 raw) s.tokens ≡ none
    pub reply : p ≡ (
      access_token ssd dsd sha256 session_time id
          (clear_expired_lock s.now user)
          old
          roles
          raw
          s.now,
      raw,
    )
    pub state_after :
        t
        ≡ put_token
            (sha256 raw)
            (new_token ssd dsd sha256 session_time id old roles s.now)
            (put_user id (clear_expired_lock s.now user) s)

  -- The last part, for a user that the gates have let through.
  record IsWritten (id : ℕ) (old : Session) (raw : String) (u : User) (s : Accounts)
      (p : AccessToken × String) (t : Accounts) : Type 0 where
    roles : Option (List String)
    allowed : session_roles ssd dsd sha256 session_time u old.active_roles ≡ ok roles
    unused : lookup (sha256 raw) s.tokens ≡ none
    reply : p ≡ (access_token ssd dsd sha256 session_time id u old roles raw s.now, raw)
    state_after :
        t ≡ put_token (sha256 raw) (new_token ssd dsd sha256 session_time id old roles s.now) s

  abbrev reply_to : ℕ → Session → String → User → Option (List String) → ℕ → AccessToken × String
  reply_to id old raw u roles now =
      (access_token ssd dsd sha256 session_time id u old roles raw now, raw)

  none_of : {A : Type 0} (o : Option A) → is_some o ≡ false → o ≡ none
  none_of none h = refl
  none_of (some a) h = absurd (cc h)

  written :
      (id : ℕ) (old : Session) (raw : String) (u : User) (s : Accounts)
      (roles : Option (List String))
      → session_roles ssd dsd sha256 session_time u old.active_roles ≡ ok roles
      → Returns
          (IsWritten id old raw u s)
          (write_tokens ssd dsd sha256 session_time id old raw u roles s)
  unfolding write_tokens
  written id old raw u s roles allowed =
      let m = write_tokens ssd dsd sha256 session_time id old raw u roles s in
      let row = new_token ssd dsd sha256 session_time id old roles s.now in
      elim (Bool-cases (is_some (lookup (sha256 raw) s.tokens))) [
        | inl taken ↦
            raised-Returns (IsWritten id old raw u s) m key_in_use s (rw (taken, ◌>>=◌) refl)
        | inr free ↦
            returned-Returns (IsWritten id old raw u s) m (reply_to id old raw u roles s.now)
              (put_token (sha256 raw) row s) (rw (free, ◌>>=◌) refl)
              (record {
                roles = roles;
                allowed = allowed;
                unused = none_of (lookup (sha256 raw) s.tokens) free;
                reply = refl;
                state_after = refl;
              })
      ]

  issued_to :
      (id : ℕ) (old : Session) (raw : String) (u : User) (s : Accounts)
      → Returns (IsWritten id old raw u s) (issue_to ssd dsd sha256 session_time id old raw u s)
  unfolding issue_to
  issued_to id old raw u s = go (session_roles ssd dsd sha256 session_time u old.active_roles) refl
    where
      go :
          (r : Result AuthErr (Option (List String)))
          → session_roles ssd dsd sha256 session_time u old.active_roles ≡ r
          → Returns (IsWritten id old raw u s) (issue_to ssd dsd sha256 session_time id old raw u s)
      go (ok roles) e =
          same-Returns (IsWritten id old raw u s)
            (issue_to ssd dsd sha256 session_time id old raw u s)
            (write_tokens ssd dsd sha256 session_time id old raw u roles s) (rw (e, ◌>>=◌) refl)
            (written id old raw u s roles e)
      go (err x) e =
          raised-Returns (IsWritten id old raw u s)
            (issue_to ssd dsd sha256 session_time id old raw u s) x s (rw (e, ◌>>=◌) refl)

  loaded :
      (id : ℕ) (s : Accounts) (u : User) → lookup id s.users ≡ some u → load_user id s ≡ (ok u, s)
  loaded id s u e = rw e refl

  after_gates :
      (id : ℕ) (old : Session) (raw : String) (s t t' : Accounts)
      → Passed id s tt t
      → Allowed id t tt t'
      → Returns
          (IsIssue id old raw s)
          ((load_user id >>= issue_to ssd dsd sha256 session_time id old raw) t')
  after_gates id old raw s t t' (u, row, free, eq) (v, row', admitted, eq') =
      let u' = clear_expired_lock s.now u in
      let there : lookup id t'.users ≡ some u' =
        rw (eq', eq) (lookup-insert_same id id u' s.users (eqb_self id)) in
      let is_it : v ≡ u' = cc (rw eq' at there, row') in
      let m = (load_user id >>= issue_to ssd dsd sha256 session_time id old raw) t' in
      same-Returns (IsIssue id old raw s) m (issue_to ssd dsd sha256 session_time id old raw u' t')
        (rw (there, ◌>>=◌) refl)
        (weaken-Returns (IsWritten id old raw u' t') (IsIssue id old raw s)
          (issue_to ssd dsd sha256 session_time id old raw u' t')
          (λ p g w. record {
            user = u;
            row = row;
            unlocked = free;
            admitted = clear_keeps s.now u (rw is_it at admitted);
            roles = w.roles;
            allowed = w.allowed;
            unused = rw (eq', eq) at (w.unused);
            reply = rw (eq', eq) at (w.reply);
            state_after = rw (eq', eq) at (w.state_after);
          })
          (issued_to id old raw u' t'))

  pub issue_session_tokens-IsIssue :
      (id : ℕ) (old : Session) (raw : String) (s : Accounts)
      → Returns
          (IsIssue id old raw s)
          (issue_session_tokens ssd dsd sha256 session_time id old raw s)
  unfolding issue_session_tokens
  issue_session_tokens-IsIssue id old raw s =
      let finish = λ (u : User). issue_to ssd dsd sha256 session_time id old raw u in
      bind-Returns (Passed id s) (IsIssue id old raw s) (check_account_locked id)
        (λ _. assert_admission_allowed id >> (load_user id >>= finish)) s
        (check_account_locked-Passed id s)
        (λ _ t passed.
          bind-Returns (Allowed id t) (IsIssue id old raw s) (assert_admission_allowed id)
            (λ _. load_user id >>= finish) t (assert_admission_allowed-Allowed id t)
            (λ _ t' allowed. after_gates id old raw s t t' passed allowed))
