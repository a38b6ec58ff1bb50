-- ===== src/Auth/Sessions/Rotation.antt =====
-- Refreshing a session (auth/service_auth.py): the old token is used up, and the new one carries
-- the session on.
use lkm_service.Prelude.Exec.{◌>>=◌}
use lkm_service.Auth.Sessions.Issue.{IsIssue, issue_session_tokens-IsIssue}
use lkm_service.Prelude.Dict.{lookup}
use lkm_service.Prelude.Exec.{
  Returns, raised-Returns, err, ◌>>=◌, same-Returns, returned-Returns, bind-Returns, weaken-Returns,
}
use lkm_service.Auth.Sessions.{
  consume_token, refresh_access_token, reissue, valid_refresh_token, is_consumable, put_token,
  carried_on, lock_is_active, admission_is_active, issue_session_tokens,
}
use lkm_service.Rbac.{SeparationConstraint}
use lkm_service.Auth.{
  Accounts, RefreshToken, AccessToken, token_expired, token_invalid, user_not_found, account_locked,
}
use lkm_service.Prelude.{
  ℕ, ◌<◌, ◌≡◌, refl, ap, inl, inr, true, false, some, List, String, arith, leb, nat_key, text_key,
  Bool-cases, Option-cases,
}

abbrev pub used_up : ℕ → RefreshToken → RefreshToken
used_up now t = record t { revoked_at = some now }

abbrev pub Consumed : String → Accounts → RefreshToken → Accounts → Type 0
Consumed h s t s' =
    (lookup h s.tokens ≡ some t) × (is_consumable t ≡ true) × (s' ≡ put_token h (used_up s.now t) s)

pub consume_token-Consumed :
    (h : String) (s : Accounts) → Returns (Consumed h s) (consume_token h s)
unfolding consume_token
consume_token-Consumed h s = elim (Option-cases (lookup h s.tokens)) [
  | inl e ↦ raised-Returns (Consumed h s) (consume_token h s) token_invalid s (rw (e, ◌>>=◌) refl)
  | inr (t, e) ↦ elim (Bool-cases (is_consumable t)) [
    | inr stale ↦
        raised-Returns (Consumed h s) (consume_token h s) token_invalid s
          (rw (e, ◌>>=◌, stale) refl)
    | inl fresh ↦
        returned-Returns (Consumed h s) (consume_token h s) t (put_token h (used_up s.now t) s)
          (rw (e, ◌>>=◌, fresh) refl) (e, fresh, refl)
  ]
]

-- A token that is revoked, or of another kind, or not there, is not consumed.
pub consume_token_stale :
    (h : String) (t : RefreshToken) (s : Accounts)
    → lookup h s.tokens ≡ some t
    → is_consumable t ≡ false
    → consume_token h s ≡ (err token_invalid, s)
unfolding consume_token
consume_token_stale h t s e stale = rw (e, ◌>>=◌, stale) refl

module _ (ssd dsd : List SeparationConstraint) (sha256 : String → String) (session_time : ℕ) where
  -- A refresh that returns: from a live web token that is not past its time, of a user that is
  -- neither locked nor kept out.
  pub record IsRotation (raw new_raw : String) (s : Accounts) (p : AccessToken × String)
      (g : Accounts) : Type 0 where
    pub old : RefreshToken
    pub old_row : lookup (sha256 raw) s.tokens ≡ some old
    pub usable : is_consumable old ≡ true
    pub in_time : s.now < old.expires_at
    pub used : Accounts
    pub used_after : used ≡ put_token (sha256 raw) (used_up s.now old) s
    pub issue : IsIssue ssd dsd sha256 session_time old.user_id (carried_on old) new_raw used p g

  IsReissue : RefreshToken → String → Accounts → AccessToken × String → Accounts → Type 0
  IsReissue t new_raw s p g =
      (s.now < t.expires_at)
      × IsIssue ssd dsd sha256 session_time t.user_id (carried_on t) new_raw s p g

  reissue-IsReissue :
      (t : RefreshToken) (new_raw : String) (s : Accounts)
      → Returns (IsReissue t new_raw s) (reissue ssd dsd sha256 session_time t new_raw s)
  unfolding reissue IsReissue
  reissue-IsReissue t new_raw s =
      let m = reissue ssd dsd sha256 session_time t new_raw s in
      let Q = IsReissue t new_raw s in
      elim (Bool-cases (leb t.expires_at s.now)) [
        | inl late ↦ raised-Returns Q m token_expired s (rw (late, ◌>>=◌) refl)
        | inr early ↦ elim (Option-cases (lookup t.user_id s.users)) [
          | inl e ↦ raised-Returns Q m user_not_found s (rw (early, ◌>>=◌, e) refl)
          | inr (u, e) ↦ elim (Bool-cases (lock_is_active s.now u)) [
            | inl locked ↦ raised-Returns Q m account_locked s (rw (early, ◌>>=◌, e, locked) refl)
            | inr free ↦ elim (Bool-cases (admission_is_active u)) [
              | inr out ↦ raised-Returns Q m account_locked s (rw (early, ◌>>=◌, e, free, out) refl)
              | inl admitted ↦
                  same-Returns Q m
                    (issue_session_tokens ssd dsd sha256 session_time t.user_id (carried_on t)
                      new_raw s)
                    (rw (early, ◌>>=◌, e, free, admitted) refl)
                    (weaken-Returns
                      (IsIssue ssd dsd sha256 session_time t.user_id (carried_on t) new_raw s) Q
                      (issue_session_tokens ssd dsd sha256 session_time t.user_id (carried_on t)
                        new_raw s)
                      (λ p g i. (ground arith, i))
                      (issue_session_tokens-IsIssue ssd dsd sha256 session_time t.user_id
                        (carried_on t) new_raw s))
            ]
          ]
        ]
      ]

  pub refresh_access_token-IsRotation :
      (raw new_raw : String) (s : Accounts)
      → Returns
          (IsRotation raw new_raw s)
          (refresh_access_token ssd dsd sha256 session_time raw new_raw s)
  unfolding refresh_access_token IsReissue
  refresh_access_token-IsRotation raw new_raw s =
      let m = refresh_access_token ssd dsd sha256 session_time raw new_raw s in
      let Q = IsRotation raw new_raw s in
      let rest = λ (t : RefreshToken). reissue ssd dsd sha256 session_time t new_raw in
      elim (Bool-cases (valid_refresh_token raw)) [
        | inr bad ↦ raised-Returns Q m token_invalid s (rw (bad, ◌>>=◌) refl)
        | inl fine ↦
            same-Returns Q m ((consume_token (sha256 raw) >>= rest) s) (rw (fine, ◌>>=◌) refl) (
              bind-Returns (Consumed (sha256 raw) s) Q (consume_token (sha256 raw)) rest s
                (consume_token-Consumed (sha256 raw) s)
                (λ t u c.
                  weaken-Returns (IsReissue t new_raw u) Q
                    (reissue ssd dsd sha256 session_time t new_raw u)
                    (λ p g r. record {
                      old = t;
                      old_row = c.0;
                      usable = c.1;
                      in_time = rw c.2 at (r.0);
                      used = u;
                      used_after = c.2;
                      issue = r.1;
                    })
                    (reissue-IsReissue t new_raw u)))
      ]

  pub stale_refresh :
      (raw new_raw : String) (t : RefreshToken) (s : Accounts)
      → lookup (sha256 raw) s.tokens ≡ some t
      → is_consumable t ≡ false
      → refresh_access_token ssd dsd sha256 session_time raw new_raw s ≡ (err token_invalid, s)
  unfolding refresh_access_token
  stale_refresh raw new_raw t s e stale = elim (Bool-cases (valid_refresh_token raw)) [
    | inr bad ↦ rw (bad, ◌>>=◌) refl
    | inl fine ↦
        let eq = consume_token_stale (sha256 raw) t s e stale in
        rw (fine, ◌>>=◌, eq) (ap (λ p. (err token_invalid, p.1)) eq)
  ]
