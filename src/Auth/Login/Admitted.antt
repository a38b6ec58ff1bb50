-- ===== src/Auth/Login/Admitted.antt =====
-- Whom a password sign-in lets in (auth/service_auth.py).
use lkm_service.Auth.Login.Outcome.{setup_first, session_opened}
use lkm_service.Auth.Sessions.Gates.{
  Passed, check_account_locked-Passed, Allowed, clear_keeps, assert_admission_allowed-Allowed,
  clear_keeps_version,
}
use lkm_service.Prelude.{
  eqb_self, ℕ, ◌≡◌, refl, ◌∙◌, inl, inr, Bool, true, false, Option, some, List, [], ◌∷◌, String,
  ◌==◌, nat_key, text_key, Bool-cases, Option-cases, nat_eqb_iff,
}
use lkm_service.Prelude.Exec.{
  ◌>>=◌, ◌>>◌, raise, trivial-Returns, weaken-Returns, raised-Returns, same-Returns,
}
use lkm_service.Auth.Login.Outcome.{
  Answers, setup_first, IsFinal, finalize_auth_response-IsFinal, load_user-lookup,
}
use lkm_service.Prelude.Texts.{strip}
use lkm_service.Prelude.Keys.{HasUniqueKeys}
use lkm_service.Auth.Sessions.{
  lock_is_active, admission_is_active, put_user, clear_expired_lock, check_account_locked,
  assert_admission_allowed, load_user,
}
use lkm_service.Prelude.Exec.{Returns, bind-Returns, modify}
use lkm_service.Auth.{Accounts, User, invalid_credentials, account_locked}
use lkm_service.Prelude.Dict.{lookup, Dict, lookup-insert_same}
use lkm_service.Rbac.{SeparationConstraint}
use lkm_service.Auth.Login.{
  find_by_identity, refuse, Reply, record_failed_attempt, is_identified, admit, sign_in,
  tell_locked, tell_unlocked, check_password, tell, finalize_auth_response, note, cleared,
  login_password, is_right,
}
use lkm_service.Prelude.{
  ℕ, ◌≡◌, refl, ◌∙◌, inl, inr, Bool, true, false, Option, some, List, [], ◌∷◌, String, ◌==◌,
  nat_key, text_key, Bool-cases, Option-cases,
}

find_by_identity-lookup :
    (account : String) (id : ℕ) (u : User) (d : Dict ℕ User)
    → HasUniqueKeys d
    → find_by_identity account d ≡ some (id, u)
    → lookup id d ≡ some u
unfolding find_by_identity lookup
find_by_identity-lookup account id u [] k h = absurd (cc h)
find_by_identity-lookup account id u ((j, v) ∷ d) k h =
    elim (Bool-cases (is_identified account v)) [
      | inl p ↦
          let it : some (j, v) ≡ some (id, u) = rw p at h in
          let e : j ≡ id = cc it in rw e (rw (eqb_self id) (cc it))
      | inr p ↦ elim (Bool-cases (j == id)) [
        | inl q ↦
            let e : j ≡ id = (nat_eqb_iff j id).0 q in
            let there = find_by_identity-lookup account id u d k.1 (rw p at h) in
            absurd (cc (k.0, rw (← e) at there))
        | inr q ↦ rw q (find_by_identity-lookup account id u d k.1 (rw p at h))
      ]
    ]

module _ (ssd dsd : List SeparationConstraint) (sha256 : String → String) (session_time : ℕ)
    (verifypwd : String → String → Option Bool) where
  -- Of the account that was found and whose lock has passed, at the state `s` of the request.
  pub record IsLetIn (id : ℕ) (raw : String) (s : Accounts) (r : Reply) (g : Accounts)
      : Type 0 where
    pub user : User
    pub row : lookup id s.users ≡ some user
    pub unlocked : lock_is_active s.now user ≡ false
    pub admitted : admission_is_active user ≡ true
    pub answer : Answers ssd dsd sha256 session_time verifypwd id user raw s r g

  refuse-Returns : (id : ℕ) (s : Accounts) → Returns (λ _ _. ⊥) (refuse id s)
  unfolding refuse
  refuse-Returns id s =
      bind-Returns (λ _ _. Unit) (λ _ _. ⊥) (record_failed_attempt id)
        (λ locked.
          modify (tell_locked locked id)
          >> (modify (tell "audit_login_fail" id) >> raise invalid_credentials))
        s (trivial-Returns (record_failed_attempt id s)) (λ locked t h. tt)

  told_tokens : (b : Bool) (id : ℕ) (s : Accounts) → (tell_unlocked b id s).tokens ≡ s.tokens
  told_tokens true id s = refl
  told_tokens false id s = refl

  told_users : (b : Bool) (id : ℕ) (s : Accounts) → (tell_unlocked b id s).users ≡ s.users
  told_users true id s = refl
  told_users false id s = refl

  -- What the answer says, it says of any state with the same tokens and any row of the same version.
  carry :
      (id : ℕ) (u v : User) (raw : String) (s t g : Accounts) (r : Reply)
      → u.token_version ≡ v.token_version
      → t.tokens ≡ s.tokens
      → Answers ssd dsd sha256 session_time verifypwd id u raw t r g
      → Answers ssd dsd sha256 session_time verifypwd id v raw s r g
  carry id u v raw s t g r version same (setup_first e f) = setup_first e (f ∙ same)
  carry id u v raw s t g r version same (session_opened a row e x y z unused w n f) =
      session_opened a row e x (y ∙ version) z (rw same at unused) w n (rw same at f)

  let_in :
      (was : Bool) (id : ℕ) (raw : String) (s t t' t'' : Accounts) (u v w : User)
      → lookup id s.users ≡ some u
      → lock_is_active s.now u ≡ false
      → t ≡ put_user id (clear_expired_lock s.now u) s
      → lookup id t.users ≡ some v
      → admission_is_active v ≡ true
      → t' ≡ t
      → (lookup id t'.users ≡ some w) × (t'' ≡ t')
      → Returns (IsLetIn id raw s) (
          finalize_auth_response ssd dsd sha256 session_time verifypwd id raw
            (note id "login_password" (tell_unlocked was id (put_user id (cleared w) t''))))
  let_in was id raw s t t' t'' u v w row free eq row' admitted eq' h =
      let u' = clear_expired_lock s.now u in
      let there = lookup-insert_same id id u' s.users (eqb_self id) in
      let first : v ≡ u' = cc (rw eq at row', there) in
      let found : lookup id t'.users ≡ some u' = rw (eq', eq) there in
      let second : w ≡ u' = cc (h.0, found) in
      let before = put_user id (cleared w) t'' in
      let now = note id "login_password" (tell_unlocked was id before) in
      let same : now.tokens ≡ s.tokens = told_tokens was id before ∙ rw (h.1, eq', eq) refl in
      let put = lookup-insert_same id id (cleared w) t''.users (eqb_self id) in
      let now_row : lookup id now.users ≡ some (cleared w) = rw (told_users was id before) put in
      weaken-Returns (IsFinal ssd dsd sha256 session_time verifypwd id raw now) (IsLetIn id raw s)
        (finalize_auth_response ssd dsd sha256 session_time verifypwd id raw now)
        (λ r g f.
          let is_it : f.user ≡ cleared w = cc (f.row, now_row) in
          record {
            user = u;
            row = row;
            unlocked = free;
            admitted = clear_keeps s.now u (rw first at admitted);
            answer =
                carry id f.user u raw s now g r (rw (is_it, second) (clear_keeps_version s.now u))
                  same f.answer;
          })
        (finalize_auth_response-IsFinal ssd dsd sha256 session_time verifypwd id raw now)

  -- After the gate: the row is the cleared one, everything else is as before.
  admit-IsLetIn :
      (was : Bool) (id : ℕ) (raw : String) (s t : Accounts)
      → Passed id s tt t
      → Returns (IsLetIn id raw s) (admit ssd dsd sha256 session_time verifypwd was id raw t)
  unfolding admit
  admit-IsLetIn was id raw s t (u, row, free, eq) =
      let final = finalize_auth_response ssd dsd sha256 session_time verifypwd id raw in
      let rest = λ (w : User).
        modify (put_user id (cleared w))
        >> (modify (tell_unlocked was id) >> (modify (note id "login_password") >> final)) in
      bind-Returns (Allowed id t) (IsLetIn id raw s) (assert_admission_allowed id)
        (λ _. load_user id >>= rest) t (assert_admission_allowed-Allowed id t)
        (λ _ t' (v, row', admitted, eq').
          bind-Returns (λ w t''. (lookup id t'.users ≡ some w) × (t'' ≡ t')) (IsLetIn id raw s)
            (load_user id) rest t' (load_user-lookup id t')
            (λ w t'' h. let_in was id raw s t t' t'' u v w row free eq row' admitted eq' h))

  sign_in-IsLetIn :
      (was right : Bool) (id : ℕ) (raw : String) (s : Accounts)
      → Returns
          (λ r g. (right ≡ true) × IsLetIn id raw s r g)
          (sign_in ssd dsd sha256 session_time verifypwd was right id raw s)
  unfolding sign_in
  sign_in-IsLetIn was right id raw s =
      let Q = λ (r : Reply) (g : Accounts). (right ≡ true) × IsLetIn id raw s r g in
      let rest = λ (_ : Unit {0}). admit ssd dsd sha256 session_time verifypwd was id raw in
      let check = check_password ssd dsd sha256 session_time verifypwd right id in
      bind-Returns (Passed id s) Q (check_account_locked id) (λ _. check >>= rest) s
        (check_account_locked-Passed id s)
        (λ _ t passed. elim (Bool-cases right) [
          | inl yes_ ↦ rw yes_ (
              weaken-Returns (IsLetIn id raw s) (λ r g. (true ≡ true) × IsLetIn id raw s r g)
                (admit ssd dsd sha256 session_time verifypwd was id raw t) (λ r g h. (refl, h))
                (admit-IsLetIn was id raw s t passed))
          | inr no_ ↦ rw no_ (
              bind-Returns (λ _ _. ⊥) (λ r g. (false ≡ true) × IsLetIn id raw s r g) (refuse id)
                rest t (refuse-Returns id t) (λ _ g h. absurd h))
        ])

  -- A sign-in that returned: the account is that of the name given, and the password is its own.
  pub record IsLogin (account password raw : String) (s : Accounts) (r : Reply) (g : Accounts)
      : Type 0 where
    pub id : ℕ
    pub user : User
    pub found : find_by_identity (strip account) s.users ≡ some (id, user)
    pub right : is_right ssd dsd sha256 session_time verifypwd password user ≡ true
    pub unlocked : lock_is_active s.now user ≡ false
    pub admitted : admission_is_active user ≡ true
    pub answer : Answers ssd dsd sha256 session_time verifypwd id user raw s r g

  abbrev pub Entered : String → String → String → Accounts → Reply → Accounts → Type 0
  Entered account password raw s r g =
      (id : ℕ) × (u : User) × (find_by_identity (strip account) s.users ≡ some (id, u))
      × (is_right ssd dsd sha256 session_time verifypwd password u ≡ true)
      × IsLetIn id raw s r g

  pub login_password-Entered :
      (limited : Bool) (account password raw : String) (s : Accounts)
      → Returns
          (Entered account password raw s)
          (login_password ssd dsd sha256 session_time verifypwd limited account password raw s)
  unfolding login_password
  login_password-Entered limited account password raw s =
      let m = login_password ssd dsd sha256 session_time verifypwd limited account password raw s in
      let Q = Entered account password raw s in
      elim (Bool-cases limited) [
        | inl l ↦ raised-Returns Q m account_locked s (rw (l, ◌>>=◌) refl)
        | inr l ↦ elim (Option-cases (find_by_identity (strip account) s.users)) [
          | inl e ↦ raised-Returns Q m invalid_credentials s (rw (l, ◌>>=◌, e) refl)
          | inr ((id, v), e) ↦
              let right = is_right ssd dsd sha256 session_time verifypwd password v in
              let step = sign_in ssd dsd sha256 session_time verifypwd v.is_locked right id raw s in
              same-Returns Q m step (rw (l, ◌>>=◌, e) refl) (
                weaken-Returns (λ r g. (right ≡ true) × IsLetIn id raw s r g) Q step
                  (λ r g h. (id, v, e, h.0, h.1)) (sign_in-IsLetIn v.is_locked right id raw s))
        ]
      ]

  pub login_password-IsLogin :
      (limited : Bool) (account password raw : String) (s : Accounts)
      → HasUniqueKeys s.users
      → Returns
          (IsLogin account password raw s)
          (login_password ssd dsd sha256 session_time verifypwd limited account password raw s)
  login_password-IsLogin limited account password raw s u =
      weaken-Returns (Entered account password raw s) (IsLogin account password raw s)
        (login_password ssd dsd sha256 session_time verifypwd limited account password raw s)
        (λ r g (id, v, e, right, h).
          let row = find_by_identity-lookup (strip account) id v s.users u e in
          let is_it : h.user ≡ v = cc (h.row, row) in
          record {
            id = id;
            user = v;
            found = e;
            right = right;
            unlocked = rw (← is_it) (h.unlocked);
            admitted = rw (← is_it) (h.admitted);
            answer = rw (← is_it) (h.answer);
          })
        (login_password-Entered limited account password raw s)
