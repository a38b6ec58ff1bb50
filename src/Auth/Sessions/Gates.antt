-- ===== src/Auth/Sessions/Gates.antt =====
-- What the gates before a session let through (auth/account_state.py, auth/admission.py).
use lkm_service.Prelude.Exec.{◌>>=◌}
use lkm_service.Auth.{active, pending, rejected}
use lkm_service.Prelude.Dict.{lookup}
use lkm_service.Prelude.Exec.{Returns, raised-Returns, returned-Returns, ◌>>=◌}
use lkm_service.Auth.{
  Accounts, User, Admission, user_not_found, invalid_credentials, admission_pending,
  admission_rejected,
}
use lkm_service.Auth.Sessions.{
  admission_check, clear_expired_lock, check_account_locked, lock_is_active,
  assert_admission_allowed, put_user, admission_is_active, is_after,
}
use lkm_service.Prelude.{
  ℕ, ◌≡◌, refl, inl, inr, true, false, not, ◌&&◌, some, arith, nat_key, text_key, Bool-cases,
  Option-cases,
}

abbrev pub Passed : ℕ → Accounts → Unit {0} → Accounts → Type 0
Passed id s _ t =
    (u : User) × (lookup id s.users ≡ some u)
    × (lock_is_active s.now u ≡ false)
    × (t ≡ put_user id (clear_expired_lock s.now u) s)

pub check_account_locked-Passed :
    (id : ℕ) (s : Accounts) → Returns (Passed id s) (check_account_locked id s)
unfolding check_account_locked
check_account_locked-Passed id s = elim (Option-cases (lookup id s.users)) [
  | inl e ↦
      raised-Returns (Passed id s) (check_account_locked id s) user_not_found s (rw (e, ◌>>=◌) refl)
  | inr (u, e) ↦ elim (Bool-cases (lock_is_active s.now u)) [
    | inl locked ↦
        raised-Returns (Passed id s) (check_account_locked id s) invalid_credentials s
          (rw (e, ◌>>=◌, locked) refl)
    | inr free ↦
        returned-Returns (Passed id s) (check_account_locked id s) tt
          (put_user id (clear_expired_lock s.now u) s) (rw (e, ◌>>=◌, free) refl) (u, e, free, refl)
  ]
]

-- A gate lets through what its test accepts, and changes nothing.
abbrev pub Allowed : ℕ → Accounts → Unit {0} → Accounts → Type 0
Allowed id s _ t =
    (u : User) × (lookup id s.users ≡ some u) × (admission_is_active u ≡ true) × (t ≡ s)

pub assert_admission_allowed-Allowed :
    (id : ℕ) (s : Accounts) → Returns (Allowed id s) (assert_admission_allowed id s)
unfolding admission_check
assert_admission_allowed-Allowed id s = elim (Option-cases (lookup id s.users)) [
  | inl e ↦
      raised-Returns (Allowed id s) (assert_admission_allowed id s) user_not_found s
        (rw (e, ◌>>=◌) refl)
  | inr (u, e) ↦ admitted id s u e u.admission_status refl
]
  where
    admitted :
        (id : ℕ) (s : Accounts) (u : User)
        → lookup id s.users ≡ some u
        → (a : Admission) → u.admission_status ≡ a
        → Returns (Allowed id s) (assert_admission_allowed id s)
    admitted id s u e active h =
        returned-Returns (Allowed id s) (assert_admission_allowed id s) tt s (rw (e, ◌>>=◌, h) refl)
          (u, e, rw h refl, refl)
    admitted id s u e pending h =
        raised-Returns (Allowed id s) (assert_admission_allowed id s) admission_pending s
          (rw (e, ◌>>=◌, h) refl)
    admitted id s u e rejected h =
        raised-Returns (Allowed id s) (assert_admission_allowed id s) admission_rejected s
          (rw (e, ◌>>=◌, h) refl)

-- An expired lock is cleared, and nothing else of the row.
pub clear_expired_lock-lock_is_active :
    (now : ℕ) (u : User)
    → lock_is_active now u ≡ false
    → (clear_expired_lock now u).is_locked ≡ false
unfolding clear_expired_lock lock_is_active
clear_expired_lock-lock_is_active now u h = ground arith

pub clear_keeps_version :
    (now : ℕ) (u : User) → (clear_expired_lock now u).token_version ≡ u.token_version
unfolding clear_expired_lock
clear_keeps_version now u = ground arith

pub clear_keeps :
    (now : ℕ) (u : User)
    → admission_is_active (clear_expired_lock now u) ≡ true
    → admission_is_active u ≡ true
unfolding clear_expired_lock
clear_keeps now u h = elim (Bool-cases (u.is_locked && not (is_after now u.locked_until))) [
  | inl p ↦ rw p at h
  | inr p ↦ rw p at h
]
