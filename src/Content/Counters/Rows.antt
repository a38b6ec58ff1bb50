-- ===== src/Content/Counters/Rows.antt =====
-- One row of a reconciliation, and the rows of a window
-- (app/modules/content/counters.py::reconcile_counts).
-- The keys are ascending, and above the bound.
use lkm_service.Content.{Item}
use lkm_service.Content.Counters.{update_row, in_window}
use lkm_service.Prelude.Dict.{Dict}
use lkm_service.Prelude.{
  ◌==◌, text_key, ◌∷◌, keep, ◌≤◌, ◌≡◌, ◌<◌, false, refl, List, arith, ltb, true, nat_key, [], ℕ,
  All, ◌++◌, ap,
}

abbrev pub Above : ℕ → Dict ℕ Item → Type 0
Above last [] = Unit
Above last ((id, _) ∷ d) = (last < id) × Above id d

abbrev pub IsWithin : ℕ → Dict ℕ Item → Type 0
IsWithin last d = All (λ r. r.0 ≤ last) d

pub append_assoc {ℓ} :
    {A : Type ℓ} (xs : List A) (y : A) (zs : List A) → (xs ++ y ∷ []) ++ zs ≡ xs ++ y ∷ zs
append_assoc [] y zs = refl
append_assoc (x ∷ xs) y zs = ap (λ l. x ∷ l) (append_assoc xs y zs)

pub append_empty {ℓ} : {A : Type ℓ} (xs : List A) → xs ++ [] ≡ xs
append_empty [] = refl
append_empty (x ∷ xs) = ap (λ l. x ∷ l) (append_empty xs)

pub update_row-Above :
    (k last : ℕ) (f : Item → Item) (d : Dict ℕ Item)
    → k ≤ last
    → Above last d
    → update_row k f d ≡ d
unfolding update_row
update_row-Above k last f [] le h = refl
update_row-Above k last f ((j, i) ∷ d) le h =
    let other : (j == k) ≡ false = ground (arith, le, h.0) in
    rw other (ap (λ e. (j, i) ∷ e) (update_row-Above k j f d (omega (arith, le, h.0)) h.1))

pub update_row-IsWithin :
    (k last : ℕ) (f : Item → Item) (i : Item) (d e : Dict ℕ Item)
    → IsWithin last d
    → last < k
    → Above k e
    → update_row k f (d ++ (k, i) ∷ e) ≡ d ++ (k, f i) ∷ e
unfolding update_row
update_row-IsWithin k last f i [] e h lt a =
    let same : (k == k) ≡ true = ground arith in
    rw same (ap (λ d. (k, f i) ∷ d) (update_row-Above k k f e (omega arith) a))
update_row-IsWithin k last f i ((j, x) ∷ d) e h lt a =
    let other : (j == k) ≡ false = ground (arith, h.0, lt) in
    rw other (ap (λ d. (j, x) ∷ d) (update_row-IsWithin k last f i d e h.1 lt a))

pub Above-weaken : (low high : ℕ) (d : Dict ℕ Item) → low ≤ high → Above high d → Above low d
Above-weaken low high [] le h = tt
Above-weaken low high ((j, i) ∷ d) le h = (omega (arith, le, h.0), h.1)

-- The rows after the bound are those of a window.
pub keep-Above : (last : ℕ) (d : Dict ℕ Item) → Above last d → keep (in_window false last) d ≡ d
keep-Above last [] h = refl
keep-Above last ((j, i) ∷ d) h =
    let inside : ltb last j ≡ true = ground (arith, h.0) in
    let rest = keep-Above last d (Above-weaken last j d (omega (arith, h.0)) h.1) in
    rw inside (ap (λ e. (j, i) ∷ e) rest)

pub keep-IsWithin :
    (last : ℕ) (d e : Dict ℕ Item)
    → IsWithin last d
    → keep (in_window false last) (d ++ e) ≡ keep (in_window false last) e
keep-IsWithin last [] e h = refl
keep-IsWithin last ((j, i) ∷ d) e h =
    let out : ltb last j ≡ false = ground (arith, h.0) in rw out (keep-IsWithin last d e h.1)

pub IsWithin-weaken :
    (low high : ℕ) (d : Dict ℕ Item) → low ≤ high → IsWithin low d → IsWithin high d
IsWithin-weaken low high [] le h = tt
IsWithin-weaken low high (r ∷ d) le h = (omega (arith, le, h.0), IsWithin-weaken low high d le h.1)

pub IsWithin-append :
    (last : ℕ) (d e : Dict ℕ Item) → IsWithin last d → IsWithin last e → IsWithin last (d ++ e)
IsWithin-append last [] e h g = g
IsWithin-append last (r ∷ d) e h g = (h.0, IsWithin-append last d e h.1 g)
