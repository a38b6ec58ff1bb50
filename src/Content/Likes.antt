-- ===== src/Content/Likes.antt =====
-- Liking a content item (app/modules/content/service.py, app/modules/content/repository.py).
pub mod Counts
pub mod Runs
use lkm_service.Content.Counters.{read_count, bump_content_counter}
use lkm_service.Prelude.Int.{ℤ, negsuc, pos}
use lkm_service.Prelude.Dict.{lookup}
use lkm_service.Prelude.Exec.{◌>>◌, Exec, gets, ◌>>=◌, raise_if, modify}
use lkm_service.Content.{Store, ContentErr, likes_field, content_not_found}
use lkm_service.Prelude.{
  ◌≢◌, ◌*◌, ◌+◌, inr, arith, Option-cases, subst, contains, some, Option, is_some, if◌then◌else◌,
  ap, keep, zero, refl, inl, ◌∷◌, ◌==◌, Bool, none, List, String, ltb, min, Bool-cases, ◌<◌, false,
  All, take, nat_key, drop, suc, ◌≤◌, sym, ◌∙◌, ℕ, leb, true, length, map, any, [], ◌↔◌, ◌++◌, max,
  text_key, ◌&&◌, ◌||◌, ◌≡◌, not, ◌-◌, all, ◌⊎◌,
}

abbrev pub is_like : ℕ → ℕ → ℕ × ℕ → Bool
is_like id user r = r.0 == id && r.1 == user

abbrev pub is_active : ℕ → Store → Bool
is_active id s = elim (lookup id s.items) [ none ↦ false | some i ↦ not i.is_removed ]

unfoldable pub lock_active : ℕ → Exec ContentErr Store (Unit {0})
lock_active id = gets (λ s. is_active id s) >>= λ active. raise_if (not active) content_not_found

-- The row that was found is deleted.
unfoldable pub delete_like : ℕ → ℕ → List (ℕ × ℕ) → List (ℕ × ℕ)
delete_like id user [] = []
delete_like id user (r ∷ rows) = if is_like id user r then rows else r ∷ delete_like id user rows

abbrev pub find_like : ℕ → ℕ → Exec ContentErr Store Bool
find_like id user = gets (λ s. any (is_like id user) s.content_likes)

abbrev pub add_like : ℕ → ℕ → Store → Store
add_like id user s = record s {
  content_likes = (id, user) ∷ s.content_likes;
  liked = s.liked ++ (user, id) ∷ [];
}

abbrev pub drop_like : ℕ → ℕ → Store → Store
drop_like id user s = record s { content_likes = delete_like id user s.content_likes }

-- `write_through` is the setting `counters_write_through`.
unfoldable pub like_once : Bool → ℕ → ℕ → Bool → Exec ContentErr Store ℤ
like_once write_through id user true = read_count write_through id likes_field
like_once write_through id user false = do
  modify (add_like id user)
  bump_content_counter write_through id likes_field (pos 1)

unfoldable pub like_item : Bool → ℕ → ℕ → Exec ContentErr Store ℤ
like_item write_through id user = do
  lock_active id
  found ← find_like id user
  like_once write_through id user found

unfoldable pub unlike_once : Bool → ℕ → ℕ → Bool → Exec ContentErr Store ℤ
unlike_once write_through id user false = read_count write_through id likes_field
unlike_once write_through id user true = do
  modify (drop_like id user)
  bump_content_counter write_through id likes_field (negsuc 0)

unfoldable pub unlike_item : Bool → ℕ → ℕ → Exec ContentErr Store ℤ
unlike_item write_through id user = do
  lock_active id
  found ← find_like id user
  unlike_once write_through id user found
