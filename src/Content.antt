-- ===== src/Content.antt =====
-- Derived counts of content (app/modules/content/counters.py, app/modules/comment/counters.py,
-- core/counters.py): the rows they count and the columns that hold them.
pub mod Counters
pub mod Likes
mod Tests
use lkm_service.Prelude.Int.{ℤ}
use lkm_service.Prelude.Dict.{Dict}
use lkm_service.Prelude.{
  ◌-◌, ◌++◌, subst, Bool-cases, Option-cases, ◌&&◌, ◌+◌, nat_key, ◌||◌, [], length, ◌∷◌, Option,
  all, is_some, ◌⊎◌, ◌∙◌, none, ltb, inr, take, Bool, ◌==◌, List, text_key, arith, ℕ, refl, ◌<◌,
  some, ◌≡◌, zero, any, inl, drop, sym, ◌≢◌, leb, ◌↔◌, map, min, if◌then◌else◌, suc, All, true,
  false, ◌≤◌, keep, ap, ◌*◌, not, contains, max, String,
}

pub data ContentErr : Type 0 where
  content_not_found : ContentErr

pub data Field : Type 0 where
  likes_field comments_field bookmarks_field : Field

-- A row of content_items: its three counting columns, the time of its last reconciliation, and
-- whether it is deleted softly.
pub record Item : Type 0 where
  pub like_count : ℕ
  pub comment_count : ℕ
  pub bookmark_count : ℕ
  pub counts_reconciled_at : Option ℕ
  pub is_removed : Bool

pub record Comment : Type 0 where
  pub comment_id : ℕ
  pub content_id : ℕ
  pub is_deleted : Bool
  pub likes : ℕ

-- The tables, content_items in the order of its primary key; likes, favourites and likes of
-- comments as pairs of the liked row and the user; the deltas that Redis holds, if it answers; and
-- what the process keeps of the last reconciliation: the corrected rows and the repeats it counted.
-- `liked` are the calls made of the points port: the user and the liked item.
pub record Store : Type 0 where
  pub items : Dict ℕ Item
  pub content_likes : List (ℕ × ℕ)
  pub comments : List Comment
  pub comment_likes : List (ℕ × ℕ)
  pub favorites : List (ℕ × ℕ)
  pub redis : Option (Field → Dict ℕ ℤ)
  pub now : ℕ
  pub last_corrected : List ℕ
  pub repeats : ℕ
  pub liked : List (ℕ × ℕ)
