-- ===== src/Content/Tests.antt =====
-- The counts of content at concrete inputs: runs, and each law at an input that meets it.
use lkm_service.Prelude.Exec.{ok}
use lkm_service.Prelude.Int.{◌+ℤ◌, pos}
use lkm_service.Content.Likes.{
  like_item, unlike_item, like_once, unlike_once, lock_active, delete_like,
}
use lkm_service.Content.Likes.Counts.{IsCounted, HoldsLikes}
use lkm_service.Content.Likes.Runs.{serve_all, respond, take_like, put_like, serve_all-IsCounted}
use lkm_service.Prelude.Dict.{lookup}
use lkm_service.Content.Counters.Converge.{
  IsFlushed, HoldsCounts, reconcile_counts-reconcile_counts,
}
use lkm_service.Content.Counters.{
  real_counts, reconcile_counts, pending_delta, windows, check_rows, check_row, last_id, update_row,
  mark_converged, reconcile_comment_likes, bump_content_counter, write_through_bump, read_count,
}
use lkm_service.Content.{Store, Comment, Item}
use lkm_service.Prelude.{
  Bool-cases, map, text_key, ◌∷◌, inl, inr, ◌==◌, ℕ, [], ◌≡◌, Option, sym, nat_key, some, arith,
  refl, false, none,
}

abbrev item : ℕ → Item
item likes = record {
  like_count = likes;
  comment_count = 0;
  bookmark_count = 0;
  counts_reconciled_at = none;
  is_removed = false;
}

abbrev one_comment : Comment
one_comment = record { comment_id = 9; content_id = 2; is_deleted = false; likes = 5 }

-- The first item has lost a like; the second counts no comment yet.
abbrev drifted : Store
drifted = record {
  items = (1, item 1) ∷ (2, item 0) ∷ (7, item 0) ∷ [];
  content_likes = (1, 4) ∷ (1, 5) ∷ [];
  comments = one_comment ∷ [];
  comment_likes = (9, 4) ∷ [];
  favorites = [];
  redis = none;
  now = 100;
  last_corrected = [];
  repeats = 0;
  liked = [];
}

drifted-IsFlushed : IsFlushed drifted
unfolding pending_delta
drifted-IsFlushed id = refl

abbrev result_of : Option ((ℕ × ℕ) × Store) → ℕ × ℕ
result_of none = (0, 0)
result_of (some r) = r.0

-- Windows of two rows: two rows are corrected.
two_corrected : result_of (reconcile_counts 4 2 false drifted) ≡ (3, 2)
unfolding reconcile_counts windows check_rows check_row last_id update_row real_counts
    mark_converged pending_delta reconcile_comment_likes
two_corrected = refl

reconcile_counts-reconcile_counts_example :
    (t : Store) × (u : Store) × (reconcile_counts 4 2 false drifted ≡ some ((3, 2), t))
    × (map (λ r. r.0) t.items ≡ 1 ∷ 2 ∷ 7 ∷ [])
    × HoldsCounts (λ k. real_counts k t) t.items
    × (reconcile_counts 4 2 false t ≡ some ((3, 0), u))
unfolding real_counts
reconcile_counts-reconcile_counts_example =
    reconcile_counts-reconcile_counts 4 1 drifted (omega arith, (omega arith, (omega arith, tt)))
      (omega arith) drifted-IsFlushed

abbrev liked_store : Store
liked_store = record drifted { items = (1, item 1) ∷ []; content_likes = (1, 4) ∷ [] }

liked_store-HoldsLikes : HoldsLikes liked_store.content_likes liked_store.items
unfolding lookup
liked_store-HoldsLikes k i h = elim (Bool-cases (1 == k)) [
  | inl t ↦
      let found : some (item 1) ≡ some i = rw t at h in
      let likes : 1 ≡ i.like_count = cc found in rw t (sym likes)
  | inr t ↦ absurd (cc (rw t at h))
]

serve_all-IsCounted_example :
    IsCounted 1 (respond (take_like 1 4) (serve_all (put_like 1 5 ∷ put_like 1 4 ∷ []) liked_store))
serve_all-IsCounted_example =
    serve_all-IsCounted (put_like 1 5 ∷ put_like 1 4 ∷ []) (take_like 1 4) liked_store
      liked_store-HoldsLikes

-- The second like of the first user is none.
one_left :
    (respond (take_like 1 4) (serve_all (put_like 1 5 ∷ put_like 1 4 ∷ []) liked_store)).0
    ≡ ok (pos 1)
unfolding serve_all like_item unlike_item like_once unlike_once lock_active bump_content_counter
    write_through_bump read_count delete_like lookup ◌+ℤ◌ update_row
one_left = refl
