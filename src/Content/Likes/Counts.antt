-- ===== src/Content/Likes/Counts.antt =====
-- Likes and their column under write-through (app/modules/content/service.py,
-- app/modules/content/counters.py).
use lkm_service.Prelude.Int.{ℤ, pos, ◌+ℤ◌, negsuc}
use lkm_service.Prelude.Exec.{Result, ok, ◌>>=◌, bind-ok, pure, err}
use lkm_service.Content.{Item, Store, ContentErr, likes_field, content_not_found}
use lkm_service.Content.Counters.{
  update_row, count_rows, bump_content_counter, write_through_bump, bumped_count, set_column,
  column, read_count,
}
use lkm_service.Content.Likes.{
  delete_like, is_like, is_active, like_once, unlike_once, add_like, drop_like,
}
use lkm_service.Prelude.Dict.{lookup, Dict}
use lkm_service.Prelude.{
  some, inr, List, ◌+◌, subst, Option-cases, arith, ◌∙◌, none, ◌∷◌, Bool-cases, false, refl, any,
  [], if◌then◌else◌, ap, ◌≡◌, nat_key, sym, true, inl, ◌==◌, text_key, Bool, ℕ, ◌⊎◌,
}

pub lookup-update_row :
    (id k : ℕ) (f : Item → Item) (d : Dict ℕ Item)
    → lookup k (update_row id f d)
      ≡ elim (lookup k d) [ none ↦ none | some i ↦ some (if id == k then f i else i) ]
unfolding lookup update_row
lookup-update_row id k f [] = refl
lookup-update_row id k f ((j, i) ∷ d) = elim (Bool-cases (j == k)) [
  | inl here ↦
      let same : (j == id) ≡ (id == k) = ground (arith, here) in
      elim (Bool-cases (id == k)) [
        | inl t ↦ rw (same, t) (rw here (rw t refl))
        | inr t ↦ rw (same, t) (rw here (rw t refl))
      ]
  | inr other ↦ elim (Bool-cases (j == id)) [
    | inl t ↦ rw (t, other) (lookup-update_row id k f d)
    | inr t ↦ rw (t, other) (lookup-update_row id k f d)
  ]
]

count-delete_like :
    (id user k : ℕ) (rows : List (ℕ × ℕ))
    → any (is_like id user) rows ≡ true
    → count_rows k (delete_like id user rows) + (if id == k then 1 else 0) ≡ count_rows k rows
unfolding delete_like
count-delete_like id user k [] h = absurd (cc h)
count-delete_like id user k ((j, u) ∷ rows) h = elim (Bool-cases (is_like id user (j, u))) [
  | inl f ↦ let same : j ≡ id = ground (arith, f) in rw (f, same) (ground arith)
  | inr f ↦ let rest = count-delete_like id user k rows (rw f at h) in rw f (ground (arith, rest))
]

-- The column of every item is the number of its likes.
abbrev pub HoldsLikes : List (ℕ × ℕ) → Dict ℕ Item → Type 0
HoldsLikes rows d = (k : ℕ) (i : Item) → lookup k d ≡ some i → i.like_count ≡ count_rows k rows

-- The reply of a call on an item: the number of likes it has now, or that it is missing.
abbrev pub IsReply : ℕ → Result ContentErr ℤ → Store → Type 0
IsReply id r t =
    (r ≡ ok (pos (count_rows id t.content_likes)))
    ⊎ ((r ≡ err content_not_found) × (is_active id t ≡ false))

abbrev pub IsCounted : ℕ → Result ContentErr ℤ × Store → Type 0
IsCounted id (r, t) = HoldsLikes t.content_likes t.items × IsReply id r t

pub is_active-found :
    (id : ℕ) (s : Store) → is_active id s ≡ true → (i : Item) × (lookup id s.items ≡ some i)
is_active-found id s h = elim (Option-cases (lookup id s.items)) [
  | inl e ↦ absurd (cc (rw (is_active, e) at h))
  | inr e ↦ e
]

abbrev bump_likes : ℤ → Item → Item
bump_likes delta i = set_column likes_field (bumped_count (column likes_field i) delta) i

write_through_bump-found :
    (id : ℕ) (delta : ℤ) (s : Store) (i : Item)
    → lookup id s.items ≡ some i
    → write_through_bump id likes_field delta s ≡ (
      ok (bumped_count i.like_count delta),
      record s { items = update_row id (bump_likes delta) s.items },
    )
unfolding write_through_bump
write_through_bump-found id delta s i found = rw (◌>>=◌, found) refl

bump-IsCounted :
    (id : ℕ) (delta : ℤ) (before : List (ℕ × ℕ)) (s : Store) (i : Item)
    → lookup id s.items ≡ some i
    → HoldsLikes before s.items
    → ((k : ℕ)
        → count_rows k s.content_likes
          ≡ (if id == k then bumped_count (count_rows k before) delta else count_rows k before))
    → IsCounted id (bump_content_counter true id likes_field delta s)
unfolding bump_content_counter
bump-IsCounted id delta before s i found holds moved =
    let self : (id == id) ≡ true = ground arith in
    let f : Item → Item = bump_likes delta in
    let ends : bump_content_counter true id likes_field delta s ≡ (
      ok (pos (bumped_count i.like_count delta)),
      record s { items = update_row id f s.items },
    ) =
      bind-ok (write_through_bump id likes_field delta) (λ n. pure (pos n)) s
        (record s { items = update_row id f s.items }) (bumped_count i.like_count delta)
        (write_through_bump-found id delta s i found) in
    let rows : HoldsLikes s.content_likes (update_row id f s.items) = λ k j h.
      elim (Option-cases (lookup k s.items)) [
        | inl e ↦ absurd (cc (rw e at (sym (lookup-update_row id k f s.items) ∙ h)))
        | inr e ↦
            let (x, at_k) = e in
            let now_k : some (if id == k then f x else x) ≡ some j =
              rw at_k at (sym (lookup-update_row id k f s.items) ∙ h) in
            let before_k : x.like_count ≡ count_rows k before = holds k x at_k in
            let moved_k = moved k in
            elim (Bool-cases (id == k)) [
              | inl t ↦
                  let new : some (f x) ≡ some j = rw t at now_k in
                  let count : count_rows k s.content_likes
                      ≡ bumped_count (count_rows k before) delta =
                    rw t at moved_k in
                  cc (new, count, before_k)
              | inr t ↦
                  let old : some x ≡ some j = rw t at now_k in
                  let count : count_rows k s.content_likes ≡ count_rows k before =
                    rw t at moved_k in
                  cc (old, count, before_k)
            ]
      ] in
    let before_id : i.like_count ≡ count_rows id before = holds id i found in
    let moved_id : count_rows id s.content_likes ≡ bumped_count (count_rows id before) delta =
      rw self at (moved id) in
    let value : bumped_count i.like_count delta ≡ count_rows id s.content_likes =
      ap (λ n. bumped_count n delta) before_id ∙ sym moved_id in
    subst (IsCounted id) (sym ends) (rows, inl (ap (λ n. ok (pos n)) value))

read-IsCounted :
    (id : ℕ) (s : Store) (i : Item)
    → lookup id s.items ≡ some i
    → HoldsLikes s.content_likes s.items
    → IsCounted id (read_count true id likes_field s)
unfolding read_count
read-IsCounted id s i found holds =
    let ends : read_count true id likes_field s ≡ (ok (pos i.like_count), s) =
      rw (◌>>=◌, found) refl in
    let right : i.like_count ≡ count_rows id s.content_likes = holds id i found in
    subst (IsCounted id) (sym ends) (holds, inl (ap (λ n. ok (pos n)) right))

pub like_once-IsCounted :
    (id user : ℕ) (s : Store) (i : Item) (found : Bool)
    → lookup id s.items ≡ some i
    → HoldsLikes s.content_likes s.items
    → IsCounted id (like_once true id user found s)
unfolding like_once ◌+ℤ◌
like_once-IsCounted id user s i true at_id holds = read-IsCounted id s i at_id holds
like_once-IsCounted id user s i false at_id holds =
    let moved : (k : ℕ)
        → count_rows k ((id, user) ∷ s.content_likes) ≡ (
            if id == k
            then bumped_count (count_rows k s.content_likes) (pos 1)
            else count_rows k s.content_likes) =
      λ k. elim (Bool-cases (id == k)) [ inl t ↦ rw t (ground arith) | inr t ↦ rw t refl ] in
    bump-IsCounted id (pos 1) s.content_likes (add_like id user s) i at_id holds moved

pub unlike_once-IsCounted :
    (id user : ℕ) (s : Store) (i : Item)
    → lookup id s.items ≡ some i
    → HoldsLikes s.content_likes s.items
    → (found : Bool) → any (is_like id user) s.content_likes ≡ found
    → IsCounted id (unlike_once true id user found s)
unfolding unlike_once ◌+ℤ◌
unlike_once-IsCounted id user s i at_id holds false liked = read-IsCounted id s i at_id holds
unlike_once-IsCounted id user s i at_id holds true liked =
    let moved : (k : ℕ)
        → count_rows k (delete_like id user s.content_likes) ≡ (
            if id == k
            then bumped_count (count_rows k s.content_likes) (negsuc 0)
            else count_rows k s.content_likes) =
      λ k.
        let count = count-delete_like id user k s.content_likes liked in
        elim (Bool-cases (id == k)) [
          | inl t ↦ rw t (ground (arith, rw t at count))
          | inr t ↦ rw t (omega (arith, rw t at count))
        ] in
    bump-IsCounted id (negsuc 0) s.content_likes (drop_like id user s) i at_id holds moved
