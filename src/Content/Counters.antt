-- ===== src/Content/Counters.antt =====
-- The counts of content: write-through updates and the reconciliation with the counted rows
-- (app/modules/content/counters.py, app/modules/comment/counters.py, core/counters.py).
pub mod Rows
pub mod Windows
pub mod Rounds
pub mod Converge
use lkm_service.Prelude.Exec.{◌>>=◌, ◌>>◌, Exec, reads, get_or_raise, modify, pure, ok, gets}
use lkm_service.Prelude.Int.{ℤ, pos_part, pos, ◌+ℤ◌}
use lkm_service.Content.{
  Item, Field, Store, Comment, likes_field, ContentErr, comments_field, bookmarks_field,
  content_not_found,
}
use lkm_service.Prelude.Dict.{Dict, lookup, insert}
use lkm_service.Prelude.Int.{int_key}
use lkm_service.Prelude.{
  ◌⊎◌, true, String, ◌∷◌, ◌↔◌, ◌++◌, length, inr, any, none, false, some, all, Bool, take, nat_eqb,
  ◌*◌, ◌&&◌, ltb, suc, ℕ, drop, Option, subst, ◌+◌, inl, nat_key, ◌≢◌, All, keep, if◌then◌else◌, [],
  ◌-◌, Bool-cases, leb, is_some, min, Option-cases, refl, ◌<◌, arith, ap, List, ◌≤◌, ◌==◌, ◌∙◌, sym,
  ◌||◌, max, ◌≡◌, zero, map, contains, text_key, not,
}

abbrev pub count_rows : ℕ → List (ℕ × ℕ) → ℕ
count_rows k rows = length (keep (λ (r : ℕ × ℕ). r.0 == k) rows)

-- An UPDATE of the rows with the key.
unfoldable pub update_row : ℕ → (Item → Item) → Dict ℕ Item → Dict ℕ Item
update_row k f [] = []
update_row k f ((j, i) ∷ d) = (if j == k then (j, f i) else (j, i)) ∷ update_row k f d

abbrev pub column : Field → Item → ℕ
column likes_field i = i.like_count
column comments_field i = i.comment_count
column bookmarks_field i = i.bookmark_count

abbrev pub set_column : Field → ℕ → Item → Item
set_column likes_field n i = record i { like_count = n }
set_column comments_field n i = record i { comment_count = n }
set_column bookmarks_field n i = record i { bookmark_count = n }

-- `greatest(col + delta, 0)`
abbrev pub bumped_count : ℕ → ℤ → ℕ
bumped_count n delta = pos_part (pos n +ℤ delta)

unfoldable pub write_through_bump : ℕ → Field → ℤ → Exec ContentErr Store ℕ
write_through_bump id field delta = do
  i ← reads (λ s. get_or_raise content_not_found (lookup id s.items))
  modify (λ s. record s {
    items = update_row id (λ i. set_column field (bumped_count (column field i) delta) i) s.items;
  })
  pure (bumped_count (column field i) delta)

-- Without Redis, or without a key, there is no delta.
unfoldable pub pending_delta : Field → ℕ → Store → ℤ
pending_delta field id s = elim s.redis [
  | none ↦ pos 0
  | some r ↦ elim (lookup id (r field)) [ none ↦ pos 0 | some d ↦ d ]
]

unfoldable pub put_delta : Field → ℕ → ℤ → (Field → Dict ℕ ℤ) → Field → Dict ℕ ℤ
put_delta likes_field id d r likes_field = insert id d (r likes_field)
put_delta comments_field id d r comments_field = insert id d (r comments_field)
put_delta bookmarks_field id d r bookmarks_field = insert id d (r bookmarks_field)
put_delta _ id d r f = r f

-- False if Redis does not answer.
unfoldable pub bump_counter : Field → ℕ → ℤ → Store → Bool × Store
bump_counter field id delta s = elim s.redis [
  | none ↦ (false, s)
  | some r ↦
      let d = pending_delta field id s +ℤ delta in
      (true, record s { redis = some (put_delta field id d r) })
]

abbrev pub load_item : ℕ → Exec ContentErr Store Item
load_item id = reads (λ s. get_or_raise content_not_found (lookup id s.items))

-- Redis counts the delta, or the column does.
unfoldable pub bump_or_write : ℕ → Field → ℤ → ℕ → Exec ContentErr Store ℤ
bump_or_write id field delta base s =
    let (counted, t) = bump_counter field id delta s in
    let written = (write_through_bump id field delta >>= λ n. pure (pos n)) s in
    if counted then (ok (pos base +ℤ pending_delta field id t), t) else written

unfoldable pub bump_content_counter : Bool → ℕ → Field → ℤ → Exec ContentErr Store ℤ
bump_content_counter true id field delta = write_through_bump id field delta >>= λ n. pure (pos n)
bump_content_counter false id field delta =
    load_item id >>= λ i. bump_or_write id field delta (column field i)

unfoldable pub read_count : Bool → ℕ → Field → Exec ContentErr Store ℤ
read_count write_through id field = do
  i ← load_item id
  pending ← gets (λ s. pending_delta field id s)
  pure (if write_through then pos (column field i) else pos (column field i) +ℤ pending)

abbrev pub has_pending_delta : ℕ → Store → Bool
has_pending_delta id s =
    not (pending_delta likes_field id s == pos 0)
    || not (pending_delta comments_field id s == pos 0)
    || not (pending_delta bookmarks_field id s == pos 0)

abbrev pub is_live_of : ℕ → Comment → Bool
is_live_of id c = c.content_id == id && not c.is_deleted

-- What the three subqueries count.
unfoldable pub real_counts : ℕ → Store → ℕ × ℕ × ℕ
real_counts id s = (
  count_rows id s.content_likes,
  length (keep (is_live_of id) s.comments),
  count_rows id s.favorites,
)

abbrev pub current_counts : Item → ℕ × ℕ × ℕ
current_counts i = (i.like_count, i.comment_count, i.bookmark_count)

abbrev pub same_counts : ℕ × ℕ × ℕ → ℕ × ℕ × ℕ → Bool
same_counts (a, b, c) (x, y, z) = nat_eqb a x && nat_eqb b y && nat_eqb c z

abbrev pub relike : List (ℕ × ℕ) → List ℕ → Comment → Comment
relike rows ids c =
    if contains c.content_id ids then record c { likes = count_rows c.comment_id rows } else c

-- The comments of these items get the number of their likes.
unfoldable pub reconcile_comment_likes : List ℕ → Store → Store
reconcile_comment_likes ids s = record s { comments = map (relike s.comment_likes ids) s.comments }

pub record Progress : Type 0 where
  pub store : Store
  pub scanned : ℕ
  pub affected : ℕ
  pub corrected : List ℕ
  pub converged : List ℕ

abbrev pub set_counts : ℕ × ℕ × ℕ → ℕ → Item → Item
set_counts real now i = record i {
  like_count = real.0;
  comment_count = real.1;
  bookmark_count = real.2;
  counts_reconciled_at = some now;
}

abbrev pub correct : ℕ → ℕ × ℕ × ℕ → Progress → Progress
correct id real p = record p {
  store = record p.store { items = update_row id (set_counts real p.store.now) p.store.items };
  affected = p.affected + 1;
  corrected = id ∷ p.corrected;
}

-- `real` is what the row's subqueries counted.
unfoldable pub check_row : ℕ × Item → ℕ × ℕ × ℕ → Progress → Progress
check_row (id, i) real p =
    if same_counts real (current_counts i)
    then record p { converged = id ∷ p.converged }
    else if has_pending_delta id p.store
    then p
    else correct id real p

unfoldable pub check_rows : List ((ℕ × Item) × (ℕ × ℕ × ℕ)) → Progress → Progress
check_rows [] p = p
check_rows ((r, real) ∷ rows) p = check_rows rows (check_row r real p)

-- The rows of one window.
abbrev pub in_window : Bool → ℕ → ℕ × Item → Bool
in_window only_unconverged last (id, i) =
    ltb last id && (not only_unconverged || not (is_some i.counts_reconciled_at))

unfoldable pub last_id : ℕ → Dict ℕ Item → ℕ
last_id last [] = last
last_id last ((id, _) ∷ rows) = last_id id rows

-- The counts are read with the rows.
abbrev pub with_counts : Store → ℕ × Item → (ℕ × Item) × (ℕ × ℕ × ℕ)
with_counts s r = (r, real_counts r.0 s)

abbrev pub do_window : Dict ℕ Item → Progress → Progress
do_window rows p =
    let q =
      check_rows (map (with_counts p.store) rows)
        (record p { store = reconcile_comment_likes (map (λ (r : ℕ × Item). r.0) rows) p.store }) in
    record q { scanned = q.scanned + length rows }

unfoldable pub windows : ℕ → Bool → ℕ → ℕ → Progress → Option Progress
windows zero only batch last p = none
windows (suc fuel) only batch last p =
    let rows = take batch (keep (in_window only last) p.store.items) in
    let rest = windows fuel only batch (last_id last rows) (do_window rows p) in
    elim rows [ [] ↦ some p | _ ∷ _ ↦ rest ]

unfoldable pub mark_converged : List ℕ → ℕ → Dict ℕ Item → Dict ℕ Item
mark_converged ids now [] = []
mark_converged ids now ((id, i) ∷ d) =
    (id, if contains id ids then record i { counts_reconciled_at = some now } else i)
    ∷ mark_converged ids now d

-- `_record_oscillation`
abbrev pub record_oscillation : List ℕ → Store → Store
record_oscillation corrected s = record s {
  repeats = s.repeats + length (keep (λ id. contains id s.last_corrected) corrected);
  last_corrected = corrected;
}

abbrev pub end_run : Progress → (ℕ × ℕ) × Store
end_run p =
    let s = record p.store { items = mark_converged p.converged p.store.now p.store.items } in
    ((p.scanned, p.affected), record_oscillation p.corrected s)

abbrev pub begin_run : Store → Progress
begin_run s = record { store = s; scanned = 0; affected = 0; corrected = []; converged = [] }

-- The first bound is the nil uuid.
unfoldable pub reconcile_counts : ℕ → ℕ → Bool → Store → Option ((ℕ × ℕ) × Store)
reconcile_counts fuel batch only_unconverged s =
    elim (windows fuel only_unconverged batch 0 (begin_run s)) [
      | none ↦ none
      | some p ↦ some (end_run p)
    ]
