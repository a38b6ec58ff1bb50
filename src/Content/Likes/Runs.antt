-- ===== src/Content/Likes/Runs.antt =====
-- Any sequence of likes and unlikes under write-through (app/modules/content/service.py).
use lkm_service.Prelude.Int.{ℤ}
use lkm_service.Content.Likes.Counts.{
  HoldsLikes, IsCounted, is_active-found, like_once-IsCounted, unlike_once-IsCounted,
}
use lkm_service.Content.{Store, ContentErr, content_not_found}
use lkm_service.Content.Likes.{
  like_item, lock_active, unlike_item, is_active, is_like, find_like, like_once, unlike_once,
}
use lkm_service.Prelude.Exec.{Exec, Result, err, ◌>>=◌, bind-ok}
use lkm_service.Prelude.{
  text_key, nat_key, ◌∷◌, false, any, subst, Bool-cases, inr, refl, [], ℕ, List, ◌≡◌, sym, inl,
  true,
}

pub data Request : Type 0 where
  put_like take_like : ℕ → ℕ → Request

abbrev pub item_of : Request → ℕ
item_of (put_like id user) = id
item_of (take_like id user) = id

-- A request that raises does so before it writes.
abbrev pub respond : Request → Exec ContentErr Store ℤ
respond (put_like id user) = like_item true id user
respond (take_like id user) = unlike_item true id user

unfoldable pub serve_all : List Request → Store → Store
serve_all [] s = s
serve_all (r ∷ rs) s = serve_all rs (respond r s).1

locked :
    (id : ℕ) (s : Store) (k : Unit {0} → Exec ContentErr Store ℤ)
    → is_active id s ≡ true
    → (lock_active id >>= k) s ≡ k tt s
unfolding lock_active
locked id s k h = bind-ok (lock_active id) k s s tt (rw (is_active, h) refl)

refused :
    (id : ℕ) (s : Store) (k : Unit {0} → Exec ContentErr Store ℤ)
    → is_active id s ≡ false
    → (lock_active id >>= k) s ≡ (err content_not_found, s)
unfolding lock_active
refused id s k h = rw (◌>>=◌, is_active, h) refl

refused-IsCounted :
    (id : ℕ) (s : Store) (m : Result ContentErr ℤ × Store)
    → HoldsLikes s.content_likes s.items
    → is_active id s ≡ false
    → m ≡ (err content_not_found, s)
    → IsCounted id m
refused-IsCounted id s m holds off h = subst (IsCounted id) (sym h) (holds, inr (refl, off))

respond-IsCounted :
    (r : Request) (s : Store)
    → HoldsLikes s.content_likes s.items
    → IsCounted (item_of r) (respond r s)
unfolding like_item unlike_item
respond-IsCounted (put_like id user) s holds = elim (Bool-cases (is_active id s)) [
  | inl on ↦
      let found = any (is_like id user) s.content_likes in
      let (i, at_id) = is_active-found id s on in
      subst (IsCounted id)
        (sym (locked id s (λ _. find_like id user >>= like_once true id user) on))
        (like_once-IsCounted id user s i found at_id holds)
  | inr off ↦
      refused-IsCounted id s (respond (put_like id user) s) holds off
        (refused id s (λ _. find_like id user >>= like_once true id user) off)
]
respond-IsCounted (take_like id user) s holds = elim (Bool-cases (is_active id s)) [
  | inl on ↦
      let found = any (is_like id user) s.content_likes in
      let (i, at_id) = is_active-found id s on in
      subst (IsCounted id)
        (sym (locked id s (λ _. find_like id user >>= unlike_once true id user) on))
        (unlike_once-IsCounted id user s i at_id holds found refl)
  | inr off ↦
      refused-IsCounted id s (respond (take_like id user) s) holds off
        (refused id s (λ _. find_like id user >>= unlike_once true id user) off)
]

serve_all-HoldsLikes :
    (rs : List Request) (s : Store)
    → HoldsLikes s.content_likes s.items
    → HoldsLikes (serve_all rs s).content_likes (serve_all rs s).items
unfolding serve_all
serve_all-HoldsLikes [] s h = h
serve_all-HoldsLikes (r ∷ rs) s h =
    serve_all-HoldsLikes rs (respond r s).1 (respond-IsCounted r s h).0

-- If the like column of every item is the number of its likes, then under write-through it is so
-- after any sequence of likes and unlikes, and a further like or unlike of an item keeps it so and
-- reports the number of likes that the item then has, or raises because the item is missing or
-- deleted.
pub serve_all-IsCounted :
    (rs : List Request) (r : Request) (s : Store)
    → HoldsLikes s.content_likes s.items
    → IsCounted (item_of r) (respond r (serve_all rs s))
serve_all-IsCounted rs r s h = respond-IsCounted r (serve_all rs s) (serve_all-HoldsLikes rs s h)
