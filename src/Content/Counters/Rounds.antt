-- ===== src/Content/Counters/Rounds.antt =====
-- The loop over the windows of a full reconciliation
-- (app/modules/content/counters.py::reconcile_counts).
use lkm_service.Content.Counters.Windows.{IsAt, fixed, wrong, check_rows-IsAt, wrong_cons}
use lkm_service.Content.Counters.Rows.{
  IsWithin, Above, append_empty, IsWithin-weaken, IsWithin-append, keep-IsWithin, keep-Above,
  append_assoc,
}
use lkm_service.Prelude.Dict.{Dict}
use lkm_service.Content.Counters.{
  reconcile_comment_likes, last_id, real_counts, windows, is_live_of, pending_delta, relike,
  with_counts, Progress, in_window, do_window,
}
use lkm_service.Content.{Comment, Store, Item}
use lkm_service.Prelude.{
  inr, Bool-cases, ◌∷◌, drop, map, ap, zero, take, ◌<◌, ◌++◌, [], ◌∙◌, text_key, ◌≡◌, some, arith,
  keep, inl, suc, false, ◌+◌, refl, subst, List, contains, ℕ, nat_key, length, sym, length-drop,
}

pub take-drop {ℓ} : {A : Type ℓ} (n : ℕ) (xs : List A) → take n xs ++ drop n xs ≡ xs
take-drop zero xs = refl
take-drop (suc n) [] = refl
take-drop (suc n) (x ∷ xs) = ap (λ l. x ∷ l) (take-drop n xs)

live_relike :
    (k : ℕ) (rows : List (ℕ × ℕ)) (ids : List ℕ) (cs : List Comment)
    → length (keep (is_live_of k) (map (relike rows ids) cs)) ≡ length (keep (is_live_of k) cs)
live_relike k rows ids [] = refl
live_relike k rows ids (c ∷ cs) =
    let rest = live_relike k rows ids cs in
    let same : is_live_of k (relike rows ids c) ≡ is_live_of k c =
      elim (Bool-cases (contains c.content_id ids)) [ inl f ↦ rw f refl | inr f ↦ rw f refl ] in
    elim (Bool-cases (is_live_of k c)) [
      | inl f ↦ rw (same, f) (ap suc rest)
      | inr f ↦ rw (same, f) rest
    ]

-- The likes of comments are none of the counts of an item.
pub real_counts-reconcile_comment_likes :
    (k : ℕ) (ids : List ℕ) (s : Store)
    → real_counts k (reconcile_comment_likes ids s) ≡ real_counts k s
unfolding real_counts reconcile_comment_likes
real_counts-reconcile_comment_likes k ids s = rw (live_relike k s.comment_likes ids s.comments) refl

pub map-with_counts :
    (real : ℕ → ℕ × ℕ × ℕ) (s : Store) (rows : Dict ℕ Item)
    → ((k : ℕ) → real_counts k s ≡ real k)
    → map (with_counts s) rows ≡ map (λ r. (r, real r.0)) rows
map-with_counts real s [] h = refl
map-with_counts real s (r ∷ rows) h =
    rw (h r.0) (ap (λ l. (r, real r.0) ∷ l) (map-with_counts real s rows h))

pub last_id-Above :
    (last : ℕ) (rows e : Dict ℕ Item) → Above last (rows ++ e) → Above (last_id last rows) e
unfolding last_id
last_id-Above last [] e h = h
last_id-Above last ((id, i) ∷ rows) e h = last_id-Above id rows e h.1

windows_step :
    (fuel b last : ℕ) (p : Progress) (r : ℕ × Item) (e : Dict ℕ Item)
    → keep (in_window false last) p.store.items ≡ r ∷ e
    → windows (suc fuel) false (suc b) last p
      ≡ windows fuel false (suc b) (last_id last (r ∷ take b e)) (do_window (r ∷ take b e) p)
unfolding windows
windows_step fuel b last p r e h =
    ap
      (λ (ws : Dict ℕ Item).
        let rows = take (suc b) ws in
        let rest = windows fuel false (suc b) (last_id last rows) (do_window rows p) in
        elim rows [ [] ↦ some p | _ ∷ _ ↦ rest ])
      h

module _ (real : ℕ → ℕ × ℕ × ℕ) (now : ℕ) where
  pub last_id-IsWithin :
      (last : ℕ) (d rows e : Dict ℕ Item)
      → IsWithin last d
      → Above last (rows ++ e)
      → IsWithin (last_id last rows) (d ++ map (fixed real now) rows)
  unfolding last_id
  last_id-IsWithin last d [] e within h = rw (append_empty d) within
  last_id-IsWithin last d ((id, i) ∷ rows) e within h =
      let r = fixed real now (id, i) in
      let low = IsWithin-weaken last id d (omega (arith, h.0)) within in
      let within2 = IsWithin-append id d (r ∷ []) low (omega arith, tt) in
      let rest = last_id-IsWithin id (d ++ r ∷ []) rows e within2 h.1 in
      subst (λ l. IsWithin (last_id id rows) l) (append_assoc d r (map (fixed real now) rows)) rest

  pub do_window-IsAt :
      (last : ℕ) (d rows e : Dict ℕ Item) (seen fixes : ℕ) (p : Progress)
      → IsWithin last d
      → Above last (rows ++ e)
      → IsAt real now (d ++ (rows ++ e)) seen fixes p
      → IsAt real now
          ((d ++ map (fixed real now) rows) ++ e)
          (seen + length rows)
          (fixes + wrong real rows)
          (do_window rows p)
  unfolding reconcile_comment_likes pending_delta
  do_window-IsAt last d rows e seen fixes p within above h =
      let ids = map (λ (r : ℕ × Item). r.0) rows in
      let p2 : Progress = record p { store = reconcile_comment_likes ids p.store } in
      let counts : (k : ℕ) → real_counts k p2.store ≡ real k =
        λ k. real_counts-reconcile_comment_likes k ids p.store ∙ h.0.0 k in
      let h2 : IsAt real now (d ++ (rows ++ e)) seen fixes p2 =
        ((counts, h.0.1, h.0.2), h.1, h.2, h.3) in
      let r = check_rows-IsAt real now last d rows e seen fixes p2 within above h2 in
      rw (map-with_counts real p.store rows h.0.0) (r.0, r.1, rw (r.2) refl, r.3)

  joined-IsAt :
      (d rows e : Dict ℕ Item) (seen fixes : ℕ) (q : Progress)
      → IsAt real now
          ((d ++ map (fixed real now) rows) ++ map (fixed real now) e)
          (seen + length rows + length e)
          (fixes + wrong real rows + wrong real e)
          q
      → IsAt real now
          (d ++ map (fixed real now) (rows ++ e))
          (seen + length (rows ++ e))
          (fixes + wrong real (rows ++ e))
          q
  joined-IsAt d [] e seen fixes q h = (
    h.0,
    h.1 ∙ ap (λ l. l ++ map (fixed real now) e) (append_empty d),
    omega (arith, h.2),
    omega (arith, h.3),
  )
  joined-IsAt d (r ∷ rows) e seen fixes q h =
      let f = fixed real now r in
      let table : q.store.items
          ≡ ((d ++ f ∷ []) ++ map (fixed real now) rows) ++ map (fixed real now) e =
        h.1
        ∙ ap (λ l. l ++ map (fixed real now) e)
            (sym (append_assoc d f (map (fixed real now) rows))) in
      let rest =
        joined-IsAt (d ++ f ∷ []) rows e (suc seen) (fixes + wrong real (r ∷ [])) q
          (h.0, table, omega (arith, h.2), h.3 ∙ omega (arith, wrong_cons real r rows)) in
      (
        rest.0,
        rest.1 ∙ append_assoc d f (map (fixed real now) (rows ++ e)),
        omega (arith, rest.2),
        rest.3 ∙ omega (arith, wrong_cons real r (rows ++ e)),
      )

  pub windows-IsAt :
      (fuel b last : ℕ) (d e : Dict ℕ Item) (seen fixes : ℕ) (p : Progress)
      → IsWithin last d
      → Above last e
      → length e < fuel
      → IsAt real now (d ++ e) seen fixes p
      → (q : Progress) × (windows fuel false (suc b) last p ≡ some q)
        × IsAt real now (d ++ map (fixed real now) e) (seen + length e) (fixes + wrong real e) q
  unfolding windows
  windows-IsAt zero b last d e seen fixes p within above lt h = absurd (omega (arith, lt))
  windows-IsAt (suc fuel) b last d [] seen fixes p within above lt h =
      let seen_rows : keep (in_window false last) p.store.items ≡ [] =
        ap (keep (in_window false last)) (h.1) ∙ keep-IsWithin last d [] within in
      (p, rw (windows, seen_rows) refl, (h.0, h.1, omega (arith, h.2), omega (arith, h.3)))
  windows-IsAt (suc fuel) b last d (r ∷ e) seen fixes p within above lt h =
      let rows = r ∷ take b e in
      let seen_rows : keep (in_window false last) p.store.items ≡ r ∷ e =
        ap (keep (in_window false last)) (h.1)
        ∙ keep-IsWithin last d (r ∷ e) within
        ∙ keep-Above last (r ∷ e) above in
      let cut : rows ++ drop b e ≡ r ∷ e = ap (λ l. r ∷ l) (take-drop b e) in
      let above2 : Above last (rows ++ drop b e) = subst (Above last) (sym cut) above in
      let h2 : IsAt real now (d ++ (rows ++ drop b e)) seen fixes p =
        subst (λ l. IsAt real now (d ++ l) seen fixes p) (sym cut) h in
      let next = do_window-IsAt last d rows (drop b e) seen fixes p within above2 h2 in
      let rest =
        windows-IsAt fuel b (last_id last rows) (d ++ map (fixed real now) rows) (drop b e)
          (seen + length rows) (fixes + wrong real rows) (do_window rows p)
          (last_id-IsWithin last d rows (drop b e) within above2)
          (last_id-Above last rows (drop b e) above2) (omega (arith, lt, length-drop b e)) next in
      let here = joined-IsAt d rows (drop b e) seen fixes (rest.0) (rest.2) in
      (
        rest.0,
        windows_step fuel b last p r e seen_rows ∙ rest.1,
        subst
            (λ l.
              IsAt real now (d ++ map (fixed real now) l) (seen + length l) (fixes + wrong real l)
                (rest.0))
            cut here,
      )
