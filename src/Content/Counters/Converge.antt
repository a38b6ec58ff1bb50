-- ===== src/Content/Counters/Converge.antt =====
-- A full reconciliation corrects every row, and the next one finds nothing to correct
-- (app/modules/content/counters.py::reconcile_counts).
-- Every item holds the counts of its rows.
use lkm_service.Content.Counters.Rounds.{windows-IsAt}
use lkm_service.Content.Counters.Rows.{Above}
use lkm_service.Content.Counters.Windows.{fixed, wrong, IsAt}
use lkm_service.Prelude.Dict.{Dict}
use lkm_service.Content.Counters.{
  windows, Progress, reconcile_counts, same_counts, mark_converged, current_counts, real_counts,
  has_pending_delta, pending_delta, begin_run, end_run, Progress,
}
use lkm_service.Content.{Store, Item}
use lkm_service.Prelude.{
  ◌∷◌, none, List, arith, nat_key, inl, suc, some, contains, ◌≡◌, ◌∙◌, Bool-cases, subst, length,
  ap, [], ◌<◌, true, refl, All, sym, Option, ℕ, ◌+◌, inr, false, text_key, map,
}

abbrev pub HoldsCounts : (ℕ → ℕ × ℕ × ℕ) → Dict ℕ Item → Type 0
HoldsCounts real d = All (λ r. current_counts r.1 ≡ real r.0) d

same_counts-eq : (x y : ℕ × ℕ × ℕ) → same_counts x y ≡ true → x ≡ y
same_counts-eq (a, b, c) (x, y, z) h =
    let first : a ≡ x = ground (arith, h) in
    let second : b ≡ y = ground (arith, h) in
    let third : c ≡ z = ground (arith, h) in cc (first, second, third)

same_counts_self : (x : ℕ × ℕ × ℕ) → same_counts x x ≡ true
same_counts_self (a, b, c) = ground arith

HoldsCounts-wrong : (real : ℕ → ℕ × ℕ × ℕ) (d : Dict ℕ Item) → HoldsCounts real d → wrong real d ≡ 0
HoldsCounts-wrong real [] h = refl
HoldsCounts-wrong real ((id, i) ∷ d) h =
    let same : same_counts (real id) (current_counts i) ≡ true =
      rw (← (h.0)) (same_counts_self (current_counts i)) in
    rw same (HoldsCounts-wrong real d h.1)

HoldsCounts-same :
    (real other : ℕ → ℕ × ℕ × ℕ) (d : Dict ℕ Item)
    → ((k : ℕ) → other k ≡ real k)
    → HoldsCounts real d
    → HoldsCounts other d
HoldsCounts-same real other [] same h = tt
HoldsCounts-same real other ((id, i) ∷ d) same h =
    (h.0 ∙ sym (same id), HoldsCounts-same real other d same h.1)

-- The table after a run.
abbrev settled : (ℕ → ℕ × ℕ × ℕ) → ℕ → List ℕ → Dict ℕ Item → Dict ℕ Item
settled real now ids d = mark_converged ids now (map (fixed real now) d)

module _ (real : ℕ → ℕ × ℕ × ℕ) (now : ℕ) (ids : List ℕ) where
  settled-Above : (last : ℕ) (d : Dict ℕ Item) → Above last d → Above last (settled real now ids d)
  unfolding mark_converged
  settled-Above last [] h = tt
  settled-Above last ((id, i) ∷ d) h = (h.0, settled-Above id d h.1)

  settled_keys : (d : Dict ℕ Item) → map (λ r. r.0) (settled real now ids d) ≡ map (λ r. r.0) d
  unfolding mark_converged
  settled_keys [] = refl
  settled_keys ((id, i) ∷ d) = ap (λ l. id ∷ l) (settled_keys d)

  length-settled : (d : Dict ℕ Item) → length (settled real now ids d) ≡ length d
  unfolding mark_converged
  length-settled [] = refl
  length-settled (r ∷ d) = ap suc (length-settled d)

  fixed_row : (id : ℕ) (i : Item) → current_counts (fixed real now (id, i)).1 ≡ real id
  fixed_row id i = elim (Bool-cases (same_counts (real id) (current_counts i))) [
    | inl f ↦ rw f (sym (same_counts-eq (real id) (current_counts i) f))
    | inr f ↦ rw f refl
  ]

  settled-HoldsCounts : (d : Dict ℕ Item) → HoldsCounts real (settled real now ids d)
  unfolding mark_converged
  settled-HoldsCounts [] = tt
  settled-HoldsCounts ((id, i) ∷ d) =
      let row : current_counts (fixed real now (id, i)).1 ≡ real id = fixed_row id i in
      elim (Bool-cases (contains id ids)) [
        | inl f ↦ (rw f row, settled-HoldsCounts d)
        | inr f ↦ (rw f row, settled-HoldsCounts d)
      ]

-- No item has a delta that Redis still holds.
abbrev pub IsFlushed : Store → Type 0
IsFlushed s = (id : ℕ) → has_pending_delta id s ≡ false

-- What a full run makes of a store.
abbrev Reconciled : Store → Store → Type 0
Reconciled s t =
    Above 0 t.items
    × (map (λ r. r.0) t.items ≡ map (λ r. r.0) s.items)
    × (length t.items ≡ length s.items)
    × IsFlushed t
    × HoldsCounts (λ k. real_counts k t) t.items

end_run-Reconciled :
    (s : Store) (q : Progress) (seen fixes : ℕ)
    → Above 0 s.items
    → IsAt
        (λ k. real_counts k s)
        s.now
        (map (fixed (λ k. real_counts k s) s.now) s.items)
        seen
        fixes
        q
    → Reconciled s (end_run q).1
unfolding real_counts pending_delta
end_run-Reconciled s q seen fixes above h =
    let real : ℕ → ℕ × ℕ × ℕ = λ k. real_counts k s in
    let table : settled real s.now q.converged s.items ≡ (end_run q).1.items =
      rw (h.0.2, h.1) refl in
    (
      subst (Above 0) table (settled-Above real s.now q.converged 0 s.items above),
      ap (map (λ r. r.0)) (sym table) ∙ settled_keys real s.now q.converged s.items,
      ap length (sym table) ∙ length-settled real s.now q.converged s.items,
      h.0.1,
      HoldsCounts-same real (λ k. real_counts k (end_run q).1) (end_run q).1.items h.0.0
          (subst (HoldsCounts real) table (settled-HoldsCounts real s.now q.converged s.items)),
    )

reconcile_counts-end_run :
    (fuel b : ℕ) (s : Store) (q : Progress) (seen fixes : ℕ)
    → windows fuel false (suc b) 0 (begin_run s) ≡ some q
    → q.scanned ≡ seen
    → q.affected ≡ fixes
    → reconcile_counts fuel (suc b) false s ≡ some ((seen, fixes), (end_run q).1)
unfolding reconcile_counts
reconcile_counts-end_run fuel b s q seen fixes ends h g =
    ap (λ (o : Option Progress). elim o [ none ↦ none | some p ↦ some (end_run p) ]) ends
    ∙ cc (h, g)

reconcile_counts-Reconciled :
    (fuel b : ℕ) (s : Store)
    → Above 0 s.items
    → length s.items < fuel
    → IsFlushed s
    → (t : Store) × (reconcile_counts fuel (suc b) false s
        ≡ some ((length s.items, wrong (λ k. real_counts k s) s.items), t))
      × Reconciled s t
unfolding reconcile_counts
reconcile_counts-Reconciled fuel b s above lt flushed =
    let real : ℕ → ℕ × ℕ × ℕ = λ k. real_counts k s in
    let (q, ends, h) =
      windows-IsAt real s.now fuel b 0 [] s.items 0 0 (begin_run s) tt above lt
        (((λ k. refl), flushed, refl), refl, refl, refl) in
    let seen : q.scanned ≡ length s.items = omega (arith, h.2) in
    let fixes : q.affected ≡ wrong real s.items = omega (arith, h.3) in
    (
      (end_run q).1,
      reconcile_counts-end_run fuel b s q (length s.items) (wrong real s.items) ends seen fixes,
      end_run-Reconciled s q (0 + length s.items) (0 + wrong real s.items) above h,
    )

-- If Redis holds no delta for an item, the keys are ascending and none is the nil uuid, a full
-- reconciliation in windows of `b` + 1 rows, with more fuel than rows, looks at every row, corrects
-- those that are wrong, leaves every item with the counts of its rows under the same keys, and a
-- second one right after it looks at every row and corrects none.
pub reconcile_counts-reconcile_counts :
    (fuel b : ℕ) (s : Store)
    → Above 0 s.items
    → length s.items < fuel
    → IsFlushed s
    → (t : Store) × (u : Store) × (reconcile_counts fuel (suc b) false s
        ≡ some ((length s.items, wrong (λ k. real_counts k s) s.items), t))
      × (map (λ r. r.0) t.items ≡ map (λ r. r.0) s.items)
      × HoldsCounts (λ k. real_counts k t) t.items
      × (reconcile_counts fuel (suc b) false t ≡ some ((length s.items, 0), u))
reconcile_counts-reconcile_counts fuel b s above lt flushed =
    let (t, first, r) = reconcile_counts-Reconciled fuel b s above lt flushed in
    let (u, second, r2) = reconcile_counts-Reconciled fuel b t r.0 (omega (arith, lt, r.2)) r.3 in
    let none_wrong = HoldsCounts-wrong (λ k. real_counts k t) t.items r.4 in
    (t, u, first, r.1, r.4, second ∙ cc (none_wrong, r.2))
