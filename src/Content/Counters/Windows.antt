-- ===== src/Content/Counters/Windows.antt =====
-- The windows of a full reconciliation (app/modules/content/counters.py::reconcile_counts).
-- What a reconciliation makes of a row.
use lkm_service.Content.Counters.Rows.{
  IsWithin, Above, update_row-IsWithin, IsWithin-weaken, IsWithin-append, append_assoc,
  append_empty,
}
use lkm_service.Prelude.Dict.{Dict}
use lkm_service.Content.Counters.{
  check_row, real_counts, Progress, same_counts, current_counts, pending_delta, has_pending_delta,
  set_counts, check_rows,
}
use lkm_service.Content.{Store, Item}
use lkm_service.Prelude.{
  length, inl, not, if◌then◌else◌, ◌++◌, nat_key, Bool, ◌<◌, Bool-cases, false, ap, ◌∷◌, ℕ, ◌+◌,
  map, arith, ◌∙◌, keep, text_key, [], inr, ◌≡◌,
}

abbrev pub fixed : (ℕ → ℕ × ℕ × ℕ) → ℕ → ℕ × Item → ℕ × Item
fixed real now (id, i) =
    (id, if same_counts (real id) (current_counts i) then i else set_counts (real id) now i)

abbrev pub is_wrong : (ℕ → ℕ × ℕ × ℕ) → ℕ × Item → Bool
is_wrong real (id, i) = not (same_counts (real id) (current_counts i))

abbrev pub wrong : (ℕ → ℕ × ℕ × ℕ) → Dict ℕ Item → ℕ
wrong real d = length (keep (is_wrong real) d)

pub wrong_cons :
    (real : ℕ → ℕ × ℕ × ℕ) (r : ℕ × Item) (d : Dict ℕ Item)
    → wrong real (r ∷ d) ≡ wrong real (r ∷ []) + wrong real d
wrong_cons real r d = elim (Bool-cases (is_wrong real r)) [
  | inl f ↦ rw f (omega arith)
  | inr f ↦ rw f (omega arith)
]

-- The counted rows, the time, and no delta in Redis.
abbrev pub HasCounts : (ℕ → ℕ × ℕ × ℕ) → ℕ → Store → Type 0
HasCounts real now s =
    ((k : ℕ) → real_counts k s ≡ real k) × ((k : ℕ) → has_pending_delta k s ≡ false) × (s.now ≡ now)

-- The table of a progress, after so many rows looked at and corrected.
abbrev pub IsAt : (ℕ → ℕ × ℕ × ℕ) → ℕ → Dict ℕ Item → ℕ → ℕ → Progress → Type 0
IsAt real now d seen fixes p =
    HasCounts real now p.store × (p.store.items ≡ d) × (p.scanned ≡ seen) × (p.affected ≡ fixes)

module _ (real : ℕ → ℕ × ℕ × ℕ) (now : ℕ) where
  pub check_row-IsAt :
      (last : ℕ) (d e : Dict ℕ Item) (id : ℕ) (i : Item) (seen fixes : ℕ) (p : Progress)
      → IsWithin last d
      → last < id
      → Above id e
      → IsAt real now (d ++ (id, i) ∷ e) seen fixes p
      → IsAt real now
          (d ++ fixed real now (id, i) ∷ e)
          seen
          (fixes + wrong real ((id, i) ∷ []))
          (check_row (id, i) (real id) p)
  unfolding check_row real_counts pending_delta
  check_row-IsAt last d e id i seen fixes p within lt above h =
      elim (Bool-cases (same_counts (real id) (current_counts i))) [
        | inl same ↦ rw same ((h.0, h.1, h.2, omega (arith, h.3)))
        | inr other ↦
            rw (other, h.0.1 id)
              ((
                h.0,
                rw (h.0.2) (
                    rw (h.1) (
                      update_row-IsWithin id last (set_counts (real id) now) i d e within lt
                        above)),
                h.2,
                omega (arith, h.3),
              ))
      ]

  pub check_rows-IsAt :
      (last : ℕ) (d rows e : Dict ℕ Item) (seen fixes : ℕ) (p : Progress)
      → IsWithin last d
      → Above last (rows ++ e)
      → IsAt real now (d ++ (rows ++ e)) seen fixes p
      → IsAt real now
          ((d ++ map (fixed real now) rows) ++ e)
          seen
          (fixes + wrong real rows)
          (check_rows (map (λ r. (r, real r.0)) rows) p)
  unfolding check_rows
  check_rows-IsAt last d [] e seen fixes p within above h =
      (h.0, rw (append_empty d) (h.1), h.2, omega (arith, h.3))
  check_rows-IsAt last d ((id, i) ∷ rows) e seen fixes p within above h =
      let r = fixed real now (id, i) in
      let one = check_row-IsAt last d (rows ++ e) id i seen fixes p within above.0 above.1 h in
      let low = IsWithin-weaken last id d (omega (arith, above.0)) within in
      let within2 = IsWithin-append id d (r ∷ []) low (omega arith, tt) in
      let rest =
        check_rows-IsAt id (d ++ r ∷ []) rows e seen (fixes + wrong real ((id, i) ∷ []))
          (check_row (id, i) (real id) p) within2 above.1 (rw (append_assoc d r (rows ++ e)) one) in
      (
        rest.0,
        rest.1 ∙ ap (λ l. l ++ e) (append_assoc d r (map (fixed real now) rows)),
        rest.2,
        rest.3 ∙ omega (arith, wrong_cons real (id, i) rows),
      )
