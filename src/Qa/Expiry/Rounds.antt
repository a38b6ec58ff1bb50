-- ===== src/Qa/Expiry/Rounds.antt =====
-- What one round of the expiry task has done (app/modules/qa/tasks.py and service.py).
use lkm_service.Qa.Service.Expiring.{all_settled, next_settled}
use lkm_service.Qa.Runs.Escrow.{weigh, weigh-insert}
use lkm_service.Prelude.Keys.{HasUniqueKeys}
use lkm_service.Qa.Service.Expiring.{Settling, all_settled, next_settled}
use lkm_service.Qa.Service.{settled}
use lkm_service.Qa.{Question, Forum, is_open}
use lkm_service.Prelude.Dict.{lookup, Dict, lookup-insert_same, lookup-insert_other}
use lkm_service.Prelude.{
  ℕ, ◌+◌, ◌≡◌, refl, ap, ◌∙◌, inl, inr, Option, none, some, String, arith, if◌then◌else◌, ◌==◌,
  nat_key, text_key, Bool-cases, length, is_some, nat_eqb_iff,
}

abbrev pub openness : Question → ℕ
openness q = if is_open q.status then 1 else 0

openness-settled : (q : Question) → openness (settled q) ≡ 0
openness-settled q = elim (Bool-cases (is_some q.accepted_answer_id)) [
  | inl p ↦ rw p refl
  | inr p ↦ rw p refl
]

-- What became of a row.
abbrev pub settled_to : Option Question → Option Question → Option Question
settled_to none before = before
settled_to (some p) before = some (settled p)

module _ (uuid_text : ℕ → String) where
  -- Each row that is settled is one question fewer that is open.
  pub Settling-openness :
      {rows : Dict ℕ Question} {f g : Forum}
      → Settling uuid_text rows f g
      → weigh openness g.questions + length rows ≡ weigh openness f.questions
  Settling-openness (all_settled e) = rw e (omega arith)
  Settling-openness {f = f} (next_settled {id = id} {q = q} m row o s rest) =
      let less = weigh-insert openness id (settled q) f.questions in
      let one : openness q ≡ 1 = rw o refl in
      let step : weigh openness m.questions + 1 ≡ weigh openness f.questions =
        rw s.1 (omega (arith, rw row at less, one, openness-settled q)) in
      omega (arith, Settling-openness rest, step)

  pub Settling-lookup :
      {rows : Dict ℕ Question} {f g : Forum} (k : ℕ)
      → HasUniqueKeys rows
      → Settling uuid_text rows f g
      → lookup k g.questions ≡ settled_to (lookup k rows) (lookup k f.questions)
  unfolding lookup
  Settling-lookup k u (all_settled e) = rw e refl
  Settling-lookup {f = f} k u (next_settled {id = id} {q = q} {rows = rows} m row o s rest) =
      let ih = Settling-lookup k u.1 rest in
      elim (Bool-cases (id == k)) [
        | inl same ↦
            let e : id ≡ k = (nat_eqb_iff id k).0 same in
            let gone : lookup k rows ≡ none = rw (← e) u.0 in
            let there = lookup-insert_same id k (settled q) f.questions same in
            rw same (ih ∙ rw gone (rw s.1 there))
        | inr other ↦
            let there = lookup-insert_other id k (settled q) f.questions other in
            rw other (ih ∙ ap (settled_to (lookup k rows)) (rw s.1 there))
      ]
