-- ===== src/Qa/Runs/Escrow.antt =====
-- Points in escrow (app/modules/qa/service.py): what an open question has taken and not yet paid
-- or refunded, and the references under which the ledger knows these movements.
pub mod References
pub mod Conservation
use lkm_service.Points.Ledger.Total.{total}
use lkm_service.Prelude.Int.{ℤ, ◌+ℤ◌, pos}
use lkm_service.Prelude.Dict.{Dict, insert, lookup}
use lkm_service.Qa.{Question, Forum, is_open}
use lkm_service.Prelude.{
  ℕ, zero, suc, ◌+◌, ◌-◌, ◌*◌, ◌≤◌, ◌<◌, ◌≡◌, refl, sym, ap, ◌∙◌, subst, ◌≢◌, ◌↔◌, ◌⊎◌, inl, inr,
  Bool, true, false, not, ◌&&◌, ◌||◌, Option, none, some, List, [], ◌∷◌, ◌++◌, map, min, max,
  String, arith, if◌then◌else◌, ltb, leb, ◌==◌, nat_key, text_key, Bool-cases, Option-cases, All,
  any, all, keep, length, take, drop, is_some, contains,
}

abbrev pub escrow_of : Question → ℕ
escrow_of q = if is_open q.status then q.bounty_total - q.bounty_distributed else 0

-- A sum over the rows of a table.
unfoldable pub weigh : (Question → ℕ) → Dict ℕ Question → ℕ
weigh w [] = 0
weigh w ((_, q) ∷ d) = w q + weigh w d

abbrev pub held : Dict ℕ Question → ℕ
held d = weigh escrow_of d

-- All balances and all escrow.
abbrev pub wealth : Forum → ℤ
wealth f = total f.books.balances +ℤ pos (held f.questions)

abbrev pub weight_or_zero : (Question → ℕ) → Option Question → ℕ
weight_or_zero w none = 0
weight_or_zero w (some q) = w q

pub weigh-insert :
    (w : Question → ℕ) (id : ℕ) (q : Question) (d : Dict ℕ Question)
    → weigh w (insert id q d) + weight_or_zero w (lookup id d) ≡ weigh w d + w q
unfolding weigh insert lookup
weigh-insert w id q [] = omega arith
weigh-insert w id q ((j, p) ∷ d) = elim (Bool-cases (j == id)) [
  | inl f ↦ rw f (omega arith)
  | inr f ↦ rw f (omega (arith, weigh-insert w id q d))
]
