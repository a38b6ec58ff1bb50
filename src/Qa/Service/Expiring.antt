-- ===== src/Qa/Service/Expiring.antt =====
-- What settling the questions that are due has done (app/modules/qa/service.py).
use lkm_service.Prelude.Exec.{◌>>◌}
use lkm_service.Prelude.Exec.{bind-Returns, weaken-Returns, pure}
use lkm_service.Prelude.Keys.{HasUniqueKeys, lookup-take, take-HasUniqueKeys}
use lkm_service.Qa.Service.Due.{
  ordered-HasUniqueKeys, due_rows-HasUniqueKeys, due_rows_sound, lookup-ordered,
}
use lkm_service.Qa.Service.Outcome.{Settled, settle_question-Settled}
use lkm_service.Prelude.Exec.{Returns, bind-Returns, weaken-Returns, ◌>>◌, pure}
use lkm_service.Prelude.Keys.{HasUniqueKeys, take-HasUniqueKeys, lookup-take}
use lkm_service.Qa.{Forum, Question, is_open}
use lkm_service.Qa.Service.{
  expire_due_questions, settle_all, expired_for_update, bump_qa, due_rows, settled, ordered,
  settle_question, bump_if,
}
use lkm_service.Prelude.Dict.{Dict, lookup, lookup-insert}
use lkm_service.Prelude.{
  ℕ, ◌≡◌, refl, sym, ◌∙◌, inl, inr, true, some, [], ◌∷◌, String, arith, if◌then◌else◌, ltb, ◌==◌,
  nat_key, text_key, Bool-cases, length, nat_eqb_iff, eqb_self,
}

-- The rows to settle stand in the table and are open.
abbrev pub ArePresent : Dict ℕ Question → Forum → Type 0
ArePresent rows f =
    (k : ℕ) (q : Question)
    → lookup k rows ≡ some q
    → (lookup k f.questions ≡ some q) × (is_open q.status ≡ true)

pub data Settling (uuid_text : ℕ → String) : Dict ℕ Question → Forum → Forum → Type 0 where
  all_settled : {f g : Forum} → g ≡ f → Settling uuid_text [] f g
  next_settled :
      {f g : Forum} {id : ℕ} {q : Question} {rows : Dict ℕ Question} (m : Forum)
      → lookup id f.questions ≡ some q
      → is_open q.status ≡ true
      → Settled uuid_text id q f tt m
      → Settling uuid_text rows m g
      → Settling uuid_text ((id, q) ∷ rows) f g

module _ (uuid_text : ℕ → String) where
  Settled-ArePresent :
      (id : ℕ) (q : Question) (rows : Dict ℕ Question) (f m : Forum)
      → HasUniqueKeys ((id, q) ∷ rows)
      → ArePresent ((id, q) ∷ rows) f
      → Settled uuid_text id q f tt m
      → ArePresent rows m
  unfolding lookup
  Settled-ArePresent id q rows f m u present s k p h = elim (Bool-cases (id == k)) [
    | inl same ↦ let e : id ≡ k = (nat_eqb_iff id k).0 same in absurd (cc (u.0, rw (← e) at h))
    | inr other ↦
        let (there, o) = present k p (rw other h) in
        (rw s.1 (lookup-insert id k (settled q) f.questions ∙ rw other there), o)
  ]

  pub settle_all-Settling :
      (rows : Dict ℕ Question) (f : Forum)
      → HasUniqueKeys rows
      → ArePresent rows f
      → Returns (λ _ g. Settling uuid_text rows f g) (settle_all uuid_text rows f)
  unfolding settle_all lookup
  settle_all-Settling [] f u present = all_settled refl
  settle_all-Settling ((id, q) ∷ rows) f u present =
      let (there, o) = present id q (rw (eqb_self id) refl) in
      bind-Returns (Settled uuid_text id q f) (λ _ g. Settling uuid_text ((id, q) ∷ rows) f g)
        (settle_question uuid_text id q) (λ _. settle_all uuid_text rows) f
        (settle_question-Settled uuid_text id q f)
        (λ _ m s.
          weaken-Returns (λ _ g. Settling uuid_text rows m g)
            (λ _ g. Settling uuid_text ((id, q) ∷ rows) f g) (settle_all uuid_text rows m)
            (λ _ g h. next_settled m there o s h)
            (settle_all-Settling rows m u.1 (Settled-ArePresent id q rows f m u present s)))

  -- A round of expiry.
  pub record IsExpiry (limit : ℕ) (f : Forum) (n : ℕ) (g : Forum) : Type 0 where
    pub count : n ≡ length (expired_for_update f.books.now limit f.questions)
    pub after : Forum
    pub settling : Settling uuid_text (expired_for_update f.books.now limit f.questions) f after
    pub forum_after : g ≡ (if ltb 0 n then bump_qa after else after)

  pub due-ArePresent :
      (limit : ℕ) (f : Forum)
      → HasUniqueKeys f.questions
      → ArePresent (expired_for_update f.books.now limit f.questions) f
  due-ArePresent limit f u k q h =
      let rows = due_rows f.books.now f.questions in
      let taken : lookup k (ordered rows) ≡ some q = lookup-take limit k q (ordered rows) h in
      let (there, due) =
        due_rows_sound f.books.now k q f.questions u (
          sym (lookup-ordered k rows (due_rows-HasUniqueKeys f.books.now f.questions u)) ∙ taken) in
      (there, ground (arith, due))

  pub expire_due_questions-IsExpiry :
      (limit : ℕ) (f : Forum)
      → HasUniqueKeys f.questions
      → Returns (IsExpiry limit f) (expire_due_questions uuid_text limit f)
  unfolding expire_due_questions
  expire_due_questions-IsExpiry limit f u =
      let now = f.books.now in
      let rows = expired_for_update now limit f.questions in
      let unique = take-HasUniqueKeys limit (ordered (due_rows now f.questions)) (
        ordered-HasUniqueKeys (due_rows now f.questions)
          (due_rows-HasUniqueKeys now f.questions u)) in
      bind-Returns (λ _ g. Settling uuid_text rows f g) (IsExpiry limit f)
        (settle_all uuid_text rows) (λ _. bump_if (ltb 0 (length rows)) >> pure (length rows)) f
        (settle_all-Settling rows f unique (due-ArePresent limit f u))
        (λ _ m h. record { count = refl; after = m; settling = h; forum_after = refl })
