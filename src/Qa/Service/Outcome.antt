-- ===== src/Qa/Service/Outcome.antt =====
-- What a call that returns has done to the forum (app/modules/qa/service.py).

-- The books after `n` points were given to a user under a reference, or none if `n` is 0.
use lkm_service.Prelude.Exec.{bind-Returns, pure, modify}
use lkm_service.Prelude.Int.{pos}
use lkm_service.Points.Ledger.{spend, reward}
use lkm_service.Qa.{Forum, QaErr, points_error, Question, Answer}
use lkm_service.Points.{Books, PointsErr, LedgerEntry}
use lkm_service.Qa.Service.{
  hold_escrow, with_books, settle_question, refund_rest, put_question, settled, pay_share,
  accept_open, count_accepted, accept_ref, record_acceptance,
}
use lkm_service.Prelude.Exec.{Exec, Returns, ok, bind-Returns, Result, err}
use lkm_service.Prelude.{
  ℕ, ap, refl, ◌==◌, Bool-cases, inr, String, nat_key, ◌≡◌, text_key, inl, ◌<◌, arith, leb, some,
  ◌-◌, ◌+◌, ◌≢◌, false, ltb, nat_eqb_iff,
}

pub record IsPayment (user n : ℕ) (ref_type ref_id : String) (s t : Books) : Type 0 where
  pub nothing : n ≡ 0 → t ≡ s
  pub payment :
      0 < n → (e : LedgerEntry) × (reward user (pos n) ref_type ref_type ref_id false s ≡ (ok e, t))

pub record IsEscrow (user n : ℕ) (ref_id : String) (s t : Books) : Type 0 where
  pub nothing : n ≡ 0 → t ≡ s
  pub payment :
      0 < n
      → (e : LedgerEntry) × (spend user (pos n) "qa_escrow" "qa_question" ref_id s ≡ (ok e, t))

-- What a call of the points port that returns has done to the forum.
abbrev pub Called : {A : Type 0} → Exec PointsErr Books A → Forum → A → Forum → Type 0
Called m f a g = (b : Books) × (m f.books ≡ (ok a, b)) × (g ≡ record f { books = b })

pub with_books-Called :
    {A : Type 0} (m : Exec PointsErr Books A) (f : Forum) → Returns (Called m f) (with_books m f)
with_books-Called {A = A} m f = go (m f.books) refl
  where
    go :
        (p : Result PointsErr A × Books)
        → m f.books ≡ p
        → let q : Result QaErr A × Forum = elim p.0 [
          | ok a ↦ (ok a, record f { books = p.1 })
          | err e ↦ (err (points_error e), record f { books = p.1 })
        ] in
          Returns (Called m f) q
    go (ok a, b) h = (b, h, refl)
    go (err e, b) h = tt

abbrev pub raised : Question → Question
raised q = record q { bounty_distributed = q.bounty_distributed + q.bounty_per_person }

-- The row of the question after an answer was accepted.
abbrev pub with_accepted : ℕ → Question → Question
with_accepted answer_id q = record (raised q) { accepted_answer_id = some answer_id }

module _ (uuid_text : ℕ → String) where
  abbrev pub Held : ℕ → ℕ → ℕ → Forum → Unit {0} → Forum → Type 0
  Held id author total f _ g =
      (b : Books) × (g ≡ record f { books = b }) × IsEscrow author total (uuid_text id) f.books b

  pub hold_escrow-Held :
      (id author total : ℕ) (f : Forum)
      → Returns (Held id author total f) (hold_escrow uuid_text id author total f)
  unfolding hold_escrow
  hold_escrow-Held id author total f = elim (Bool-cases (ltb 0 total)) [
    | inl p ↦
        let m = spend author (pos total) "qa_escrow" "qa_question" (uuid_text id) in
        rw p (
          bind-Returns (Called m f) (Held id author total f) (with_books m) (λ _. pure tt) f
            (with_books-Called m f)
            (λ e g h.
              (h.0, h.2, record { nothing = λ z. absurd (ground arith); payment = λ _. (e, h.1) })))
    | inr p ↦
        rw p (f.books, refl, record { nothing = λ _. refl; payment = λ z. absurd (ground arith) })
  ]

  abbrev pub Refunded : ℕ → ℕ → ℕ → Forum → Unit {0} → Forum → Type 0
  Refunded id author refund f _ g =
      (b : Books) × (g ≡ record f { books = b })
      × IsPayment author refund "qa_refund" (uuid_text id) f.books b

  pub refund_rest-Refunded :
      (id author refund : ℕ) (f : Forum)
      → Returns (Refunded id author refund f) (refund_rest uuid_text id author refund f)
  unfolding refund_rest
  refund_rest-Refunded id author refund f = elim (Bool-cases (ltb 0 refund)) [
    | inl p ↦
        let m = reward author (pos refund) "qa_refund" "qa_refund" (uuid_text id) false in
        rw p (
          bind-Returns (Called m f) (Refunded id author refund f) (with_books m) (λ _. pure tt) f
            (with_books-Called m f)
            (λ e g h.
              (h.0, h.2, record { nothing = λ z. absurd (ground arith); payment = λ _. (e, h.1) })))
    | inr p ↦
        rw p (f.books, refl, record { nothing = λ _. refl; payment = λ z. absurd (ground arith) })
  ]

  -- A settled question, and its refund.
  abbrev pub Settled : ℕ → Question → Forum → Unit {0} → Forum → Type 0
  Settled id q f _ g =
      (b : Books) × (g ≡ put_question id (settled q) (record f { books = b }))
      × IsPayment q.author (q.bounty_total - q.bounty_distributed) "qa_refund" (uuid_text id)
          f.books b

  pub settle_question-Settled :
      (id : ℕ) (q : Question) (f : Forum)
      → Returns (Settled id q f) (settle_question uuid_text id q f)
  unfolding settle_question
  settle_question-Settled id q f =
      let rest = q.bounty_total - q.bounty_distributed in
      bind-Returns (Refunded id q.author rest f) (Settled id q f)
        (refund_rest uuid_text id q.author rest) (λ _. modify (put_question id (settled q))) f
        (refund_rest-Refunded id q.author rest f)
        (λ e g h. (h.0, ap (put_question id (settled q)) h.1, h.2))

  -- The share of one answer has been paid.
  pub record IsPaid (id : ℕ) (q : Question) (answer_id : ℕ) (a : Answer) (f : Forum)
      (paid : Question) (g : Forum) : Type 0 where
    pub books_after : Books
    pub forum_after : g ≡ record f { books = books_after }
    pub row_after : paid ≡ raised q
    pub payment :
        IsPayment a.author q.bounty_per_person "qa_accept"
          (accept_ref uuid_text id answer_id)
          f.books
          books_after

  no_share : (q : Question) → ltb 0 q.bounty_per_person ≡ false → q ≡ raised q
  no_share q p = let z : q.bounty_per_person ≡ 0 = ground arith in rw z (ground arith)

  pub pay_share-IsPaid :
      (id : ℕ) (q : Question) (answer_id : ℕ) (a : Answer) (f : Forum)
      → Returns (IsPaid id q answer_id a f) (pay_share uuid_text id q answer_id a f)
  unfolding pay_share
  pay_share-IsPaid id q answer_id a f = elim (Bool-cases (ltb 0 q.bounty_per_person)) [
    | inl p ↦
        let m =
          reward a.author (pos q.bounty_per_person) "qa_accept" "qa_accept"
            (accept_ref uuid_text id answer_id) false in
        rw p (
          bind-Returns (Called m f) (IsPaid id q answer_id a f) (with_books m)
            (λ _. pure (raised q)) f (with_books-Called m f)
            (λ e g h. record {
              books_after = h.0;
              forum_after = h.2;
              row_after = refl;
              payment = record { nothing = λ z. absurd (ground arith); payment = λ _. (e, h.1) };
            }))
    | inr p ↦ rw p (record {
      books_after = f.books;
      forum_after = refl;
      row_after = no_share q p;
      payment = record { nothing = λ _. refl; payment = λ z. absurd (ground arith) };
    })
  ]

  -- An answer has been accepted.
  pub record IsAccepted (id : ℕ) (q : Question) (answer_id : ℕ) (a : Answer) (f g : Forum)
      : Type 0 where
    pub books_after : Books
    pub payment :
        IsPayment a.author q.bounty_per_person "qa_accept"
          (accept_ref uuid_text id answer_id)
          f.books
          books_after
    pub by_other : a.author ≢ q.author
    pub room : count_accepted id f.answers < q.bounty_people
    pub forum_after :
        g ≡ record_acceptance uuid_text id answer_id a (raised q) (record f { books = books_after })

  pub accept_open-IsAccepted :
      (id : ℕ) (q : Question) (answer_id : ℕ) (a : Answer) (f : Forum)
      → Returns (λ _ g. IsAccepted id q answer_id a f g) (accept_open uuid_text id q answer_id a f)
  unfolding accept_open
  accept_open-IsAccepted id q answer_id a f = elim (Bool-cases (a.author == q.author)) [
    | inl p ↦ rw p tt
    | inr p ↦ elim (Bool-cases (leb q.bounty_people (count_accepted id f.answers))) [
      | inl r ↦ rw (p, r) tt
      | inr r ↦
          rw (p, r)
            (bind-Returns (IsPaid id q answer_id a f) (λ _ g. IsAccepted id q answer_id a f g)
              (pay_share uuid_text id q answer_id a)
              (λ paid. modify (record_acceptance uuid_text id answer_id a paid)) f
              (pay_share-IsPaid id q answer_id a f)
              (λ paid g h. record {
                books_after = h.books_after;
                payment = h.payment;
                by_other = λ same. absurd (cc ((nat_eqb_iff a.author q.author).1 same));
                room = ground arith;
                forum_after = rw (h.row_after, h.forum_after) refl;
              }))
    ]
  ]
