-- ===== src/Qa/Runs/Escrow/References.antt =====
-- Which references of the ledger the questions have used (app/modules/qa/service.py).
use lkm_service.Prelude.Int.{pos, -ℤ◌, int_laws}
use lkm_service.Points.Ledger.Total.{Posts, spend-Posts, reward-Posts}
use lkm_service.Points.Ledger.{find_ref}
use lkm_service.Qa.Service.Outcome.{IsEscrow, IsPayment, with_accepted}
use lkm_service.Prelude.Dict.{lookup, lookup-insert_same, lookup-insert_other, insert}
use lkm_service.Qa.Service.Calls.{IsCreation, IsReply, new_answer}
use lkm_service.Qa.Service.{accept_ref, new_question, settled}
use lkm_service.Qa.{QuestionCreate, Forum, Answer, Question, is_open}
use lkm_service.Points.{Books}
use lkm_service.Prelude.{
  ◌-◌, arith, none, true, Bool-cases, refl, ◌*◌, is_some, suc, false, String, sym, ℕ, nat_key, ◌≡◌,
  zero, ◌∙◌, text_key, ◌==◌, inr, nat_eqb_iff, inl, some,
}

module _ (uuid_text : ℕ → String) where
  -- The ledger has no row of an escrow, a share or a refund that is still to come.
  pub record IsFresh (f : Forum) : Type 0 where
    pub escrows :
        (u id : ℕ)
        → lookup id f.questions ≡ none
        → find_ref u "qa_question" (uuid_text id) f.books.ledger ≡ none
    pub shares :
        (u id answer_id : ℕ)
        → ((a : Answer) → lookup answer_id f.answers ≡ some a → a.is_accepted ≡ false)
        → find_ref u "qa_accept" (accept_ref uuid_text id answer_id) f.books.ledger ≡ none
    pub refunds :
        (u id : ℕ)
        → ((q : Question) → lookup id f.questions ≡ some q → is_open q.status ≡ true)
        → find_ref u "qa_refund" (uuid_text id) f.books.ledger ≡ none

pub payment-Posts :
    (user n : ℕ) (ref_type ref_id : String) (s t : Books)
    → IsPayment user n ref_type ref_id s t
    → find_ref user ref_type ref_id s.ledger ≡ none
    → Posts (pos n) ref_type ref_id s t
payment-Posts user zero ref_type ref_id s t h unused =
    rw (h.nothing refl) (record { moved = grind int_laws; others = λ u r i ne. refl })
payment-Posts user (suc n) ref_type ref_id s t h unused =
    let (e, call) = h.payment (omega arith) in
    reward-Posts user (pos (suc n)) ref_type ref_id s ref_type false e t unused call

pub escrow-Posts :
    (user n : ℕ) (ref_id : String) (s t : Books)
    → IsEscrow user n ref_id s t
    → find_ref user "qa_question" ref_id s.ledger ≡ none
    → Posts (-ℤ◌ (pos n)) "qa_question" ref_id s t
escrow-Posts user zero ref_id s t h unused =
    rw (h.nothing refl) (record { moved = grind int_laws; others = λ u r i ne. refl })
escrow-Posts user (suc n) ref_id s t h unused =
    let (e, call) = h.payment (omega arith) in
    spend-Posts user (pos (suc n)) "qa_escrow" "qa_question" ref_id s e t unused call

pub settled_shut : (q : Question) → ¬ (is_open (settled q).status ≡ true)
settled_shut q h = elim (Bool-cases (is_some q.accepted_answer_id)) [
  | inl p ↦ cc (rw p at h)
  | inr p ↦ cc (rw p at h)
]

module _ (uuid_text : ℕ → String) where
  -- `str(uuid)` has 36 characters and tells ids apart, also behind another one and a colon.
  pub record IsTelling : Type 0 where
    pub by_id : (i j : ℕ) → uuid_text i ≡ uuid_text j → i ≡ j
    pub by_pair : (i j k l : ℕ) → accept_ref uuid_text i j ≡ accept_ref uuid_text k l → j ≡ l

  other_text : (i j : ℕ) → IsTelling → (i == j) ≡ false → (uuid_text i == uuid_text j) ≡ false
  other_text i j tells ne = elim (Bool-cases (uuid_text i == uuid_text j)) [
    | inl same ↦
        let e = tells.by_id i j ((text_key.same_iff (uuid_text i) (uuid_text j)).0 same) in
        absurd (cc (ne, (nat_eqb_iff i j).1 e))
    | inr other ↦ other
  ]

  other_pair :
      (i j k l : ℕ)
      → IsTelling
      → (j == l) ≡ false
      → (accept_ref uuid_text i j == accept_ref uuid_text k l) ≡ false
  other_pair i j k l tells ne =
      elim (Bool-cases (accept_ref uuid_text i j == accept_ref uuid_text k l)) [
        | inl same ↦
            let e =
              tells.by_pair i j k l (
                (text_key.same_iff (accept_ref uuid_text i j) (accept_ref uuid_text k l)).0 same) in
            absurd (cc (ne, (nat_eqb_iff j l).1 e))
        | inr other ↦ other
      ]

  module _ (tells : IsTelling) where
    pub Creation-IsFresh :
        (id author : ℕ) (info : QuestionCreate) (f g : Forum)
        → IsCreation uuid_text id author info f g
        → IsFresh uuid_text f
        → IsFresh uuid_text g
    Creation-IsFresh id author info f g c p =
        let row = new_question author info f.books.now in
        let total = info.bounty_people * info.bounty_per_person in
        let posts =
          escrow-Posts author total (uuid_text id) f.books c.books_after c.escrow
            (p.escrows author id c.unused) in
        rw c.forum_after (record {
          escrows = λ u k free. elim (Bool-cases (id == k)) [
            | inl same ↦ absurd (cc (free, lookup-insert_same id k row f.questions same))
            | inr other ↦
                posts.others u "qa_question" (uuid_text k) (other_text id k tells other)
                ∙ p.escrows u k (sym (lookup-insert_other id k row f.questions other) ∙ free)
          ];
          shares = λ u k answer_id open_.
              posts.others u "qa_accept" (accept_ref uuid_text k answer_id) refl
              ∙ p.shares u k answer_id open_;
          refunds = λ u k open_.
              posts.others u "qa_refund" (uuid_text k) refl
              ∙ p.refunds u k (λ q there. elim (Bool-cases (id == k)) [
                | inl same ↦
                    let e : id ≡ k = (nat_eqb_iff id k).0 same in
                    absurd (cc (c.unused, rw (← e) at there))
                | inr other ↦ open_ q (lookup-insert_other id k row f.questions other ∙ there)
              ]);
        })

    pub Reply-IsFresh :
        (answer_id id author : ℕ) (content : String) (f g : Forum)
        → IsReply answer_id id author content f g
        → IsFresh uuid_text f
        → IsFresh uuid_text g
    Reply-IsFresh answer_id id author content f g r p =
        let row = new_answer id author content in
        rw r.forum_after (record {
          escrows = p.escrows;
          shares = λ u k i open_. p.shares u k i (λ a there. elim (Bool-cases (answer_id == i)) [
            | inl same ↦
                let e : answer_id ≡ i = (nat_eqb_iff answer_id i).0 same in
                absurd (cc (r.unused, rw (← e) at there))
            | inr other ↦ open_ a (lookup-insert_other answer_id i row f.answers other ∙ there)
          ]);
          refunds = p.refunds;
        })

    pub Acceptance-IsFresh :
        (id answer_id : ℕ) (q : Question) (a : Answer) (f g : Forum)
        → lookup id f.questions ≡ some q
        → is_open q.status ≡ true
        → Posts
            (pos q.bounty_per_person)
            "qa_accept"
            (accept_ref uuid_text id answer_id)
            f.books
            g.books
        → g.questions ≡ insert id (with_accepted answer_id q) f.questions
        → g.answers ≡ insert answer_id (record a { is_accepted = true }) f.answers
        → IsFresh uuid_text f
        → IsFresh uuid_text g
    Acceptance-IsFresh id answer_id q a f g row o posts qs ans p = record {
      escrows = λ u k free.
          posts.others u "qa_question" (uuid_text k) refl
          ∙ p.escrows u k (elim (Bool-cases (id == k)) [
            | inl same ↦ absurd (
                cc (
                  rw qs at free,
                  lookup-insert_same id k (with_accepted answer_id q) f.questions same,
                ))
            | inr other ↦
                sym (lookup-insert_other id k (with_accepted answer_id q) f.questions other)
                ∙ (rw qs at free)
          ]);
      shares = λ u k i open_.
          let a' : Answer = record a { is_accepted = true } in
          elim (Bool-cases (answer_id == i)) [
            | inl same ↦
                let now_true =
                  open_ a' (rw ans (lookup-insert_same answer_id i a' f.answers same)) in
                absurd (cc now_true)
            | inr other ↦
                posts.others u "qa_accept" (accept_ref uuid_text k i)
                  (other_pair id answer_id k i tells other)
                ∙ p.shares u k i (λ b there.
                  open_ b (rw ans (lookup-insert_other answer_id i a' f.answers other ∙ there)))
          ];
      refunds = λ u k open_.
          posts.others u "qa_refund" (uuid_text k) refl
          ∙ p.refunds u k (λ r there. elim (Bool-cases (id == k)) [
            | inl same ↦
                let e : id ≡ k = (nat_eqb_iff id k).0 same in
                let it : some q ≡ some r = sym row ∙ rw e there in ground (arith, it, o)
            | inr other ↦ open_ r (
                rw qs
                  (lookup-insert_other id k (with_accepted answer_id q) f.questions other ∙ there))
          ]);
    }

    pub Settlement-IsFresh :
        (id : ℕ) (q : Question) (f g : Forum)
        → lookup id f.questions ≡ some q
        → Posts
            (pos (q.bounty_total - q.bounty_distributed))
            "qa_refund"
            (uuid_text id)
            f.books
            g.books
        → g.questions ≡ insert id (settled q) f.questions
        → g.answers ≡ f.answers
        → IsFresh uuid_text f
        → IsFresh uuid_text g
    Settlement-IsFresh id q f g row posts qs ans p = record {
      escrows = λ u k free.
          posts.others u "qa_question" (uuid_text k) refl
          ∙ p.escrows u k (elim (Bool-cases (id == k)) [
            | inl same ↦
                absurd (cc (rw qs at free, lookup-insert_same id k (settled q) f.questions same))
            | inr other ↦
                sym (lookup-insert_other id k (settled q) f.questions other) ∙ (rw qs at free)
          ]);
      shares = λ u k i open_.
          posts.others u "qa_accept" (accept_ref uuid_text k i) refl
          ∙ p.shares u k i (λ b there. open_ b (rw ans there));
      refunds = λ u k open_. elim (Bool-cases (id == k)) [
        | inl same ↦
            let shut =
              open_ (settled q) (rw qs (lookup-insert_same id k (settled q) f.questions same)) in
            absurd (settled_shut q shut)
        | inr other ↦
            posts.others u "qa_refund" (uuid_text k) (other_text id k tells other)
            ∙ p.refunds u k (λ r there.
              open_ r (rw qs (lookup-insert_other id k (settled q) f.questions other ∙ there)))
      ];
    }
