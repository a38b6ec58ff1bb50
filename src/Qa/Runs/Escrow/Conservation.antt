-- ===== src/Qa/Runs/Escrow/Conservation.antt =====
-- Points are conserved by the questions (app/modules/qa/service.py).
use lkm_service.Points.Ledger.Total.{Posts}
use lkm_service.Points.{Books}
use lkm_service.Qa.Runs.Bounty.{
  IsFunded, Creation-IsFunded, IsPaidFor, Reply-IsFunded, IsPaidFor-le, next_share, IsFunded-IsKept,
  Settled-IsFunded,
}
use lkm_service.Prelude.Keys.{HasUniqueKeys}
use lkm_service.Prelude.Dict.{lookup, insert}
use lkm_service.Qa.Service.{settled, count_accepted, new_question, put_question, accept_ref}
use lkm_service.Qa.Service.Outcome.{with_accepted, IsAccepted}
use lkm_service.Qa.Service.Calls.{IsCreation}
use lkm_service.Prelude.Int.{ℤ, pos, int_laws}
use lkm_service.Qa.Runs.Escrow.{escrow_of, wealth, weigh-insert, held}
use lkm_service.Qa.Runs.{Op, IsKept, run_all, run_all-keeps}
use lkm_service.Qa.{Question, Answer, Forum, is_open, QuestionCreate}
use lkm_service.Qa.Runs.Escrow.References.{
  IsTelling, IsFresh, Creation-IsFresh, escrow-Posts, Reply-IsFresh, payment-Posts,
  Acceptance-IsFresh, Settlement-IsFresh,
}
use lkm_service.Prelude.{
  ℕ, ◌+◌, ◌-◌, ◌*◌, ◌≤◌, ◌≡◌, refl, sym, ◌∙◌, inl, inr, true, some, List, String, arith, nat_key,
  text_key, Bool-cases, is_some,
}

escrow_of-settled : (q : Question) → escrow_of (settled q) ≡ 0
escrow_of-settled q = elim (Bool-cases (is_some q.accepted_answer_id)) [
  | inl p ↦ rw p refl
  | inr p ↦ rw p refl
]

module _ (uuid_text : ℕ → String) (tells : IsTelling uuid_text) where
  record IsAccounted (w : ℤ) (f : Forum) : Type 0 where
    funded : IsFunded f
    fresh : IsFresh uuid_text f
    adds_up : wealth f ≡ w

  creation_wealth :
      (id author : ℕ) (info : QuestionCreate) (f g : Forum)
      → IsCreation uuid_text id author info f g
      → IsFresh uuid_text f
      → wealth g ≡ wealth f
  creation_wealth id author info f g c p =
      let n = info.bounty_people * info.bounty_per_person in
      let row = new_question author info f.books.now in
      let posts =
        escrow-Posts author n (uuid_text id) f.books c.books_after c.escrow
          (p.escrows author id c.unused) in
      let more = weigh-insert escrow_of id row f.questions in
      let total_more : held (insert id row f.questions) ≡ held f.questions + n =
        omega (arith, rw c.unused at more) in
      rw c.forum_after (rw (posts.moved, total_more) (grind int_laws))

  share_moves :
      (answer_id : ℕ) (q : Question)
      → is_open q.status ≡ true
      → q.bounty_distributed + q.bounty_per_person ≤ q.bounty_total
      → escrow_of (with_accepted answer_id q) + q.bounty_per_person ≡ escrow_of q
  share_moves answer_id q o le = rw o (omega (arith, le))

  acceptance_wealth :
      (id answer_id : ℕ) (q : Question) (a : Answer) (f g : Forum)
      → lookup id f.questions ≡ some q
      → is_open q.status ≡ true
      → IsPaidFor (count_accepted id f.answers) q
      → (h : IsAccepted uuid_text id q answer_id a f g)
      → Posts
          (pos q.bounty_per_person)
          "qa_accept"
          (accept_ref uuid_text id answer_id)
          f.books
          h.books_after
      → wealth g ≡ wealth f
  acceptance_wealth id answer_id q a f g row o paid h posts =
      let r = with_accepted answer_id q in
      let room =
        IsPaidFor-le (count_accepted id f.answers + 1) r
          (next_share (count_accepted id f.answers) q answer_id paid h.room) in
      let less = weigh-insert escrow_of id r f.questions in
      let share = share_moves answer_id q o room in
      let total_less : held (insert id r f.questions) + q.bounty_per_person ≡ held f.questions =
        omega (arith, rw row at less, share) in
      rw h.forum_after (rw posts.moved (grind (int_laws, total_less)))

  settlement_wealth :
      (id : ℕ) (q : Question) (f : Forum) (b : Books)
      → lookup id f.questions ≡ some q
      → is_open q.status ≡ true
      → Posts (pos (q.bounty_total - q.bounty_distributed)) "qa_refund" (uuid_text id) f.books b
      → wealth (put_question id (settled q) (record f { books = b })) ≡ wealth f
  settlement_wealth id q f b row o posts =
      let less = weigh-insert escrow_of id (settled q) f.questions in
      let gone : escrow_of (settled q) ≡ 0 = escrow_of-settled q in
      let before : escrow_of q ≡ q.bounty_total - q.bounty_distributed = rw o refl in
      let total_less : held (insert id (settled q) f.questions)
            + (q.bounty_total - q.bounty_distributed)
          ≡ held f.questions =
        omega (arith, rw row at less, gone, before) in
      rw posts.moved (grind (int_laws, total_less))

  IsAccounted-IsKept : (w : ℤ) → IsKept uuid_text (IsAccounted w)
  IsAccounted-IsKept w = record {
    by_creation = λ id author info f g c p. record {
      funded = Creation-IsFunded uuid_text id author info f g c p.funded;
      fresh = Creation-IsFresh uuid_text tells id author info f g c p.fresh;
      adds_up = creation_wealth id author info f g c p.fresh ∙ p.adds_up;
    };
    by_reply = λ answer_id id author content f g r p. record {
      funded = Reply-IsFunded uuid_text answer_id id author content f g r p.funded;
      fresh = Reply-IsFresh uuid_text tells answer_id id author content f g r p.fresh;
      adds_up = rw r.forum_after p.adds_up;
    };
    by_acceptance = λ id answer_id asker q a f g row o there mine was h p.
        let unused =
          p.fresh.shares a.author id answer_id
            (λ b found. let it : some a ≡ some b = sym there ∙ found in ground (arith, it, was)) in
        let posts =
          payment-Posts a.author q.bounty_per_person "qa_accept" (accept_ref uuid_text id answer_id)
            f.books h.books_after h.payment unused in
        record {
          funded =
              (IsFunded-IsKept uuid_text).by_acceptance id answer_id asker q a f g row o there mine
                was h p.funded;
          fresh =
              Acceptance-IsFresh uuid_text tells id answer_id q a f g row o (rw h.forum_after posts)
                (rw h.forum_after refl) (rw h.forum_after refl) p.fresh;
          adds_up =
              acceptance_wealth id answer_id q a f g row o (p.funded.each id q row) h posts
              ∙ p.adds_up;
        };
    by_settlement = λ id q f g row o s p.
        let unused =
          p.fresh.refunds q.author id
            (λ r found. let it : some q ≡ some r = sym row ∙ found in ground (arith, it, o)) in
        let posts =
          payment-Posts q.author (q.bounty_total - q.bounty_distributed) "qa_refund" (uuid_text id)
            f.books s.0 s.2 unused in
        record {
          funded = Settled-IsFunded uuid_text id q f g row s p.funded;
          fresh =
              Settlement-IsFresh uuid_text tells id q f g row (rw s.1 posts) (rw s.1 refl)
                (rw s.1 refl) p.fresh;
          adds_up = rw s.1 (settlement_wealth id q f s.0 row o posts ∙ p.adds_up);
        };
    by_bump = λ f p. record {
      funded = (IsFunded-IsKept uuid_text).by_bump f p.funded;
      fresh = record {
        escrows = p.fresh.escrows;
        shares = p.fresh.shares;
        refunds = p.fresh.refunds;
      };
      adds_up = p.adds_up;
    };
    by_time = λ t f p. record {
      funded = (IsFunded-IsKept uuid_text).by_time t f p.funded;
      fresh = record {
        escrows = p.fresh.escrows;
        shares = p.fresh.shares;
        refunds = p.fresh.refunds;
      };
      adds_up = p.adds_up;
    };
  }

-- No sequence of requests and expiry rounds creates or destroys points: the balances of all users
-- and the escrow of all open questions have the same sum as before, however each call ends, if
-- bounties are funded, the ledger has no row of a movement that is still to come, and the texts
-- of ids tell these movements apart.
pub wealth-run_all :
    (uuid_text : ℕ → String) (ops : List Op) (f : Forum)
    → IsTelling uuid_text
    → HasUniqueKeys f.questions
    → IsFunded f
    → IsFresh uuid_text f
    → wealth (run_all uuid_text ops f) ≡ wealth f
wealth-run_all uuid_text ops f tells u funded fresh =
    let kept =
      run_all-keeps uuid_text (IsAccounted-IsKept uuid_text tells (wealth f)) ops f u
        (record { funded = funded; fresh = fresh; adds_up = refl }) in
    kept.adds_up
