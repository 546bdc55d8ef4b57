-- ===== src/Usecase/Publish/Answer.antt =====
-- What the publisher's answers say of the notifier and of the outbox.
use mathlib.Core.Path.{subst}
use wagering_wallet_service.Base.{
  sym, Option-cases, ◌∷◌, none, Bool-cases, Result-cases, ok, any, update_where, ℕ, ◌≡◌, inl, inr,
  Bool, true, List, arith,
}
use wagering_wallet_service.Messaging.{receipt, lease_valid, OutboxEvent, Receipt}
use wagering_wallet_service.Store.{Session}
use wagering_wallet_service.Store.Outbox
use wagering_wallet_service.Store.Outbox.{
  has_id, is_current, is_among, leased, finish_in, chosen, claim_in,
}
use wagering_wallet_service.Store.UnitOfWork.{Outcome}
use wagering_wallet_service.Store.UnitOfWork.Atomic.{do_work-answer}
use wagering_wallet_service.Usecase.Publish.{
  accept, after_send, deliver, OutboxSettings, Turn, Publication, mark, after_mark,
}

-- The row of the receipt was current, and is written as published.
pub record Marked (turn : Turn) (r : Receipt) (before after : List OutboxEvent) : Type 0 where
  pub was_current : any (is_current r turn.database_clock) before ≡ true
  pub written :
      after ≡ update_where (is_current r turn.database_clock) (Outbox.published_row turn.now) before

module _ (retry_attempts : ℕ) (settings : OutboxSettings) where
  mark-Marked :
      (turn : Turn) (r : Receipt) (s : Session)
      → (mark retry_attempts settings turn r s).answer ≡ ok true
      → Marked turn r s.store.outbox (mark retry_attempts settings turn r s).session.store.outbox
  unfolding mark finish_in
  mark-Marked turn r s h =
      let body = Outbox.mark_published r turn.now turn.database_clock in
      let ran = do_work-answer retry_attempts turn.fates body s h in
      record { was_current = ground (arith, ran); written = ground (arith, ran) }

  after_mark-true :
      (marked : Outcome Bool) (p p' : Publication)
      → after_mark retry_attempts settings marked p ≡ (true, p')
      → (marked.answer ≡ ok true) × (p'.session ≡ marked.session) × (p'.accepted ≡ p.accepted)
  unfolding after_mark
  after_mark-true marked p p' h = elim (Result-cases marked.answer) [
    | inl (b, answered) ↦ elim (Bool-cases b) [
      | inl applied ↦ (
        ground (arith, answered, applied),
        ground (arith, h, answered, applied),
        ground (arith, h, answered, applied),
      )
      | inr stale ↦ absurd (ground (arith, h, answered, stale))
    ]
    | inr (e, failed) ↦ absurd (ground (arith, h, failed))
  ]

  -- An event counts as published only if its lease was valid, the notifier accepted it and then the
  -- database, at its own clock, found its claim current and committed the mark.
  pub deliver-Marked :
      (turn : Turn) (pending : OutboxEvent) (p p' : Publication)
      → deliver retry_attempts settings turn pending p ≡ (true, p')
      → (lease_valid (receipt pending) turn.lease_clock ≡ true)
        × (turn.send_error ≡ none)
        × (p'.accepted ≡ pending ∷ p.accepted)
        × Marked turn (receipt pending) p.session.store.outbox p'.session.store.outbox
  unfolding deliver after_send
  deliver-Marked turn pending p p' h =
      elim (Bool-cases (lease_valid (receipt pending) turn.lease_clock)) [
        | inr expired ↦ absurd (ground (arith, h, expired))
        | inl valid ↦ elim (Option-cases turn.send_error) [
          | inr (cause, refused) ↦ absurd (ground (arith, h, valid, refused))
          | inl sent ↦
              let r = receipt pending in
              let marked = mark retry_attempts settings turn r p.session in
              let finished : after_mark retry_attempts settings marked (accept pending p)
                  ≡ (true, p') =
                ground (arith, h, valid, sent) in
              let (answered, left, kept) = after_mark-true marked (accept pending p) p' finished in
              (
                valid,
                sent,
                kept,
                subst (λ (t : Session). Marked turn r p.session.store.outbox t.store.outbox)
                    (sym left) (mark-Marked turn r p.session answered),
              )
        ]
      ]
