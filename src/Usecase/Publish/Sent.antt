-- ===== src/Usecase/Publish/Sent.antt =====
-- Only what the notifier accepted is marked as published.
use wagering_wallet_service.Base.{
  update_where, if◌then◌else◌, Bool-cases, Option-cases, Result-cases, ok, Instant, before, any,
  All, update_where-All, ℕ, suc, ◌+◌, String, ◌≡◌, sym, inl, inr, Bool, true, Option, none, some,
  List, [], ◌∷◌, arith,
}
use mathlib.Core.Path.{subst}
use wagering_wallet_service.Messaging.{OutboxEvent, Receipt, receipt, lease_valid, is_published}
use wagering_wallet_service.Store.{Session, Tx, execute as execute_on}
use wagering_wallet_service.Store.Outbox
use wagering_wallet_service.Store.Outbox.{
  has_id, is_current, is_among, leased, finish_in, chosen, claim_in,
}
use wagering_wallet_service.Store.Outbox.Leases.{claim_in-ok}
use wagering_wallet_service.Store.Statements.{execute-ok}
use wagering_wallet_service.Store.UnitOfWork.{Fate, Outcome, do_work}
use wagering_wallet_service.Store.UnitOfWork.Atomic.{Atomic, undone, done, unsure, do_work-Atomic}
use wagering_wallet_service.Usecase.Publish.{
  OutboxSettings, Turn, Publication, mark, reschedule, after_mark, after_send, deliver, deliver_all,
  claim, execute, accept, retry_at,
}

-- A published row is one of an event that was accepted.
abbrev pub Explained : List OutboxEvent → OutboxEvent → Type 0
Explained accepted e = is_published e ≡ true → any (has_id e.id) accepted ≡ true

abbrev pub Accounted : Publication → Type 0
Accounted p = All (Explained p.accepted) p.session.store.outbox

module _ {ℓ} {A : Type ℓ} (P : Session → Type 0) (body : Tx A) (s : Session) where
  Atomic-holds :
      (o : Outcome A)
      → Atomic body s o
      → P s
      → ((a : A) (s' : Session) → body s ≡ ok (a, s') → P s')
      → P o.session
  Atomic-holds _ (undone failure) before after = before
  Atomic-holds _ (done a s' h) before after = after a s' h
  Atomic-holds _ (unsure a s' h) before after = after a s' h

  -- What holds of a session and of what the body leaves holds after a unit of work, however it ends.
  pub do_work-holds :
      (retry_attempts : ℕ) (fates : ℕ → Fate)
      → P s
      → ((a : A) (s' : Session) → body s ≡ ok (a, s') → P s')
      → P (do_work retry_attempts fates body s).session
  do_work-holds retry_attempts fates =
      Atomic-holds (do_work retry_attempts fates body s)
        (do_work-Atomic retry_attempts fates body s)

-- More accepted events explain no less.
Explained-more :
    (accepted : List OutboxEvent) (pending : OutboxEvent) (rows : List OutboxEvent)
    → All (Explained accepted) rows
    → All (Explained (pending ∷ accepted)) rows
Explained-more accepted pending [] sound = tt
Explained-more accepted pending (e ∷ rows) (here, there) =
    (λ published. ground (arith, here published), Explained-more accepted pending rows there)

-- An update of the row of a receipt.
finish-All :
    (accepted : List OutboxEvent) (change : OutboxEvent → OutboxEvent) (r : Receipt)
    (clock : Instant) (s s' : Session) (b : Bool)
    → ((e : OutboxEvent)
        → is_current r clock e ≡ true
        → Explained accepted e
        → Explained accepted (change e))
    → All (Explained accepted) s.store.outbox
    → execute_on (finish_in change r clock) s ≡ ok (b, s')
    → All (Explained accepted) s'.store.outbox
unfolding finish_in
finish-All accepted change r clock s s' b changes sound h =
    subst (All (Explained accepted)) {x = update_where (is_current r clock) change s.store.outbox}
      {y = s'.store.outbox} (ground (arith, h))
      (update_where-All (Explained accepted) (is_current r clock) change s.store.outbox sound
        changes)

module _ (retry_attempts : ℕ) (settings : OutboxSettings) where
  mark-Accounted :
      (turn : Turn) (pending : OutboxEvent) (p : Publication)
      → Accounted p
      → Accounted (record (accept pending p) {
        session = (mark retry_attempts settings turn (receipt pending) p.session).session;
      })
  unfolding mark
  mark-Accounted turn pending p sound =
      let r = receipt pending in
      let more = Explained-more p.accepted pending p.session.store.outbox sound in
      do_work-holds (λ t. All (Explained (pending ∷ p.accepted)) t.store.outbox)
        (Outbox.mark_published r turn.now turn.database_clock) p.session retry_attempts turn.fates
        more
        (λ b s'.
          finish-All (pending ∷ p.accepted) (Outbox.published_row turn.now) r turn.database_clock
            p.session s' b (λ e current _ _. ground (arith, current)) more)

  reschedule-Accounted :
      (turn : Turn) (r : Receipt) (cause : String) (p : Publication)
      → Accounted p
      → Accounted (record p {
        session = (reschedule retry_attempts settings turn r cause p.session).session;
      })
  unfolding reschedule
  reschedule-Accounted turn r cause p sound =
      let next = retry_at settings turn.now r in
      do_work-holds (λ t. All (Explained p.accepted) t.store.outbox)
        (Outbox.mark_failed r cause next turn.database_clock) p.session retry_attempts turn.fates
        sound
        (λ b s'.
          finish-All p.accepted (Outbox.failed_row next (Outbox.truncate 1000 cause)) r
            turn.database_clock p.session s' b (λ e current explained. explained) sound)

  after_mark-Accounted :
      (marked : Outcome Bool) (p : Publication)
      → Accounted (record p { session = marked.session })
      → Accounted (after_mark retry_attempts settings marked p).1
  unfolding after_mark
  after_mark-Accounted marked p sound = elim (Result-cases marked.answer) [
    | inl (b, answered) ↦ elim (Bool-cases b) [
      | inl applied ↦ rw (answered, applied) sound
      | inr stale ↦ rw (answered, stale) sound
    ]
    | inr (e, failed) ↦ rw failed sound
  ]

  after_send-Accounted :
      (turn : Turn) (pending : OutboxEvent) (send_error : Option String) (p : Publication)
      → Accounted p
      → Accounted (after_send retry_attempts settings turn pending send_error p).1
  unfolding after_send
  after_send-Accounted turn pending none p sound =
      after_mark-Accounted (mark retry_attempts settings turn (receipt pending) p.session)
        (accept pending p) (mark-Accounted turn pending p sound)
  after_send-Accounted turn pending (some cause) p sound =
      reschedule-Accounted turn (receipt pending) cause p sound

  deliver-Accounted :
      (turn : Turn) (pending : OutboxEvent) (p : Publication)
      → Accounted p
      → Accounted (deliver retry_attempts settings turn pending p).1
  unfolding deliver
  deliver-Accounted turn pending p sound =
      elim (Bool-cases (lease_valid (receipt pending) turn.lease_clock)) [
        | inl valid ↦ rw valid (after_send-Accounted turn pending turn.send_error p sound)
        | inr expired ↦ rw expired sound
      ]

  deliver_all-Accounted :
      (turns : ℕ → Turn) (k : ℕ) (claimed : List OutboxEvent) (published : ℕ) (p : Publication)
      → Accounted p
      → Accounted (deliver_all retry_attempts settings turns k claimed published p).1
  unfolding deliver_all
  deliver_all-Accounted turns k [] published p sound = sound
  deliver_all-Accounted turns k (pending ∷ claimed) published p sound =
      let step = deliver retry_attempts settings (turns k) pending p in
      elim (Option-cases (turns k).interrupted) [
        | inl free ↦
            rw (deliver_all, free)
              (deliver_all-Accounted turns (suc k) claimed
                (if step.0 then suc published else published) step.1
                (deliver-Accounted (turns k) pending p sound))
        | inr (e, stopped) ↦ rw (deliver_all, stopped) sound
      ]

  claim-Accounted :
      (now : Instant) (fates : ℕ → Fate) (p : Publication)
      → Accounted p
      → Accounted
          (record p { session = (claim retry_attempts settings now fates p.session).session })
  unfolding claim
  claim-Accounted now fates p sound =
      let body = Outbox.claim settings.owner now settings.lease settings.batch_size in
      let rows = chosen now settings.batch_size p.session.store.outbox in
      do_work-holds (λ t. All (Explained p.accepted) t.store.outbox) body p.session retry_attempts
        fates sound
        (λ claimed s' h.
          subst (All (Explained p.accepted))
            (sym
              (claim_in-ok settings.owner now settings.lease settings.batch_size p.session.store
                (execute-ok (claim_in settings.owner now settings.lease settings.batch_size)
                  p.session h).0).1)
            (update_where-All (Explained p.accepted) (is_among rows)
              (leased settings.owner (now + settings.lease)) p.session.store.outbox sound
              (λ e _ explained. explained)))

  -- While every published row of the outbox is one of an event that the notifier accepted, a run of
  -- the publisher keeps it so, whatever the notifier, the clocks, the context and the database answer.
  pub execute-Accounted :
      (now : Instant) (fates : ℕ → Fate) (turns : ℕ → Turn) (p : Publication)
      → Accounted p
      → Accounted (execute retry_attempts settings now fates turns p).1
  unfolding execute
  execute-Accounted now fates turns p sound =
      let claimed = claim retry_attempts settings now fates p.session in
      let kept = claim-Accounted now fates p sound in
      elim (Result-cases claimed.answer) [
        | inl (pending, answered) ↦
            rw (execute, answered)
              (deliver_all-Accounted turns 0 pending 0 (record p { session = claimed.session })
                kept)
        | inr (e, failed) ↦ rw (execute, failed) kept
      ]
