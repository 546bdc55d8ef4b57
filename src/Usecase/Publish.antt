-- ===== src/Usecase/Publish.antt =====
-- The publication of the outbox: internal/application/usecase/publish_outbox.go. Logging and
-- failpoints are left out. What the notifier answers, the readings of the clocks and what the
-- database answers to each unit of work are arguments; the attempts of one unit of work read the
-- same instants.
pub mod Sent
pub mod Answer
mod Tests
use wagering_wallet_service.Base.{
  if◌then◌else◌, Failure, err, ok, Instant, Duration, ℤ, ℕ, suc, String, Bool, true, false, not,
  Option, none, some, List, [], ◌∷◌,
}
use wagering_wallet_service.Messaging.{OutboxEvent, Receipt, receipt, lease_valid}
use wagering_wallet_service.Store.{Session}
use wagering_wallet_service.Store.Outbox
use wagering_wallet_service.Store.UnitOfWork.{Fate, Outcome, do_work}
use wagering_wallet_service.Usecase.Backoff.{backoff}
use wagering_wallet_service.Usecase.Retry.{add_delay}

-- `OutboxSettings`
pub record OutboxSettings : Type 0 where
  pub owner : String
  pub lease : Duration
  pub batch_size : ℕ  -- int; a negative one is 0
  pub backoff_base : ℤ  -- time.Duration
  pub backoff_max : ℤ  -- time.Duration

-- The labels of `OutboxPublishAttempt`.
pub data PublishResult : Type 0 where
  publish_success publish_failure publish_stale : PublishResult

-- What the publisher meets while it delivers one event: the error of the context before it, the
-- reading of the clock for the lease, the error of `Send`, the reading and the database's own clock
-- for the unit of work that follows, and what the database answers to that.
pub record Turn : Type 0 where
  pub interrupted : Option Failure
  pub lease_clock : Instant
  pub send_error : Option String
  pub now : Instant
  pub database_clock : Instant
  pub fates : ℕ → Fate

-- The database, the events that the notifier accepted, the newest first, and the attempts counted.
pub record Publication : Type 0 where
  pub session : Session
  pub accepted : List OutboxEvent
  pub counted : List PublishResult

abbrev pub count : PublishResult → Publication → Publication
count label p = record p { counted = label ∷ p.counted }

abbrev pub accept : OutboxEvent → Publication → Publication
accept pending p = record p { accepted = pending ∷ p.accepted }

-- The delay of `reschedule`, added to the reading of the clock.
abbrev pub retry_at : OutboxSettings → Instant → Receipt → Instant
retry_at settings now r =
    add_delay now (backoff settings.backoff_base settings.backoff_max r.generation)

module _ (retry_attempts : ℕ) (settings : OutboxSettings) where
  -- `mark`
  unfoldable pub mark : Turn → Receipt → Session → Outcome Bool
  unfolding do_work
  mark turn r s =
      do_work retry_attempts turn.fates (Outbox.mark_published r turn.now turn.database_clock) s

  -- `reschedule`; its errors are only logged.
  unfoldable pub reschedule : Turn → Receipt → String → Session → Outcome Bool
  unfolding do_work backoff
  reschedule turn r cause s =
      do_work retry_attempts turn.fates
        (Outbox.mark_failed r cause (retry_at settings turn.now r) turn.database_clock) s

  -- What `deliver` does after `mark`.
  unfoldable pub after_mark : Outcome Bool → Publication → Bool × Publication
  after_mark marked p = elim marked.answer [
    | err failure ↦ (false, record p { session = marked.session })
    | ok true ↦ (true, count publish_success (record p { session = marked.session }))
    | ok false ↦ (false, count publish_stale (record p { session = marked.session }))
  ]

  -- What `deliver` does with the answer of `Send`.
  unfoldable pub after_send : Turn → OutboxEvent → Option String → Publication → Bool × Publication
  unfolding mark reschedule after_mark
  after_send turn pending none p =
      after_mark (mark turn (receipt pending) p.session) (accept pending p)
  after_send turn pending (some cause) p = (
    false,
    count publish_failure
        (record p { session = (reschedule turn (receipt pending) cause p.session).session }),
  )

  -- `deliver`
  unfoldable pub deliver : Turn → OutboxEvent → Publication → Bool × Publication
  unfolding after_send
  deliver turn pending p =
      if not (lease_valid (receipt pending) turn.lease_clock)
      then (false, count publish_stale p)
      else after_send turn pending turn.send_error p

  -- The loop of `Execute`: the error of the context, how many are published, and what is left behind.
  unfoldable pub deliver_all :
      (ℕ → Turn) → ℕ → List OutboxEvent → ℕ → Publication → (Option Failure × ℕ) × Publication
  unfolding deliver
  deliver_all turns k [] published p = ((none, published), p)
  deliver_all turns k (pending ∷ claimed) published p =
      let (delivered, next) = deliver (turns k) pending p in
      let rest =
        deliver_all turns (suc k) claimed (if delivered then suc published else published) next in
      elim (turns k).interrupted [ some e ↦ ((some e, published), p) | none ↦ rest ]

  -- `claim`
  unfoldable pub claim : Instant → (ℕ → Fate) → Session → Outcome (List OutboxEvent)
  unfolding do_work
  claim now fates s =
      do_work retry_attempts fates
        (Outbox.claim settings.owner now settings.lease settings.batch_size) s

  -- `Execute`
  unfoldable pub execute :
      Instant → (ℕ → Fate) → (ℕ → Turn) → Publication → (Option Failure × ℕ) × Publication
  unfolding claim deliver_all
  execute now fates turns p =
      let claimed = claim now fates p.session in
      elim claimed.answer [
        | err failure ↦ ((some failure, 0), record p { session = claimed.session })
        | ok pending ↦ deliver_all turns 0 pending 0 (record p { session = claimed.session })
      ]
