-- ===== src/Usecase/Process.antt =====
-- The processing of one operation: internal/application/usecase/process_wager_transaction.go, the
-- body of its unit of work. Logging and metrics are left out; each reading of the clock is an
-- argument, and so are the texts and the JSON of identifiers and events.
pub mod Keeps
pub mod Replay
pub mod Execute
use wagering_wallet_service.Base.{
  if◌then◌else◌, MessagingError, RepositoryError, Result, of_messaging, of_repository,
  idempotency_conflict, external_id_conflict, err, ok, Uuid, Instant, Duration, ℕ, String, Bool,
  true, false, not, Option, none, some, List, str_eq,
}
use wagering_wallet_service.Wallet.{Wallet}
use wagering_wallet_service.Wagering.Kind.{Status, rejected, pending_reference, is_terminal}
use wagering_wallet_service.Wagering.Transaction.{Transaction, new_external}
use wagering_wallet_service.Wagering.Decision.{decide}
use wagering_wallet_service.Event.{Envelope}
use wagering_wallet_service.Messaging.{
  InboxMessage, InboxOutcome, new_inbox_message, is_completed, same_content,
}
use wagering_wallet_service.Store.{Tx, ◌>>=◌, ◌>>◌, return, fail, pure_result, new_id}
use wagering_wallet_service.Store.Wallets
use wagering_wallet_service.Store.Transactions
use wagering_wallet_service.Store.Inbox
use wagering_wallet_service.Usecase.Input.{
  ProcessWagerInput, ProcessWagerResult, from_queue, wager_command, wager_result,
}
use wagering_wallet_service.Usecase.Settlement.{Settled, settle_as, resolve_reference}
use wagering_wallet_service.Usecase.Events.{append_settlement_events}

-- `ConsumerName`
abbrev pub consumer_name : String
consumer_name = "wager-transactions-consumer"

-- `ProcessSettings`
pub record ProcessSettings : Type 0 where
  pub reference_backoff : Duration
  pub reference_ttl : Duration

-- The result for a message that was handled before.
abbrev pub handled_before : InboxMessage → Option Transaction → Result ProcessWagerResult
handled_before existing none = err (of_repository RepositoryError.transient)
handled_before existing (some settled) =
    ok (record (wager_result settled true) { inbox_outcome = existing.outcome })

-- What `registerInbox` does with the message that is there already.
unfoldable pub known_message : String → Option InboxMessage → Tx (Option ProcessWagerResult)
known_message raw_body_hash none = fail (of_repository RepositoryError.transient)
known_message raw_body_hash (some existing) =
    if not (same_content existing raw_body_hash)
    then fail (of_messaging MessagingError.payload_mismatch)
    else if not (is_completed existing)
    then fail (of_repository RepositoryError.transient)
    else do
      settled ← Transactions.find_by_id existing.transaction_id
      result ← pure_result (handled_before existing settled)
      return (some result)

-- The end of `registerInbox`: nothing for a new message.
unfoldable pub look_up_message : ProcessWagerInput → Bool → Tx (Option ProcessWagerResult)
unfolding known_message
look_up_message input true = return none
look_up_message input false = do
  existing ← Inbox.find_message consumer_name input.message_id
  known_message input.raw_body_hash existing

-- `registerInbox`; a result says that the message is handled.
unfoldable pub register_inbox : ProcessWagerInput → Instant → Tx (Option ProcessWagerResult)
unfolding look_up_message
register_inbox input received_at = do
  new ←
      pure_result (new_inbox_message consumer_name input.message_id input.raw_body_hash received_at)
  inserted ← Inbox.insert new
  look_up_message input inserted

-- `registerInbox` for what came from a queue.
unfoldable pub register_when_queued : ProcessWagerInput → Instant → Tx (Option ProcessWagerResult)
unfolding register_inbox
register_when_queued input received_at =
    if from_queue input then register_inbox input received_at else return none

-- The outcome that `completeInbox` writes.
abbrev pub outcome_of : Status → InboxOutcome
outcome_of rejected = InboxOutcome.rejected
outcome_of pending_reference = InboxOutcome.pending_reference
outcome_of _ = InboxOutcome.processed

abbrev pub inbox_outcome_for : ProcessWagerResult → InboxOutcome
inbox_outcome_for result =
    if result.idempotent_replay then InboxOutcome.replay else outcome_of result.status

-- `completeInbox` for what came from a queue.
unfoldable pub complete_inbox : ProcessWagerInput → ProcessWagerResult → Instant → Tx (Unit {0})
complete_inbox input result now =
    if from_queue input
    then Inbox.complete consumer_name input.message_id (inbox_outcome_for result)
        result.transaction_id now
    else return tt

-- `replay`, with the operation that has the idempotency key.
unfoldable pub replay_with :
    ProcessWagerInput → String → Instant → Option Transaction → Tx ProcessWagerResult
unfolding complete_inbox
replay_with input payload_hash now none = do
  reused ← Transactions.find_by_external_id input.provider_id input.external_transaction_id
  fail (elim reused [
    | none ↦ of_repository RepositoryError.transient
    | some other ↦ external_id_conflict other.id
  ])
replay_with input payload_hash now (some existing) =
    if not (str_eq existing.payload_hash payload_hash)
    then fail (idempotency_conflict existing.id)
    else do
      complete_inbox input (wager_result existing true) now
      return (wager_result existing true)

-- `replay`
unfoldable pub replay : ProcessWagerInput → String → Instant → Tx ProcessWagerResult
unfolding replay_with
replay input payload_hash now = do
  existing ← Transactions.find_by_idempotency_key input.provider_id input.idempotency_key
  replay_with input payload_hash now existing

-- `wakeUpWaiting` for an operation that is settled for good.
unfoldable pub wake_up_waiting : Transaction → Instant → Tx (Unit {0})
wake_up_waiting operation now = if not (is_terminal operation.status) then return tt else do
  awakened ←
      Transactions.wake_up_waiting_for operation.provider_id operation.external_transaction_id now
  return tt

module _ (uuid_text : Uuid → String) (marshal : Envelope → Result (List ℕ)) (ids : ℕ → Uuid)
    (settings : ProcessSettings) where
  -- `settle`, after the decision on the wallet that is locked.
  unfoldable pub settle_locked : Instant → Wallet → Transaction → Tx Settled
  unfolding resolve_reference decide settle_as
  settle_locked now account operation = do
    reference ← resolve_reference operation
    decision ← pure_result (decide (some account) (some operation) reference now)
    settle_as ids decision.outcome settings.reference_backoff settings.reference_ttl now decision
        account operation

  -- What is written after `settle`.
  unfoldable pub record_settlement : ProcessWagerInput → Instant → Settled → Tx ProcessWagerResult
  unfolding append_settlement_events wake_up_waiting complete_inbox
  record_settlement input now settled = do
    Transactions.update settled.operation
    append_settlement_events uuid_text marshal ids now settled.operation settled.entry
        settled.account.balance
    wake_up_waiting settled.operation now
    complete_inbox input (wager_result settled.operation false) now
    return (wager_result settled.operation false)

  -- What `run` does with the operation: a new one is settled, another is a replay.
  unfoldable pub settle_inserted :
      ProcessWagerInput → String → Instant → Transaction → Bool → Tx ProcessWagerResult
  unfolding settle_locked record_settlement replay
  settle_inserted input payload_hash now operation false = replay input payload_hash now
  settle_inserted input payload_hash now operation true = do
    account ← Wallets.find_for_update input.wallet_id
    settled ← settle_locked now account operation
    record_settlement input now settled

  unfoldable pub process_unhandled : ProcessWagerInput → String → Instant → Tx ProcessWagerResult
  unfolding settle_inserted
  process_unhandled input payload_hash now = do
    key ← new_id ids
    operation ← pure_result (new_external (wager_command input payload_hash) key now)
    inserted ← Transactions.insert operation
    settle_inserted input payload_hash now operation inserted

  abbrev pub unless_handled :
      ProcessWagerInput → String → Instant → Option ProcessWagerResult → Tx ProcessWagerResult
  unless_handled input payload_hash now (some result) = return result
  unless_handled input payload_hash now none = process_unhandled input payload_hash now

  -- `run`
  unfoldable pub run : ProcessWagerInput → String → Instant → Instant → Tx ProcessWagerResult
  unfolding register_when_queued process_unhandled
  run input payload_hash received_at now = do
    handled ← register_when_queued input received_at
    unless_handled input payload_hash now handled
