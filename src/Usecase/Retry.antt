-- ===== src/Usecase/Retry.antt =====
-- The retry of operations that wait for their reference:
-- internal/application/usecase/retry_pending_reference.go. Logging and metrics are left out; a
-- reading of the clock is an argument.
pub mod Keeps
pub mod Loop
use wagering_wallet_service.Base.{
  if◌then◌else◌, Result, no_pending_work, Uuid, Instant, ℤ, pos, pos_part, neg_part, ◌+ℤ◌, wrap64,
  ℕ, ◌+◌, ◌-◌, String, Bool, true, false, not, Option, none, some, List, [], ◌∷◌,
}
use wagering_wallet_service.Wallet.{Wallet}
use wagering_wallet_service.Wagering.Kind.{is_pending_reference}
use wagering_wallet_service.Wagering.Transaction
use wagering_wallet_service.Wagering.Transaction.{Transaction, mark_failed}
use wagering_wallet_service.Wagering.Decision.{Decision, Outcome, wait_reference, decide}
use wagering_wallet_service.Event.{Envelope}
use wagering_wallet_service.Store.{Tx, ◌>>=◌, ◌>>◌, return, fail, pure_result}
use wagering_wallet_service.Store.Wallets
use wagering_wallet_service.Store.Transactions
use wagering_wallet_service.Usecase.Backoff.{backoff}
use wagering_wallet_service.Usecase.Movement.{with_state}
use wagering_wallet_service.Usecase.Settlement.{apply_as, retried_reference}
use wagering_wallet_service.Usecase.Events.{append_settlement_events}

-- `ReferenceSettings`
pub record ReferenceSettings : Type 0 where
  pub backoff_base : ℤ  -- time.Duration
  pub backoff_max : ℤ  -- time.Duration
  pub batch_size : ℕ  -- int; a negative one is 0

-- `Time.Add`
abbrev pub add_delay : Instant → ℤ → Instant
add_delay now delay = (now + pos_part delay) - neg_part delay

abbrev pub next_attempt : ReferenceSettings → Instant → Transaction → Instant
next_attempt settings now operation = add_delay now (
    backoff settings.backoff_base settings.backoff_max
      (wrap64 (operation.reference_attempts +ℤ pos 1)))

-- `reschedule`
unfoldable pub reschedule : ReferenceSettings → Instant → Transaction → Tx (Unit {0})
unfolding Transaction.reschedule backoff
reschedule settings now operation = do
  (_, waiting) ←
      pure_result
        (with_state (Transaction.reschedule (next_attempt settings now operation) now operation))
  Transactions.update waiting

module _ (uuid_text : Uuid → String) (marshal : Envelope → Result (List ℕ)) (ids : ℕ → Uuid)
    (settings : ReferenceSettings) where
  -- `settle`
  unfoldable pub settle : Instant → Decision → Wallet → Transaction → Tx (Unit {0})
  unfolding apply_as append_settlement_events
  settle now decision account operation = do
    settled ← apply_as ids decision.outcome now decision account operation
    Transactions.update settled.operation
    append_settlement_events uuid_text marshal ids now settled.operation settled.entry
        settled.account.balance
    awakened ←
        Transactions.wake_up_waiting_for operation.provider_id operation.external_transaction_id now
    return tt

  unfoldable pub settle_or_wait :
      Outcome → Instant → Decision → Wallet → Transaction → Tx (Unit {0})
  unfolding settle reschedule
  settle_or_wait wait_reference now decision account operation = reschedule settings now operation
  settle_or_wait _ now decision account operation = settle now decision account operation

  -- The body of `attempt` for the operation that it claimed.
  unfoldable pub retry_operation : Instant → Transaction → Tx Uuid
  unfolding settle_or_wait retried_reference decide
  retry_operation now operation = do
    account ← Wallets.find_for_update operation.wallet_id
    reference ← retried_reference operation
    decision ← pure_result (decide (some account) (some operation) reference now)
    settle_or_wait decision.outcome now decision account operation
    return operation.id

  abbrev pub retry_first : Instant → List Transaction → Tx Uuid
  retry_first now [] = fail no_pending_work
  retry_first now (operation ∷ _) = retry_operation now operation

  -- The body of `attempt`; it answers `claimedID`.
  unfoldable pub attempt : Instant → Tx Uuid
  unfolding retry_operation
  attempt now = do claimed ← Transactions.claim_due_pending now 1; retry_first now claimed

-- What the body of `giveUp` does with the operation that it finds.
unfoldable pub give_up_on : Instant → Option Transaction → Tx Bool
unfolding mark_failed
give_up_on now none = return false
give_up_on now (some operation) =
    if not (is_pending_reference operation.status) then return false else do
      (_, failed) ← pure_result (with_state (mark_failed now operation))
      Transactions.update failed
      return true

-- The body of `giveUp`; it answers `failed`.
unfoldable pub give_up : Uuid → Instant → Tx Bool
unfolding give_up_on
give_up transaction_id now = do
  found ← Transactions.find_by_id_for_update transaction_id
  give_up_on now found
