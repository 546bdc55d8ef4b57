-- ===== src/Usecase/Settlement.antt =====
-- The settlement on the database: internal/application/usecase/financial_movement.go, and the
-- functions `resolveReference`, `settle` and `apply` of process_wager_transaction.go and
-- retry_pending_reference.go. An object that a call mutates is answered with its result.
pub mod Keeps
use wagering_wallet_service.Base.{
  if◌then◌else◌, Result, err, ok, Uuid, Instant, Duration, is_empty, ℕ, ◌+◌, Bool, true, false,
  Option, none, some,
}
use wagering_wallet_service.Wallet.{Wallet, LedgerEntry}
use wagering_wallet_service.Wagering.Kind.{is_reversal}
use wagering_wallet_service.Wagering.Transaction.{
  Transaction, mark_processed, mark_rejected, mark_pending_reference,
}
use wagering_wallet_service.Wagering.Decision.{
  Decision, Reference, Outcome, process_now, reject_now, wait_reference, is_present,
}
use wagering_wallet_service.Usecase.Movement.{with_state, chosen_move}
use wagering_wallet_service.Store.{Tx, ◌>>=◌, ◌>>◌, return, pure_result, new_id}
use wagering_wallet_service.Store.Wallets
use wagering_wallet_service.Store.Ledger
use wagering_wallet_service.Store.Transactions

-- The entry, when there is one, and the wallet and the operation after the call.
pub record Settled : Type 0 where
  pub entry : Option LedgerEntry
  pub account : Wallet
  pub operation : Transaction

-- An operation that is settled without a movement.
abbrev pub unmoved : Wallet → Result (Unit {0}) × Transaction → Result Settled
unmoved account (err failure, _) = err failure
unmoved account (ok _, operation) =
    ok (record { entry = none; account = account; operation = operation })

module _ (ids : ℕ → Uuid) where
  -- `applyFinancialMovement` on the repositories of the transaction.
  unfoldable pub apply_movement : Instant → Decision → Wallet → Transaction → Tx Settled
  unfolding chosen_move mark_processed
  apply_movement now decision account operation = do
    key ← new_id ids
    (entry, moved) ← pure_result (
        with_state (
          chosen_move decision.movement.direction operation.id decision.movement.amount key now
            account))
    Ledger.append entry
    Wallets.update moved account.version
    (_, settled) ←
        pure_result (with_state (mark_processed moved.balance decision.reference_id now operation))
    return (record { entry = some entry; account = moved; operation = settled })

  -- The branch of an operation that is processed: with a movement or without.
  unfoldable pub settle_processed : Instant → Decision → Wallet → Transaction → Tx Settled
  unfolding apply_movement
  settle_processed now decision account operation =
      if is_present decision.movement
      then apply_movement now decision account operation
      else pure_result
          (unmoved account (mark_processed account.balance decision.reference_id now operation))

  -- `settle` of the processing, by the decision's outcome; the deadline and the next attempt of an
  -- operation that waits are computed from the settings.
  unfoldable pub settle_as :
      Outcome → Duration → Duration → Instant → Decision → Wallet → Transaction → Tx Settled
  unfolding settle_processed mark_rejected mark_pending_reference
  settle_as reject_now backoff ttl now decision account operation =
      pure_result
        (unmoved account (mark_rejected decision.failure_code account.balance now operation))
  settle_as wait_reference backoff ttl now decision account operation = pure_result (
      unmoved account
        (mark_pending_reference (now + backoff) (operation.created_at + ttl) now operation))
  settle_as process_now backoff ttl now decision account operation =
      settle_processed now decision account operation

  -- `apply` of the retry, for a decision that does not wait.
  unfoldable pub apply_as : Outcome → Instant → Decision → Wallet → Transaction → Tx Settled
  unfolding settle_processed mark_rejected
  apply_as reject_now now decision account operation =
      pure_result
        (unmoved account (mark_rejected decision.failure_code account.balance now operation))
  apply_as _ now decision account operation = settle_processed now decision account operation

-- The reference to an operation that was found; the first argument says whether to look for an
-- earlier reversal of it.
unfoldable pub reference_to : Bool → Option Transaction → Tx (Option Reference)
reference_to looks none = return none
reference_to false (some original) =
    return (some (record { transaction = some original; already_reversed = false }))
reference_to true (some original) = do
  reversed ← Transactions.has_successful_reversal original.id
  return (some (record { transaction = some original; already_reversed = reversed }))

-- `resolveReference` of the processing.
unfoldable pub resolve_reference : Transaction → Tx (Option Reference)
unfolding reference_to
resolve_reference operation = if is_empty operation.reference_external_id then return none else do
  original ← Transactions.find_by_external_id operation.provider_id operation.reference_external_id
  reference_to (is_reversal operation.kind) original

-- `resolveReference` of the retry.
unfoldable pub retried_reference : Transaction → Tx (Option Reference)
unfolding reference_to
retried_reference operation = do
  original ← Transactions.find_by_external_id operation.provider_id operation.reference_external_id
  reference_to true original
