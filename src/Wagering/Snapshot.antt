-- ===== src/Wagering/Snapshot.antt =====
-- The persisted form of an operation and the checks on the way back: `Snapshot`, `validate` and
-- `Rehydrate` of internal/domain/wagering/transaction.go.
pub mod Stored
pub mod Open
pub mod Settled
pub mod Waiting
pub mod Born
pub mod Reachable
use wagering_wallet_service.Base.{
  ◌||◌, ◌==◌, if◌then◌else◌, WageringError, Result, ◌>>=◌, ◌>>◌, refuse_if, of_wagering, ok, Uuid,
  is_nil, Instant, is_unset, ℤ, pos, ltb_ℤ, is_empty, String, not, ◌&&◌,
}
use wagering_wallet_service.Money.{Money, is_negative, is_valid, currency_eq, equal}
use wagering_wallet_service.Wagering.Kind.{
  Kind, Status, processed, rejected, failed, Origin, FailureCode, is_kind, is_reversal,
  forbids_reference, is_origin, is_status, is_terminal, is_failure_code, is_no_code, is_permanent,
  is_internal, is_opening, is_pending_reference, is_processed,
}
use wagering_wallet_service.Wagering.Transaction.{
  Transaction, Command, check_external, check_opening,
}

pub record Snapshot : Type 0 where
  pub id : Uuid
  pub origin : Origin
  pub kind : Kind
  pub status : Status
  pub wallet_id : Uuid
  pub player_id : Uuid
  pub amount : Money
  pub provider_id : String
  pub external_transaction_id : String
  pub idempotency_key : String
  pub payload_hash : String
  pub round_id : String
  pub game_id : String
  pub reference_external_id : String
  pub reference_transaction_id : Uuid
  pub failure_code : FailureCode
  pub result_balance : Money
  pub reference_attempts : ℤ  -- int
  pub next_attempt_at : Instant
  pub reference_deadline_at : Instant
  pub correlation_id : String
  pub created_at : Instant
  pub updated_at : Instant
  pub completed_at : Instant

-- The command that `validate` builds again from the snapshot.
unfoldable pub command_of : Snapshot → Command
command_of s = record {
  origin = s.origin;
  kind = s.kind;
  provider_id = s.provider_id;
  external_transaction_id = s.external_transaction_id;
  idempotency_key = s.idempotency_key;
  payload_hash = s.payload_hash;
  player_id = s.player_id;
  wallet_id = s.wallet_id;
  round_id = s.round_id;
  game_id = s.game_id;
  amount = s.amount;
  reference_external_id = s.reference_external_id;
  correlation_id = s.correlation_id;
}

-- The first `if` of `validate`: an opening has no provider's data, and passes `NewOpening`; any other
-- kind passes `NewExternal`.
unfoldable pub validate_origin : Snapshot → Result (Unit {0})
unfolding command_of
validate_origin s =
    let as_opening = (do
      refuse_if
          (not (is_internal s.origin)
            || not (is_processed s.status)
            || not (is_empty s.provider_id)
            || not (is_empty s.external_transaction_id)
            || not (is_empty s.idempotency_key)
            || not (is_empty s.payload_hash)
            || not (is_empty s.round_id)
            || not (is_empty s.game_id)
            || not (is_empty s.reference_external_id)
            || not (is_nil s.reference_transaction_id))
          (of_wagering WageringError.invalid_snapshot)
      check_opening s.id s.wallet_id s.player_id s.amount s.correlation_id s.created_at
      refuse_if (not (equal s.result_balance s.amount))
          (of_wagering WageringError.invalid_snapshot)) in
    if is_opening s.kind then as_opening else check_external (command_of s) s.id s.created_at

-- The reference, completion and schedule of a snapshot.
unfoldable pub validate_schedule : Snapshot → Result (Unit {0})
validate_schedule s = do
  refuse_if
      (ltb_ℤ s.reference_attempts (pos 0)
        || s.reference_transaction_id == s.id
        || (not (is_nil s.reference_transaction_id)
            && (forbids_reference s.kind || is_empty s.reference_external_id)))
      (of_wagering WageringError.invalid_snapshot)
  refuse_if
      (if is_terminal s.status then is_unset s.completed_at else not (is_unset s.completed_at))
      (of_wagering WageringError.invalid_snapshot)
  refuse_if
      (if is_pending_reference s.status
        then not (is_reversal s.kind)
          || is_unset s.next_attempt_at
          || is_unset s.reference_deadline_at
        else not (is_unset s.next_attempt_at) || not (is_unset s.reference_deadline_at))
      (of_wagering WageringError.invalid_snapshot)

-- The `switch` on the status at the end of `validate`.
validate_result_at : Status → Snapshot → Result (Unit {0})
validate_result_at processed s = do
  refuse_if (not (is_valid s.result_balance) || is_negative s.result_balance)
      (of_wagering WageringError.invalid_amount)
  refuse_if
      (not (is_no_code s.failure_code)
        || not (currency_eq s.result_balance.currency s.amount.currency)
        || (is_reversal s.kind && is_nil s.reference_transaction_id))
      (of_wagering WageringError.invalid_snapshot)
validate_result_at rejected s = do
  refuse_if (not (is_valid s.result_balance) || is_negative s.result_balance)
      (of_wagering WageringError.invalid_amount)
  refuse_if (not (is_failure_code s.failure_code) || is_permanent s.failure_code)
      (of_wagering WageringError.invalid_failure_code)
validate_result_at failed s =
    refuse_if
      (not (is_reversal s.kind) || not (is_permanent s.failure_code) || is_valid s.result_balance)
      (of_wagering WageringError.invalid_snapshot)
validate_result_at _ s =
    refuse_if
      (not (is_no_code s.failure_code)
        || is_valid s.result_balance
        || not (is_nil s.reference_transaction_id))
      (of_wagering WageringError.invalid_snapshot)

unfoldable pub validate_result : Snapshot → Result (Unit {0})
unfolding validate_result_at
validate_result s = validate_result_at s.status s

-- `Snapshot.validate`
unfoldable pub validate : Snapshot → Result (Unit {0})
validate s = do validate_origin s; validate_schedule s; validate_result s

-- The fields that `Rehydrate` copies.
unfoldable pub transaction_of : Snapshot → Transaction
transaction_of s = record {
  id = s.id;
  origin = s.origin;
  kind = s.kind;
  status = s.status;
  wallet_id = s.wallet_id;
  player_id = s.player_id;
  amount = s.amount;
  provider_id = s.provider_id;
  external_transaction_id = s.external_transaction_id;
  idempotency_key = s.idempotency_key;
  payload_hash = s.payload_hash;
  round_id = s.round_id;
  game_id = s.game_id;
  reference_external_id = s.reference_external_id;
  reference_transaction_id = s.reference_transaction_id;
  failure_code = s.failure_code;
  result_balance = s.result_balance;
  reference_attempts = s.reference_attempts;
  next_attempt_at = s.next_attempt_at;
  reference_deadline_at = s.reference_deadline_at;
  correlation_id = s.correlation_id;
  created_at = s.created_at;
  updated_at = s.updated_at;
  completed_at = s.completed_at;
}

-- The checks of `Rehydrate` before `validate`.
unfoldable pub check_snapshot : Snapshot → Result (Unit {0})
check_snapshot s = do
  refuse_if (is_nil s.id || is_nil s.wallet_id || is_nil s.player_id)
      (of_wagering WageringError.missing_identifier)
  refuse_if (not (is_origin s.origin)) (of_wagering WageringError.invalid_origin)
  refuse_if (not (is_kind s.kind)) (of_wagering WageringError.invalid_kind)
  refuse_if (not (is_status s.status)) (of_wagering WageringError.invalid_status)
  refuse_if (not (is_no_code s.failure_code) && not (is_failure_code s.failure_code))
      (of_wagering WageringError.invalid_failure_code)
  refuse_if (is_unset s.created_at || is_unset s.updated_at)
      (of_wagering WageringError.missing_timestamp)

-- `Rehydrate`
unfoldable pub rehydrate : Snapshot → Result Transaction
rehydrate s = do check_snapshot s; validate s; ok (transaction_of s)
