-- ===== src/Event.antt =====
-- The events that the service announces: internal/domain/event/event.go and payloads.go. The text of
-- an identifier, `uuid.UUID.String`, is a parameter.
pub mod Announced
pub mod Settled
mod Tests
use wagering_wallet_service.Base.{
  ◌||◌, if◌then◌else◌, MessagingError, Result, ◌>>=◌, ◌>>◌, refuse_if, of_event, ok, Uuid, is_nil,
  Instant, is_unset, ℤ, is_empty, String, Option, none, some,
}
use wagering_wallet_service.Money.{Money}
use wagering_wallet_service.Wallet.{LedgerEntry, Direction}
use wagering_wallet_service.Wagering.Kind.{Kind, FailureCode, is_internal}
use wagering_wallet_service.Wagering.Transaction.{Transaction}

-- `Type` and `AggregateType`: the values that the code declares.
pub data EventType : Type 0 where
  processed rejected balance_changed pending_reference : EventType

pub data AggregateType : Type 0 where
  wallet wager_transaction : AggregateType

abbrev pub event_text : EventType → String
event_text processed = "WagerTransactionProcessed"
event_text rejected = "WagerTransactionRejected"
event_text balance_changed = "WalletBalanceChanged"
event_text pending_reference = "WagerTransactionPendingReference"

abbrev pub aggregate_text : AggregateType → String
aggregate_text wallet = "wallet"
aggregate_text wager_transaction = "wager_transaction"

-- `settledCore`
pub record SettledCore : Type 0 where
  pub transaction_id : Uuid
  pub wallet_id : Uuid
  pub player_id : Uuid
  pub kind : Kind
  pub money : Money

-- `providerMetadata`; a pointer is an option.
pub record ProviderMetadata : Type 0 where
  pub provider_id : String
  pub external_transaction_id : String
  pub round_id : String
  pub game_id : String
  pub reference_external_transaction_id : Option String
  pub reference_transaction_id : Option Uuid

-- `BalanceChanged`
pub record BalanceChange : Type 0 where
  pub wallet_id : Uuid
  pub player_id : Uuid
  pub transaction_id : Uuid
  pub kind : Kind
  pub direction : Direction
  pub money : Money
  pub balance_before : Money
  pub balance_after : Money
  pub wallet_version : ℤ  -- int64

-- The payloads, with the fields of each in the order of the code.
pub data Payload : Type 0 where
  opening_processed : SettledCore → Money → Instant → Payload
  operation_processed : SettledCore → Money → ProviderMetadata → Instant → Payload
  operation_rejected : SettledCore → FailureCode → Money → ProviderMetadata → Instant → Payload
  wallet_moved : BalanceChange → Payload
  reference_pending : SettledCore → ProviderMetadata → Instant → Instant → Payload

pub record Envelope : Type 0 where
  pub event_id : Uuid
  pub event_type : EventType
  pub aggregate_type : AggregateType
  pub aggregate_id : Uuid
  pub correlation_id : String
  pub causation_id : String
  pub occurred_at : Instant
  pub content : Payload

unfoldable pub core_of : Transaction → SettledCore
core_of t = record {
  transaction_id = t.id;
  wallet_id = t.wallet_id;
  player_id = t.player_id;
  kind = t.kind;
  money = t.amount;
}

unfoldable pub metadata_of : Transaction → ProviderMetadata
metadata_of t = record {
  provider_id = t.provider_id;
  external_transaction_id = t.external_transaction_id;
  round_id = t.round_id;
  game_id = t.game_id;
  reference_external_transaction_id =
      if is_empty t.reference_external_id then none else some t.reference_external_id;
  reference_transaction_id =
      if is_nil t.reference_transaction_id then none else some t.reference_transaction_id;
}

module _ (uuid_text : Uuid → String) where
  unfoldable pub new_envelope :
      Uuid → EventType → AggregateType → Uuid → String → Uuid → Instant → Payload → Result Envelope
  new_envelope event_id event_type aggregate_type aggregate_id correlation_id causation_id
        occurred_at content =
      do
        refuse_if (is_nil event_id || is_nil aggregate_id || is_nil causation_id)
            (of_event MessagingError.missing_identifier)
        refuse_if (is_empty correlation_id) (of_event MessagingError.missing_field)
        refuse_if (is_unset occurred_at) (of_event MessagingError.missing_timestamp)
        ok (record {
          event_id = event_id;
          event_type = event_type;
          aggregate_type = aggregate_type;
          aggregate_id = aggregate_id;
          correlation_id = correlation_id;
          causation_id = uuid_text causation_id;
          occurred_at = occurred_at;
          content = content;
        })

  -- What `NewProcessed`, `NewRejected` and `NewPendingReference` share.
  unfoldable pub operation_event :
      EventType → Uuid → Transaction → Instant → Payload → Result Envelope
  unfolding new_envelope
  operation_event event_type event_id t occurred_at content =
      new_envelope event_id event_type wager_transaction t.id t.correlation_id t.id occurred_at
        content

  unfoldable pub new_processed : Uuid → Transaction → Money → Result Envelope
  unfolding operation_event core_of metadata_of
  new_processed event_id t balance = operation_event processed event_id t t.completed_at (
      if is_internal t.origin
      then opening_processed (core_of t) balance t.completed_at
      else operation_processed (core_of t) balance (metadata_of t) t.completed_at)

  unfoldable pub new_rejected : Uuid → Transaction → Money → Result Envelope
  unfolding operation_event core_of metadata_of
  new_rejected event_id t balance =
      operation_event rejected event_id t t.completed_at
        (operation_rejected (core_of t) t.failure_code balance (metadata_of t) t.completed_at)

  unfoldable pub new_balance_changed : Uuid → Transaction → LedgerEntry → Result Envelope
  unfolding new_envelope
  new_balance_changed event_id t entry =
      new_envelope event_id balance_changed wallet entry.wallet_id t.correlation_id t.id
        entry.created_at
        (wallet_moved (record {
          wallet_id = entry.wallet_id;
          player_id = t.player_id;
          transaction_id = entry.transaction_id;
          kind = t.kind;
          direction = entry.direction;
          money = entry.amount;
          balance_before = entry.balance_before;
          balance_after = entry.balance_after;
          wallet_version = entry.wallet_version;
        }))

  unfoldable pub new_pending_reference : Uuid → Transaction → Result Envelope
  unfolding operation_event core_of metadata_of
  new_pending_reference event_id t =
      operation_event pending_reference event_id t t.updated_at
        (reference_pending (core_of t) (metadata_of t) t.next_attempt_at t.reference_deadline_at)
