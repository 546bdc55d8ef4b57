-- ===== src/Event/Announced.antt =====
-- What an event says about an operation.
use wagering_wallet_service.Base.{
  Result, ok, Uuid, nil_uuid, Instant, String, ◌≡◌, Bool, true, false, Option, none, some, List, [],
  ◌∷◌,
}
use wagering_wallet_service.Money.{Money}
use wagering_wallet_service.Wagering.Kind.{FailureCode}
use wagering_wallet_service.Wagering.Transaction.{Transaction}
use wagering_wallet_service.Event.{
  SettledCore, ProviderMetadata, opening_processed, operation_processed, operation_rejected,
  wallet_moved, reference_pending, wager_transaction, EventType, Envelope, Payload,
}

-- What a payload says of an operation: the parts that it has.
abbrev pub core_in : Payload → Option SettledCore
core_in (opening_processed core balance at) = some core
core_in (operation_processed core balance provider at) = some core
core_in (operation_rejected core code balance provider at) = some core
core_in (wallet_moved change) = none
core_in (reference_pending core provider next deadline) = some core

abbrev pub balance_in : Payload → Option Money
balance_in (opening_processed core balance at) = some balance
balance_in (operation_processed core balance provider at) = some balance
balance_in (operation_rejected core code balance provider at) = some balance
balance_in _ = none

abbrev pub code_in : Payload → Option FailureCode
code_in (operation_rejected core code balance provider at) = some code
code_in _ = none

abbrev pub provider_in : Payload → Option ProviderMetadata
provider_in (operation_processed core balance provider at) = some provider
provider_in (operation_rejected core code balance provider at) = some provider
provider_in (reference_pending core provider next deadline) = some provider
provider_in _ = none

abbrev pub times_in : Payload → List Instant
times_in (opening_processed core balance at) = at ∷ []
times_in (operation_processed core balance provider at) = at ∷ []
times_in (operation_rejected core code balance provider at) = at ∷ []
times_in (wallet_moved change) = []
times_in (reference_pending core provider next deadline) = next ∷ deadline ∷ []

abbrev pub text_of : Option String → String
text_of none = ""
text_of (some text) = text

abbrev pub id_of : Option Uuid → Uuid
id_of none = nil_uuid
id_of (some id) = id

-- What is left out stands for what the operation does not have.
pub record Describes (t : Transaction) (p : ProviderMetadata) : Type 0 where
  pub provider : p.provider_id ≡ t.provider_id
  pub external : p.external_transaction_id ≡ t.external_transaction_id
  pub round : p.round_id ≡ t.round_id
  pub game : p.game_id ≡ t.game_id
  pub external_reference : text_of p.reference_external_transaction_id ≡ t.reference_external_id
  pub reference : id_of p.reference_transaction_id ≡ t.reference_transaction_id

-- An opening has no provider.
abbrev pub Provided : Transaction → Bool → Option ProviderMetadata → Type 0
Provided t true none = Unit
Provided t true (some p) = ⊥
Provided t false none = ⊥
Provided t false (some p) = Describes t p

-- The event of one type about the operation `t`, with what its payload says.
pub record Announces (uuid_text : Uuid → String) (event_id : Uuid) (event_type : EventType)
    (t : Transaction) (internal : Bool) (at : Instant) (balance : Option Money)
    (code : Option FailureCode) (times : List Instant) (e : Envelope) : Type 0 where
  pub id : e.event_id ≡ event_id
  pub typed : e.event_type ≡ event_type
  pub on : e.aggregate_type ≡ wager_transaction
  pub aggregate : e.aggregate_id ≡ t.id
  pub correlation : e.correlation_id ≡ t.correlation_id
  pub causation : e.causation_id ≡ uuid_text t.id
  pub occurred : e.occurred_at ≡ at
  pub core :
      core_in e.content
      ≡ some (record {
        transaction_id = t.id;
        wallet_id = t.wallet_id;
        player_id = t.player_id;
        kind = t.kind;
        money = t.amount;
      })
  pub provided : Provided t internal (provider_in e.content)
  pub balanced : balance_in e.content ≡ balance
  pub coded : code_in e.content ≡ code
  pub timed : times_in e.content ≡ times

-- What holds of an event about the operation `t`, when it is made.
abbrev pub Made :
    (Uuid → String)
    → Uuid
    → Transaction
    → Result Envelope
    → EventType
    → Bool
    → Instant
    → Option Money
    → Option FailureCode
    → List Instant
    → Type 0
Made uuid_text event_id t made event_type internal at balance code times =
    (e : Envelope) × (made ≡ ok e)
    × Announces uuid_text event_id event_type t internal at balance code times e
