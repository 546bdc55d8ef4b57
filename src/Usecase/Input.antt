-- ===== src/Usecase/Input.antt =====
-- What the processing of an operation takes and answers:
-- internal/application/dto/process_wager_input.go and process_wager_result.go, and the mappers
-- wager_command_mapper.go and wager_result_mapper.go of internal/application/mapper.
use wagering_wallet_service.Base.{
  if◌then◌else◌, Result, invalid_input, err, ok, Uuid, is_empty, String, Bool, not, ◌&&◌, List, [],
  ◌∷◌, ◌++◌,
}
use wagering_wallet_service.Money.{Money, is_valid, is_zero, is_positive}
use wagering_wallet_service.Wagering.Kind.{
  Kind, Status, Origin, FailureCode, is_external_kind, requires_reference, forbids_reference,
  is_loss,
}
use wagering_wallet_service.Wagering.Transaction.{Transaction, Command}
use wagering_wallet_service.Messaging.{InboxOutcome, unfinished}

pub record ProcessWagerInput : Type 0 where
  pub origin : Origin
  pub provider_id : String
  pub external_transaction_id : String
  pub idempotency_key : String
  pub player_id : Uuid
  pub wallet_id : Uuid
  pub round_id : String
  pub game_id : String
  pub kind : Kind
  pub amount : Money
  pub reference_external_id : String
  pub correlation_id : String
  pub message_id : String
  pub raw_body_hash : String

-- The problem that `checkReferencePolicy` adds, by its field.
abbrev pub reference_policy : ProcessWagerInput → List String
reference_policy i =
    (if requires_reference i.kind && is_empty i.reference_external_id
      then "referenceExternalTransactionId" ∷ []
      else [])
    ++ (if forbids_reference i.kind && not (is_empty i.reference_external_id)
        then "referenceExternalTransactionId" ∷ []
        else [])

-- `checkAmountPolicy`
abbrev pub amount_policy : ProcessWagerInput → List String
amount_policy i =
    if not (is_valid i.amount)
    then []
    else if is_loss i.kind && not (is_zero i.amount)
    then "money.amount" ∷ []
    else if not (is_loss i.kind) && not (is_positive i.amount)
    then "money.amount" ∷ []
    else []

-- The problems that `Validate` collects. Those of the struct's tags are an argument: the validator
-- that reads the tags is a library.
unfoldable pub problems_of : List String → ProcessWagerInput → List String
problems_of tag_problems i =
    tag_problems
    ++ (if is_valid i.amount then [] else "money.amount" ∷ [])
    ++ (if is_external_kind i.kind then reference_policy i ++ amount_policy i else [])

-- `Validate`
unfoldable pub validate : List String → ProcessWagerInput → Result (Unit {0})
unfolding problems_of
validate tag_problems i = elim (problems_of tag_problems i) [
  | [] ↦ ok tt
  | _ ∷ _ ↦ err invalid_input
]

-- `FromQueue`
abbrev pub from_queue : ProcessWagerInput → Bool
from_queue i = not (is_empty i.message_id)

pub record ProcessWagerResult : Type 0 where
  pub transaction_id : Uuid
  pub status : Status
  pub balance : Money
  pub failure_code : FailureCode
  pub idempotent_replay : Bool
  pub inbox_outcome : InboxOutcome

-- `WagerCommand`
abbrev pub wager_command : ProcessWagerInput → String → Command
wager_command i payload_hash = record {
  origin = i.origin;
  kind = i.kind;
  provider_id = i.provider_id;
  external_transaction_id = i.external_transaction_id;
  idempotency_key = i.idempotency_key;
  payload_hash = payload_hash;
  player_id = i.player_id;
  wallet_id = i.wallet_id;
  round_id = i.round_id;
  game_id = i.game_id;
  amount = i.amount;
  reference_external_id = i.reference_external_id;
  correlation_id = i.correlation_id;
}

-- `WagerResult`
abbrev pub wager_result : Transaction → Bool → ProcessWagerResult
wager_result operation replay = record {
  transaction_id = operation.id;
  status = operation.status;
  balance = operation.result_balance;
  failure_code = operation.failure_code;
  idempotent_replay = replay;
  inbox_outcome = unfinished;
}
