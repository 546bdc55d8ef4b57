-- ===== src/Broker/Listener.antt =====
-- The listener of the wagering queue: internal/infrastructure/sqs/listener. The decoder of JSON, the
-- hash of a body and the use case are parameters; logging and metrics are left out.
use wagering_wallet_service.Base.{
  leb, if◌then◌else◌, WalletError, WageringError, MessagingError, RepositoryError, Failure, Result,
  of_wallet, of_wagering, of_messaging, of_repository, idempotency_conflict, external_id_conflict,
  invalid_input, err, ok, Uuid, ℤ, codes, length, all, is_empty, ℕ, String, ◌⊎◌, inl, inr, Bool,
  true, false, not, ◌&&◌, Option, none, some, List, [], ◌∷◌, str_eq,
}
use wagering_wallet_service.Store.{Session}
use wagering_wallet_service.Store.UnitOfWork.{Outcome}
use wagering_wallet_service.Usecase.Input.{ProcessWagerInput, ProcessWagerResult}
use wagering_wallet_service.Doors.{TagResult}
use wagering_wallet_service.Doors.Message.{WagerMessage, Document, decode, wager_input_from_message}

-- `Message`: what a listener receives.
pub record Message : Type 0 where
  pub broker_id : String
  pub body : List ℕ
  pub group_id : String
  pub receive_count : ℤ
  pub attributes : List (String × String)

-- `Attribute`: the empty text for a name that is not there.
abbrev pub attribute_in : List (String × String) → String → String
attribute_in [] name = ""
attribute_in ((key, value) ∷ rest) name = if str_eq key name then value else attribute_in rest name

-- The reasons of a rejection.
pub data Reason : Type 0 where
  invalid_payload opening_not_allowed wallet_not_found inbox_mismatch : Reason
  idempotency_key_conflict external_transaction_id_conflict : Reason

abbrev pub reason_text : Reason → String
reason_text invalid_payload = "INVALID_PAYLOAD"
reason_text opening_not_allowed = "OPENING_NOT_ALLOWED"
reason_text wallet_not_found = "WALLET_NOT_FOUND"
reason_text inbox_mismatch = "INBOX_HASH_MISMATCH"
reason_text idempotency_key_conflict = "IDEMPOTENCY_KEY_CONFLICT"
reason_text external_transaction_id_conflict = "EXTERNAL_TRANSACTION_ID_CONFLICT"

-- What `Handle` answers: nil, `ErrUnknownOutcome`, a rejection, or another error.
pub data Handled : Type 0 where
  accepted : Handled
  unknown_outcome : Failure → Handled
  rejection : Reason → Handled
  other_error : Failure → Handled

-- `rejectionReason`, for the errors of the wagering domain.
abbrev pub wagering_reason : WageringError → Option Reason
wagering_reason WageringError.invalid_kind = some invalid_payload
wagering_reason WageringError.invalid_amount = some invalid_payload
wagering_reason WageringError.invalid_origin = some invalid_payload
wagering_reason WageringError.missing_field = some invalid_payload
wagering_reason WageringError.missing_identifier = some invalid_payload
wagering_reason WageringError.invalid_payload_hash = some invalid_payload
wagering_reason WageringError.reference_required = some invalid_payload
wagering_reason WageringError.reference_forbidden = some invalid_payload
wagering_reason _ = none

-- `rejectionReason`
unfoldable pub rejection_reason : Failure → Option Reason
rejection_reason (idempotency_conflict _) = some idempotency_key_conflict
rejection_reason (external_id_conflict _) = some external_transaction_id_conflict
rejection_reason (of_messaging MessagingError.payload_mismatch) = some inbox_mismatch
rejection_reason (of_wallet WalletError.not_found) = some wallet_not_found
rejection_reason invalid_input = some invalid_payload
rejection_reason (of_wagering e) = wagering_reason e
rejection_reason _ = none

abbrev pub is_commit_unknown : Failure → Bool
is_commit_unknown (of_repository RepositoryError.commit_outcome_unknown) = true
is_commit_unknown _ = false

-- The answer of `Handle` to an error of the use case.
unfoldable pub refused_with : Failure → Handled
unfolding rejection_reason
refused_with e =
    if is_commit_unknown e
    then unknown_outcome e
    else elim (rejection_reason e) [ some reason ↦ rejection reason | none ↦ other_error e ]

abbrev pub answer_to : Result ProcessWagerResult → Handled
answer_to (ok _) = accepted
answer_to (err e) = refused_with e

-- `logging.CorrelationID`: printable ASCII of at most 128 characters.
abbrev pub is_printable : ℕ → Bool
is_printable c = leb 0x20 c && leb c 0x7e

abbrev pub correlation_id : String → Option String
correlation_id value =
    if not (is_empty value) && leb (length (codes value)) 128 && all is_printable (codes value)
    then some value
    else none

-- `correlationOf`
abbrev pub correlation_of : Message → WagerMessage → String
correlation_of message wager =
    elim (correlation_id (attribute_in message.attributes "correlationId")) [
      | some value ↦ value
      | none ↦ if not (is_empty wager.message_id) then wager.message_id else message.broker_id
    ]

module _ (read_json : List ℕ → Document) (tags : WagerMessage → TagResult)
    (is_timestamp : String → Bool) (parse_uuid : String → Option Uuid)
    (hash_bytes : List ℕ → String) where
  -- The input that `Handle` makes of a message, or the reason why it rejects it.
  unfoldable pub input_of_wager : Message → WagerMessage → Reason ⊎ ProcessWagerInput
  unfolding wager_input_from_message
  input_of_wager message wager =
      if str_eq wager.content.kind "OPENING"
      then inl opening_not_allowed
      else elim (wager_input_from_message parse_uuid wager (hash_bytes message.body)
          (correlation_of message wager)) [ err _ ↦ inl invalid_payload | ok input ↦ inr input ]

  unfoldable pub input_of : Message → Reason ⊎ ProcessWagerInput
  unfolding decode input_of_wager
  input_of message = elim (decode tags is_timestamp (read_json message.body)) [
    | none ↦ inl invalid_payload
    | some wager ↦ input_of_wager message wager
  ]

  module _ (process : ProcessWagerInput → Session → Outcome ProcessWagerResult) where
    -- `Handle`, with the session that it leaves.
    unfoldable pub handle : Message → Session → Handled × Session
    unfolding input_of refused_with
    handle message s = elim (input_of message) [
      | inl reason ↦ (rejection reason, s)
      | inr input ↦ (answer_to (process input s).answer, (process input s).session)
    ]
