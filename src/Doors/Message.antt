-- ===== src/Doors/Message.antt =====
-- The message of the queue, internal/application/dto/message/wager_message.go, and its mapper
-- internal/application/mapper/wager_input_mapper.go. The JSON decoder, the validator of the tags and
-- the parser of timestamps are parameters.
use wagering_wallet_service.Base.{
  if◌then◌else◌, Result, ◌>>◌, ok, Uuid, is_empty, String, Bool, true, false, not, ◌&&◌, Option,
  none, some, List, [], ◌∷◌, str_eq,
}
use wagering_wallet_service.Money.{Money}
use wagering_wallet_service.Wagering.Kind.{queue, to_kind}
use wagering_wallet_service.Usecase.Input.{ProcessWagerInput}
use wagering_wallet_service.Doors.{
  FieldError, TagResult, add_problem, collect, or_nil, refuse_invalid, identifier,
}

-- `WagerTransactionRequested`
abbrev pub wager_transaction_requested : String
wager_transaction_requested = "WagerTransactionRequested"

pub record WagerData : Type 0 where
  pub provider_id : String
  pub external_transaction_id : String
  pub player_id : String
  pub wallet_id : String
  pub round_id : String
  pub game_id : String
  pub kind : String
  pub money : Money
  pub reference_external_transaction_id : Option String
  pub idempotency_key : String

pub record WagerMessage : Type 0 where
  pub message_id : String
  pub message_type : String
  pub occurred_at : String
  pub content : WagerData

-- What the decoder makes of a body: no document, or one and whether more follows.
pub data Document : Type 0 where
  malformed : Document
  document : WagerMessage → Bool → Document

-- `Reference`
abbrev pub text_or_empty : Option String → String
text_or_empty none = ""
text_or_empty (some text) = text

module _ (tags : WagerMessage → TagResult) (is_timestamp : String → Bool) where
  -- The problems of `Validate`.
  unfoldable pub message_problems : WagerMessage → List FieldError
  unfolding collect
  message_problems m =
      let tagged = collect [] (tags m) [] in
      let timed =
        if is_timestamp m.occurred_at
        then tagged
        else add_problem tagged "occurredAt" "must be a timestamp in RFC 3339 format" in
      if not (str_eq m.message_type wager_transaction_requested) && not (is_empty m.message_type)
      then add_problem timed "type" "must be WagerTransactionRequested"
      else timed

  -- `Decode`; the error is dropped, for its caller reads nothing from it.
  unfoldable pub decode : Document → Option WagerMessage
  unfolding message_problems
  decode malformed = none
  decode (document m true) = none
  decode (document m false) = elim (message_problems m) [ [] ↦ some m | _ ∷ _ ↦ none ]

-- `WagerInputFromMessage`
unfoldable pub wager_input_from_message :
    (String → Option Uuid) → WagerMessage → String → String → Result ProcessWagerInput
unfolding to_kind
wager_input_from_message parse_uuid wager raw_body_hash correlation_id =
    let (first, player_id) = identifier parse_uuid [] "playerId" wager.content.player_id in
    let (problems, wallet_id) = identifier parse_uuid first "walletId" wager.content.wallet_id in
    refuse_invalid (or_nil problems)
    >> ok (record {
      origin = queue;
      provider_id = wager.content.provider_id;
      external_transaction_id = wager.content.external_transaction_id;
      idempotency_key = wager.content.idempotency_key;
      player_id = player_id;
      wallet_id = wallet_id;
      round_id = wager.content.round_id;
      game_id = wager.content.game_id;
      kind = to_kind wager.content.kind;
      amount = wager.content.money;
      reference_external_id = text_or_empty wager.content.reference_external_transaction_id;
      correlation_id = correlation_id;
      message_id = wager.message_id;
      raw_body_hash = raw_body_hash;
    })
