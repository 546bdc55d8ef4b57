-- ===== src/Doors/Payload/Agree.antt =====
-- The two doors agree on what the hash covers.
use wagering_wallet_service.Base.{
  Result, ◌>>◌, err, ok, Uuid, String, ◌≡◌, refl, ap, Option, none, some, [],
}
use wagering_wallet_service.Usecase.Input.{ProcessWagerInput}
use wagering_wallet_service.Doors.{identifier, or_nil, refuse_invalid}
use wagering_wallet_service.Doors.Message
use wagering_wallet_service.Doors.Request
use wagering_wallet_service.Doors.Message.{WagerMessage, wager_input_from_message}
use wagering_wallet_service.Doors.Request.{WagerRequest, to_wager_input}
use wagering_wallet_service.Doors.Payload.{Payload, idempotency_payload}

-- The request with the content of a message.
abbrev pub request_of : WagerMessage → WagerRequest
request_of m = record {
  provider_id = m.content.provider_id;
  external_transaction_id = m.content.external_transaction_id;
  player_id = m.content.player_id;
  wallet_id = m.content.wallet_id;
  round_id = m.content.round_id;
  game_id = m.content.game_id;
  kind = m.content.kind;
  money = m.content.money;
  reference_external_transaction_id = m.content.reference_external_transaction_id;
}

-- What is hashed for an input, or the error in its place.
abbrev pub payload_of : Result ProcessWagerInput → Result Payload
payload_of (err failure) = err failure
payload_of (ok input) = ok (idempotency_payload input)

payload-guard :
    (guard : Result (Unit {0})) (a b : ProcessWagerInput)
    → idempotency_payload a ≡ idempotency_payload b
    → payload_of (guard >> ok a) ≡ payload_of (guard >> ok b)
payload-guard (err failure) a b h = refl
payload-guard (ok _) a b h = ap ok h

same_reference :
    (reference : Option String) → Message.text_or_empty reference ≡ Request.optional_text reference
same_reference none = refl
same_reference (some reference) = refl

-- A message and a request of the same content are refused alike, and else the hash of both covers the
-- same payload, whatever their keys, their correlation and the hash of the message's body are.
pub doors-Agree :
    (parse_uuid : String → Option Uuid) (m : WagerMessage)
    (raw_body_hash idempotency_key correlation_id correlation_id' : String)
    → payload_of (wager_input_from_message parse_uuid m raw_body_hash correlation_id)
      ≡ payload_of (to_wager_input parse_uuid (request_of m) idempotency_key correlation_id')
unfolding wager_input_from_message to_wager_input
doors-Agree parse_uuid m raw_body_hash idempotency_key correlation_id correlation_id' =
    let first = identifier parse_uuid [] "playerId" m.content.player_id in
    let second = identifier parse_uuid first.0 "walletId" m.content.wallet_id in
    payload-guard (refuse_invalid (or_nil second.0)) _ _
      (rw (same_reference m.content.reference_external_transaction_id) refl)
