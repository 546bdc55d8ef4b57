-- ===== src/Doors/Tests.antt =====
-- The doors on concrete requests.
use wagering_wallet_service.Base.{
  if◌then◌else◌, Uuid, pos, ℕ, zero, suc, String, ◌≡◌, refl, sym, ap, ◌∙◌, false, Option, none,
  some, arith, str_eq,
}
use wagering_wallet_service.Money.{brl}
use wagering_wallet_service.Wagering.Kind.{to_kind, bet}
use wagering_wallet_service.Doors.{explain, is_opaque}
use wagering_wallet_service.Doors.Message.{WagerMessage, wager_input_from_message}
use wagering_wallet_service.Doors.Request.{to_wager_input}
use wagering_wallet_service.Doors.Payload.{Payload, members}
use wagering_wallet_service.Doors.Payload.Agree.{request_of, payload_of, doors-Agree}
use wagering_wallet_service.Doors.Payload.Distinct.{IsContent, members-Distinct}

max_explained :
    explain (record { field = "messageId"; tag = "max"; param = "255" })
    ≡ "must not be longer than 255 characters"
unfolding explain
max_explained = refl

padded_refused : is_opaque " provider" ≡ false
unfolding is_opaque
padded_refused = refl

abbrev parse_uuid : String → Option Uuid
parse_uuid text = if str_eq text "p" then some 50 else if str_eq text "w" then some 60 else none

abbrev bet_sent : WagerMessage
bet_sent = record {
  message_id = "message-1";
  message_type = "WagerTransactionRequested";
  occurred_at = "2026-09-21T12:00:00.000Z";
  content = record {
    provider_id = "provider-a";
    external_transaction_id = "transaction-1";
    player_id = "p";
    wallet_id = "w";
    round_id = "round-1";
    game_id = "fortune-chimp";
    kind = "BET";
    money = record { minor = pos 2500; currency = brl };
    reference_external_transaction_id = none;
    idempotency_key = "provider-a:transaction-1";
  };
}

doors_example :
    payload_of (wager_input_from_message parse_uuid bet_sent "hash" "message-1")
    ≡ payload_of (to_wager_input parse_uuid (request_of bet_sent) "key" "request-1")
doors_example = doors-Agree parse_uuid bet_sent "hash" "key" "message-1" "request-1"

-- Texts of identifiers: as many characters as the number says.
abbrev tally_text : Uuid → String
tally_text zero = ""
tally_text (suc n) = String.◌∷◌ "i" (tally_text n)

abbrev length_of : String → ℕ
length_of String.[] = zero
length_of (String.◌∷◌ c s) = suc (length_of s)

length-tally : (n : ℕ) → length_of (tally_text n) ≡ n
length-tally zero = refl
length-tally (suc n) = ap suc (length-tally n)

tally_text-apart : (a b : Uuid) → tally_text a ≡ tally_text b → a ≡ b
tally_text-apart a b h = sym (length-tally a) ∙ ap length_of h ∙ length-tally b

abbrev content : Payload
content = record {
  provider_id = "provider-a";
  external_transaction_id = "transaction-1";
  player_id = 50;
  wallet_id = 60;
  round_id = "round-1";
  game_id = "fortune-chimp";
  kind = bet;
  amount = record { minor = pos 2500; currency = brl };
  reference_external_id = "";
}

content-IsContent : IsContent content
unfolding to_kind
content-IsContent = record {
  kind_read = refl;
  minor = 2500;
  amount_is = refl;
  fits = ground arith;
  currency_known = refl;
}

-- The same content, its kind read from a text.
abbrev read_content : Payload
read_content = record content { kind = to_kind "BET" }

read_content-IsContent : IsContent read_content
unfolding to_kind
read_content-IsContent = record {
  kind_read = refl;
  minor = 2500;
  amount_is = refl;
  fits = ground arith;
  currency_known = refl;
}

same_members : members tally_text read_content ≡ members tally_text content
unfolding to_kind
same_members = refl

distinct_example : read_content ≡ content
distinct_example =
    members-Distinct tally_text tally_text-apart read_content content read_content-IsContent
      content-IsContent same_members
