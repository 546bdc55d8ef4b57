-- ===== src/Doors/Request.antt =====
-- The bodies of the HTTP requests: internal/infrastructure/http/request.go. How an instant is printed
-- is left out.
use wagering_wallet_service.Base.{Result, ◌>>◌, ok, Uuid, String, Option, none, some, []}
use wagering_wallet_service.Money.{Money}
use wagering_wallet_service.Wagering.Kind.{http, to_kind}
use wagering_wallet_service.Usecase.Input.{ProcessWagerInput}
use wagering_wallet_service.Usecase.OpenWallet.{OpenWalletInput}
use wagering_wallet_service.Doors.{identifier, or_nil, refuse_invalid}

-- `wagerRequest`
pub record WagerRequest : Type 0 where
  pub provider_id : String
  pub external_transaction_id : String
  pub player_id : String
  pub wallet_id : String
  pub round_id : String
  pub game_id : String
  pub kind : String
  pub money : Money
  pub reference_external_transaction_id : Option String

-- `optionalText`
abbrev pub optional_text : Option String → String
optional_text none = ""
optional_text (some text) = text

-- `wagerRequest.toInput`
unfoldable pub to_wager_input :
    (String → Option Uuid) → WagerRequest → String → String → Result ProcessWagerInput
unfolding to_kind
to_wager_input parse_uuid r idempotency_key correlation_id =
    let (first, player_id) = identifier parse_uuid [] "playerId" r.player_id in
    let (problems, wallet_id) = identifier parse_uuid first "walletId" r.wallet_id in
    refuse_invalid (or_nil problems)
    >> ok (record {
      origin = http;
      provider_id = r.provider_id;
      external_transaction_id = r.external_transaction_id;
      idempotency_key = idempotency_key;
      player_id = player_id;
      wallet_id = wallet_id;
      round_id = r.round_id;
      game_id = r.game_id;
      kind = to_kind r.kind;
      amount = r.money;
      reference_external_id = optional_text r.reference_external_transaction_id;
      correlation_id = correlation_id;
      message_id = "";
      raw_body_hash = "";
    })

-- `openWalletRequest`
pub record OpenWalletRequest : Type 0 where
  pub player_id : String
  pub initial_balance : Money

-- `openWalletRequest.toInput`
unfoldable pub to_open_wallet_input :
    (String → Option Uuid) → OpenWalletRequest → String → Result OpenWalletInput
to_open_wallet_input parse_uuid r correlation_id =
    let (problems, player_id) = identifier parse_uuid [] "playerId" r.player_id in
    refuse_invalid (or_nil problems)
    >> ok (record {
      player_id = player_id;
      initial_balance = r.initial_balance;
      correlation_id = correlation_id;
    })
