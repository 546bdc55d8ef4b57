-- ===== src/Event/Tests.antt =====
-- Events of a settled bet.
use wagering_wallet_service.Wagering.Transaction.{check_external}
use wagering_wallet_service.Wagering.Snapshot.{validate_schedule}
use wagering_wallet_service.Base.{none, false, some, [], ◌∷◌, is_blank}
use wagering_wallet_service.Wagering.Snapshot.{validate}
use wagering_wallet_service.Wagering.Snapshot.{validate_origin}
use wagering_wallet_service.Base.{is_payload_hash}
use wagering_wallet_service.Wagering.Snapshot.{transaction_of}
use wagering_wallet_service.Wagering.Snapshot.{validate_result}
use wagering_wallet_service.Wagering.Transaction.{check_amount_policy}
use wagering_wallet_service.Wagering.Snapshot.{check_snapshot}
use wagering_wallet_service.Base.{ok, Uuid, nil_uuid, no_time, pos, String, ◌≡◌, refl, true}
use wagering_wallet_service.Money.{brl}
use wagering_wallet_service.Wagering.Kind.{
  Status, bet, http, no_code, is_terminal, is_pending_reference,
}
use wagering_wallet_service.Wagering.Transaction.{Transaction}
use wagering_wallet_service.Wagering.Snapshot.{rehydrate}
use wagering_wallet_service.Wagering.Snapshot.Stored.{IsStorable, snapshot_of, rehydrate-ok}
use wagering_wallet_service.Event.{EventType, new_processed, new_rejected, new_pending_reference}
use wagering_wallet_service.Event.Settled.{new_event-IsStorable}
use wagering_wallet_service.Event.Announced.{Made}

abbrev uuid_text : Uuid → String
uuid_text id = "uuid"

abbrev settled_bet : Transaction
settled_bet = record {
  id = 7;
  origin = http;
  kind = bet;
  status = Status.processed;
  wallet_id = 1;
  player_id = 2;
  amount = record { minor = pos 2000; currency = brl };
  provider_id = "provider";
  external_transaction_id = "bet-1";
  idempotency_key = "key-1";
  payload_hash = "0123456789abcdef0123456789abcdef0123456789abcdef0123456789abcdef";
  round_id = "round";
  game_id = "game";
  reference_external_id = "";
  reference_transaction_id = nil_uuid;
  failure_code = no_code;
  result_balance = record { minor = pos 3000; currency = brl };
  reference_attempts = pos 0;
  next_attempt_at = no_time;
  reference_deadline_at = no_time;
  correlation_id = "correlation";
  created_at = 25;
  updated_at = 30;
  completed_at = 30;
}

loaded : rehydrate (snapshot_of settled_bet) ≡ ok settled_bet
unfolding rehydrate check_snapshot snapshot_of validate validate_origin check_external is_blank
    is_payload_hash check_amount_policy validate_schedule validate_result transaction_of
loaded = refl

settled_bet-IsStorable : IsStorable settled_bet
settled_bet-IsStorable = (rehydrate-ok (snapshot_of settled_bet) loaded).1

new_event_example :
    (is_terminal Status.processed ≡ true
      → Made uuid_text 9 settled_bet
          (new_processed uuid_text 9 settled_bet settled_bet.result_balance)
          EventType.processed
          false
          30
          (some settled_bet.result_balance)
          none
          (30 ∷ [])
        × Made uuid_text 9 settled_bet
            (new_rejected uuid_text 9 settled_bet settled_bet.result_balance)
            EventType.rejected
            false
            30
            (some settled_bet.result_balance)
            (some no_code)
            (30 ∷ []))
    × (is_pending_reference Status.processed ≡ true
        → Made uuid_text 9 settled_bet
            (new_pending_reference uuid_text 9 settled_bet)
            EventType.pending_reference
            false
            30
            none
            none
            (0 ∷ 0 ∷ []))
new_event_example =
    new_event-IsStorable uuid_text 9 settled_bet settled_bet-IsStorable refl
      settled_bet.result_balance
