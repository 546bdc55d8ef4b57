-- ===== src/Messaging/Tests.antt =====
-- Rows of the outbox and the inbox on concrete inputs.
use wagering_wallet_service.Store.{Store}
use wagering_wallet_service.Base.{is_payload_hash}
use wagering_wallet_service.Base.{
  Result, ok, Uuid, nil_uuid, no_time, pos, ℕ, String, ◌≡◌, refl, List, [], ◌∷◌,
}
use wagering_wallet_service.Money.{brl}
use wagering_wallet_service.Event.{Envelope, EventType, wallet, wallet_moved}
use wagering_wallet_service.Wallet.{debit}
use wagering_wallet_service.Wagering.Kind.{bet}
use wagering_wallet_service.Messaging.{
  OutboxEvent, InboxMessage, InboxOutcome, new_inbox_message, rehydrate_inbox_message,
}

abbrev uuid_text : Uuid → String
uuid_text id = "uuid"

abbrev marshal : Envelope → Result (List ℕ)
marshal e = ok (123 ∷ 125 ∷ [])

abbrev moved_envelope : Envelope
moved_envelope = record {
  event_id = 9;
  event_type = EventType.balance_changed;
  aggregate_type = wallet;
  aggregate_id = 1;
  correlation_id = "correlation";
  causation_id = "uuid";
  occurred_at = 30;
  content = wallet_moved (record {
    wallet_id = 1;
    player_id = 2;
    transaction_id = 7;
    kind = bet;
    direction = debit;
    money = record { minor = pos 2000; currency = brl };
    balance_before = record { minor = pos 5000; currency = brl };
    balance_after = record { minor = pos 3000; currency = brl };
    wallet_version = pos 4;
  });
}

abbrev moved_row : OutboxEvent
moved_row = record {
  id = 9;
  aggregate_type = "wallet";
  aggregate_id = 1;
  event_type = "WalletBalanceChanged";
  event_version = pos 1;
  correlation_id = "correlation";
  causation_id = "uuid";
  partition_key = "uuid";
  payload = 123 ∷ 125 ∷ [];
  occurred_at = 30;
  attempts = pos 0;
  next_attempt_at = 31;
  locked_by = "";
  locked_until = no_time;
  last_error = "";
  published_at = no_time;
}

abbrev empty_store : Store
empty_store = record { wallets = []; transactions = []; ledger = []; outbox = []; inbox = [] }

abbrev claimed_row : OutboxEvent
claimed_row = record moved_row { attempts = pos 1; locked_by = "publisher"; locked_until = 60 }

abbrev received : InboxMessage
received = record {
  consumer_name = "consumer";
  message_id = "message";
  payload_hash = "0123456789abcdef0123456789abcdef0123456789abcdef0123456789abcdef";
  transaction_id = nil_uuid;
  outcome = InboxOutcome.unfinished;
  received_at = 40;
  completed_at = no_time;
}

inbox_run :
    new_inbox_message "consumer" "message"
      "0123456789abcdef0123456789abcdef0123456789abcdef0123456789abcdef" 40
    ≡ ok received
unfolding new_inbox_message is_payload_hash
inbox_run = refl

inbox_read : rehydrate_inbox_message received ≡ ok received
unfolding rehydrate_inbox_message
inbox_read = refl
