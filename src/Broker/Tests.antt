-- ===== src/Broker/Tests.antt =====
-- A bet on a wallet that is not there ends in the dead letter queue; a consumer is stopped.
use wagering_wallet_service.Broker.Release.{stop-All, is_release}
use wagering_wallet_service.Broker.Routes.{routes_of_lem, Apart, Refused}
use wagering_wallet_service.Store.Inbox
use wagering_wallet_service.Store.Transactions
use wagering_wallet_service.Messaging.{new_inbox_message}
use wagering_wallet_service.Broker.Listener.{handle, Message, Handled}
use wagering_wallet_service.Wagering.Transaction.{new_external, check_external, check_amount_policy}
use wagering_wallet_service.Base.{
  inl, any, inr, All, is_blank, is_payload_hash, if◌then◌else◌, Result, ok, Uuid, ℤ, pos, ℕ, ◌+◌,
  String, ◌≡◌, refl, Bool, true, false, Option, none, some, List, [], ◌∷◌, str_eq,
}
use wagering_wallet_service.Usecase.Process.Execute.{execute_process}
use wagering_wallet_service.Money.{brl}
use wagering_wallet_service.Event.{Envelope}
use wagering_wallet_service.Store.{Session}
use wagering_wallet_service.Store.UnitOfWork.{all_answered, Fate, committed}
use wagering_wallet_service.Usecase.Input.{ProcessWagerInput}
use wagering_wallet_service.Usecase.Process.{ProcessSettings}
use wagering_wallet_service.Doors.{TagResult, no_failure}
use wagering_wallet_service.Doors.Message.{WagerMessage, Document, document}
use wagering_wallet_service.Base.{◌⊎◌}
use wagering_wallet_service.Broker.Consumer.{
  RouteError, Delivery, delivery_of, stop, routes_of, Route, ConsumerSettings, Inbound, Consumer,
  Circumstance, dispatch,
}
use wagering_wallet_service.Broker.Kept.{deletes}
use wagering_wallet_service.Broker.Settled.{dispatch-NotLost, NotLost, wager_listener}

abbrev bet_message : WagerMessage
bet_message = record {
  message_id = "message-1";
  message_type = "WagerTransactionRequested";
  occurred_at = "2026-09-21T12:00:00.000Z";
  content = record {
    provider_id = "provider-a";
    external_transaction_id = "transaction-1";
    player_id = "50";
    wallet_id = "1";
    round_id = "round-1";
    game_id = "fortune-chimp";
    kind = "BET";
    money = record { minor = pos 2500; currency = brl };
    reference_external_transaction_id = none;
    idempotency_key = "provider-a:transaction-1";
  };
}

abbrev read_json : List ℕ → Document
read_json body = document bet_message false

abbrev tags : WagerMessage → TagResult
tags m = no_failure

abbrev is_timestamp : String → Bool
is_timestamp text = true

abbrev parse_uuid : String → Option Uuid
parse_uuid text = if str_eq text "50" then some 50 else some 1

abbrev a_hash : String
a_hash = "0123456789abcdef0123456789abcdef0123456789abcdef0123456789abcdef"

abbrev hash_bytes : List ℕ → String
hash_bytes body = a_hash

abbrev uuid_text : Uuid → String
uuid_text id = "id"

abbrev marshal : Envelope → Result (List ℕ)
marshal envelope = ok (1 ∷ [])

abbrev ids : ℕ → Uuid
ids n = n + 1

abbrev process_settings : ProcessSettings
process_settings = record { reference_backoff = 10; reference_ttl = 100 }

abbrev tag_problems : ProcessWagerInput → List String
tag_problems input = []

abbrev hash : ProcessWagerInput → Result String
hash input = ok a_hash

abbrev fates : ℕ → Fate
fates k = record {
  begin = none;
  timeouts = none;
  statement = all_answered;
  commit = committed;
  interrupted = none;
}

abbrev no_rows : Session
no_rows = record {
  store = record { wallets = []; transactions = []; ledger = []; outbox = []; inbox = [] };
  drawn = 0;
}

abbrev atoi : String → Option ℤ
atoi text = some (pos 2)

abbrev consumer_settings : ConsumerSettings
consumer_settings = record {
  backoff_base = pos 1000000000;
  backoff_max = pos 8000000000;
  max_receive_count = pos 5;
}

abbrev source : String → String
source queue = "arn"

abbrev dead_letter_id : String → String → String → Option String
dead_letter_id arn message reason = some "dead"

abbrev inbound : Inbound
inbound = record {
  message_id = "broker-1";
  receipt_handle = "handle-1";
  body = 123 ∷ [];
  system = [];
  attributes = [];
}

abbrev idle : Consumer
idle = record { in_flight = []; releasing = false; calls = []; counted = [] }

abbrev calm : Circumstance
calm = record { ended_after_handle = false; ended_at_return = false; takes_dead_letter = true }

abbrev listener : Message → Session → Handled × Session
listener =
    wager_listener read_json tags is_timestamp parse_uuid hash_bytes uuid_text marshal ids
      process_settings tag_problems hash 3 fates 30 31

abbrev dispatched : Consumer × Session
dispatched =
    dispatch atoi consumer_settings source dead_letter_id listener calm "queue" inbound idle no_rows

bet_deleted : deletes dispatched.0 ≡ true
unfolding dispatch handle execute_process new_inbox_message is_payload_hash Inbox.insert_in
    Transactions.insert_in new_external check_external is_blank check_amount_policy
bet_deleted = refl

deleted_example :
    NotLost read_json tags is_timestamp parse_uuid hash_bytes uuid_text marshal ids process_settings
      tag_problems hash 3 fates 30 31
      (delivery_of atoi inbound)
      no_rows
      dispatched.1
      dispatched.0.calls
deleted_example =
    dispatch-NotLost read_json tags is_timestamp parse_uuid hash_bytes uuid_text marshal ids
      process_settings tag_problems hash 3 fates 30 31 atoi consumer_settings source dead_letter_id
      calm "queue" inbound idle no_rows refl bet_deleted

abbrev busy : Consumer
busy = record idle { in_flight = ("handle-1", record { queue = "queue"; message = inbound }) ∷ [] }

stop_example :
    ((stop false busy).releasing ≡ true)
    × All
        (λ (e : String × Delivery). any (is_release e.1) (stop false busy).calls ≡ true)
        busy.in_flight
stop_example = stop-All busy

abbrev two_listeners : List Route
two_listeners =
    record { name = "wagers"; watching = "queue-1" }
    ∷ record { name = "others"; watching = "queue-2" }
    ∷ []

routes_example :
    ((routes_of two_listeners ≡ inr two_listeners) × Apart two_listeners)
    ⊎ ((e : RouteError) × (routes_of two_listeners ≡ inl e) × Refused two_listeners e)
routes_example = routes_of_lem two_listeners
