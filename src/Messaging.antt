-- ===== src/Messaging.antt =====
-- The rows of the outbox and the inbox: internal/domain/messaging. The text of an identifier and the
-- JSON of an envelope are parameters.
mod Tests
use wagering_wallet_service.Base.{
  ◌||◌, MessagingError, Result, ◌>>=◌, ◌>>◌, refuse_if, of_messaging, ok, Uuid, nil_uuid, is_nil,
  Instant, no_time, is_unset, before, ℤ, pos, is_empty, is_payload_hash, ℕ, String, Bool, true,
  false, not, ◌&&◌, List, [], ◌∷◌, str_eq,
}
use wagering_wallet_service.Event.{Envelope, event_text, aggregate_text}

pub record OutboxEvent : Type 0 where
  pub id : Uuid
  pub aggregate_type : String
  pub aggregate_id : Uuid
  pub event_type : String
  pub event_version : ℤ  -- int
  pub correlation_id : String
  pub causation_id : String
  pub partition_key : String
  pub payload : List ℕ
  pub occurred_at : Instant
  pub attempts : ℤ  -- int
  pub next_attempt_at : Instant
  pub locked_by : String
  pub locked_until : Instant
  pub last_error : String
  pub published_at : Instant

-- `OutboxSnapshot`: the columns of a row.
pub record OutboxSnapshot : Type 0 where
  pub id : Uuid
  pub aggregate_type : String
  pub aggregate_id : Uuid
  pub event_type : String
  pub event_version : ℤ  -- int
  pub correlation_id : String
  pub causation_id : String
  pub partition_key : String
  pub payload : List ℕ
  pub occurred_at : Instant
  pub attempts : ℤ  -- int
  pub next_attempt_at : Instant
  pub locked_by : String
  pub locked_until : Instant
  pub last_error : String
  pub published_at : Instant

module _ (uuid_text : Uuid → String) (marshal : Envelope → Result (List ℕ)) where
  unfoldable pub new_outbox_event : Envelope → Uuid → Instant → Result OutboxEvent
  new_outbox_event envelope partition_key now = do
    refuse_if (is_nil partition_key) (of_messaging MessagingError.missing_identifier)
    refuse_if (is_unset now) (of_messaging MessagingError.missing_timestamp)
    payload ← marshal envelope
    ok (record {
      id = envelope.event_id;
      aggregate_type = aggregate_text envelope.aggregate_type;
      aggregate_id = envelope.aggregate_id;
      event_type = event_text envelope.event_type;
      event_version = pos 1;
      correlation_id = envelope.correlation_id;
      causation_id = envelope.causation_id;
      partition_key = uuid_text partition_key;
      payload = payload;
      occurred_at = envelope.occurred_at;
      attempts = pos 0;
      next_attempt_at = now;
      locked_by = "";
      locked_until = no_time;
      last_error = "";
      published_at = no_time;
    })

abbrev pub no_bytes : List ℕ → Bool
no_bytes [] = true
no_bytes (_ ∷ _) = false

-- `RehydrateOutboxEvent`
unfoldable pub rehydrate_outbox_event : OutboxSnapshot → Result OutboxEvent
rehydrate_outbox_event s = do
  refuse_if (is_nil s.id || is_nil s.aggregate_id) (of_messaging MessagingError.missing_identifier)
  refuse_if (no_bytes s.payload || is_empty s.partition_key || is_empty s.event_type)
      (of_messaging MessagingError.missing_field)
  ok (record {
    id = s.id;
    aggregate_type = s.aggregate_type;
    aggregate_id = s.aggregate_id;
    event_type = s.event_type;
    event_version = s.event_version;
    correlation_id = s.correlation_id;
    causation_id = s.causation_id;
    partition_key = s.partition_key;
    payload = s.payload;
    occurred_at = s.occurred_at;
    attempts = s.attempts;
    next_attempt_at = s.next_attempt_at;
    locked_by = s.locked_by;
    locked_until = s.locked_until;
    last_error = s.last_error;
    published_at = s.published_at;
  })

abbrev pub is_published : OutboxEvent → Bool
is_published e = not (is_unset e.published_at)

pub record Receipt : Type 0 where
  pub id : Uuid
  pub owner : String
  pub generation : ℤ  -- int
  pub locked_until : Instant

abbrev pub receipt : OutboxEvent → Receipt
receipt e = record {
  id = e.id;
  owner = e.locked_by;
  generation = e.attempts;
  locked_until = e.locked_until;
}

-- `Receipt.LeaseValid`
abbrev pub lease_valid : Receipt → Instant → Bool
lease_valid r now =
    not (is_empty r.owner) && not (is_unset r.locked_until) && before now r.locked_until

-- `Outcome`; `unfinished` is the empty string.
pub data InboxOutcome : Type 0 where
  unfinished processed rejected pending_reference replay : InboxOutcome
  other : String → InboxOutcome

abbrev pub is_outcome : InboxOutcome → Bool
is_outcome unfinished = false
is_outcome (other _) = false
is_outcome _ = true

abbrev pub is_unfinished : InboxOutcome → Bool
is_unfinished unfinished = true
is_unfinished _ = false

pub record InboxMessage : Type 0 where
  pub consumer_name : String
  pub message_id : String
  pub payload_hash : String
  pub transaction_id : Uuid
  pub outcome : InboxOutcome
  pub received_at : Instant
  pub completed_at : Instant

unfoldable pub new_inbox_message : String → String → String → Instant → Result InboxMessage
new_inbox_message consumer_name message_id payload_hash received_at = do
  refuse_if (is_empty consumer_name || is_empty message_id)
      (of_messaging MessagingError.missing_field)
  refuse_if (not (is_payload_hash payload_hash)) (of_messaging MessagingError.missing_field)
  refuse_if (is_unset received_at) (of_messaging MessagingError.missing_timestamp)
  ok (record {
    consumer_name = consumer_name;
    message_id = message_id;
    payload_hash = payload_hash;
    transaction_id = nil_uuid;
    outcome = unfinished;
    received_at = received_at;
    completed_at = no_time;
  })

-- `RehydrateInboxMessage`; the snapshot has the fields of the message.
unfoldable pub rehydrate_inbox_message : InboxMessage → Result InboxMessage
rehydrate_inbox_message s = do
  refuse_if (is_empty s.consumer_name || is_empty s.message_id)
      (of_messaging MessagingError.missing_field)
  refuse_if (not (is_unfinished s.outcome) && not (is_outcome s.outcome))
      (of_messaging MessagingError.invalid_outcome)
  ok s

-- `Completed` and `SameContent`
abbrev pub is_completed : InboxMessage → Bool
is_completed m = not (is_unfinished m.outcome)

abbrev pub same_content : InboxMessage → String → Bool
same_content m payload_hash = str_eq m.payload_hash payload_hash
