-- ===== src/Store/Outbox/Life.antt =====
-- The life of the rows of the outbox, from the envelope that each was made of.
use wagering_wallet_service.Base.{
  Result, ok, Uuid, is_nil, Instant, Duration, ℕ, String, ◌≡◌, Bool, false, List, [],
}
use wagering_wallet_service.Event.{Envelope, event_text, aggregate_text}
use wagering_wallet_service.Messaging.{OutboxEvent, Receipt, new_outbox_event}
use wagering_wallet_service.Store.{Store}
use wagering_wallet_service.Store.Outbox.{append_in, claim_in, finish_in, published_row, failed_row}

module _ (uuid_text : Uuid → String) (marshal : Envelope → Result (List ℕ)) where
  -- A row that is the event of the envelope.
  pub record Carries (envelope : Envelope) (row : OutboxEvent) : Type 0 where
    pub key : Uuid
    pub id : row.id ≡ envelope.event_id
    pub on : row.aggregate_type ≡ aggregate_text envelope.aggregate_type
    pub aggregate : row.aggregate_id ≡ envelope.aggregate_id
    pub typed : row.event_type ≡ event_text envelope.event_type
    pub correlation : row.correlation_id ≡ envelope.correlation_id
    pub causation : row.causation_id ≡ envelope.causation_id
    pub keyed : row.partition_key ≡ uuid_text key
    pub encoded : marshal envelope ≡ ok row.payload
    pub occurred : row.occurred_at ≡ envelope.occurred_at
    pub named : is_nil envelope.event_id ≡ false
    pub placed : is_nil envelope.aggregate_id ≡ false

  abbrev pub Carried : OutboxEvent → Type 0
  Carried row = (envelope : Envelope) × Carries envelope row

  -- The tables that appends of new events, claims and the ends of claims lead to.
  pub data Reached : Store → Type 0 where
    unused : (store : Store) → store.outbox ≡ [] → Reached store
    appended :
        (envelope : Envelope) (key : Uuid) (now : Instant) (new : OutboxEvent) (store after : Store)
        → Reached store
        → is_nil envelope.event_id ≡ false
        → is_nil envelope.aggregate_id ≡ false
        → new_outbox_event uuid_text marshal envelope key now ≡ ok new
        → append_in new store ≡ ok (tt, after)
        → Reached after
    claimed :
        (owner : String) (now : Instant) (lease : Duration) (limit : ℕ) (events : List OutboxEvent)
        (store after : Store)
        → Reached store
        → claim_in owner now lease limit store ≡ ok (events, after)
        → Reached after
    published :
        (r : Receipt) (moment clock : Instant) (marked : Bool) (store after : Store)
        → Reached store
        → finish_in (published_row moment) r clock store ≡ ok (marked, after)
        → Reached after
    failed :
        (r : Receipt) (next clock : Instant) (reason : String) (marked : Bool) (store after : Store)
        → Reached store
        → finish_in (failed_row next reason) r clock store ≡ ok (marked, after)
        → Reached after
