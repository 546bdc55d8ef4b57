-- ===== src/Usecase/Publish/Tests.antt =====
-- An event is published; a run of the publisher.
use wagering_wallet_service.Base.{no_time, pos, ℕ, ◌≡◌, refl, true, none, [], ◌∷◌, arith}
use wagering_wallet_service.Messaging.{OutboxEvent, receipt, lease_valid}
use wagering_wallet_service.Store.Outbox
use wagering_wallet_service.Store.UnitOfWork.{all_answered, Fate, committed}
use wagering_wallet_service.Usecase.Publish.{
  OutboxSettings, Turn, Publication, publish_success, deliver, execute,
}
use wagering_wallet_service.Usecase.Publish.Sent.{Accounted, execute-Accounted}
use wagering_wallet_service.Usecase.Publish.Answer.{Marked, deliver-Marked}

abbrev settings : OutboxSettings
settings = record {
  owner = "publisher";
  lease = 100;
  batch_size = 10;
  backoff_base = pos 10;
  backoff_max = pos 1000;
}

abbrev waiting : OutboxEvent
waiting = record {
  id = 7;
  aggregate_type = "transaction";
  aggregate_id = 8;
  event_type = "wager.processed";
  event_version = pos 1;
  correlation_id = "correlation";
  causation_id = "";
  partition_key = "wallet";
  payload = 123 ∷ [];
  occurred_at = 20;
  attempts = pos 0;
  next_attempt_at = 20;
  locked_by = "";
  locked_until = no_time;
  last_error = "";
  published_at = no_time;
}

abbrev leased_event : OutboxEvent
leased_event = Outbox.leased "publisher" 130 waiting

abbrev with_row : OutboxEvent → Publication
with_row e = record {
  session = record {
    store = record { wallets = []; transactions = []; ledger = []; outbox = e ∷ []; inbox = [] };
    drawn = 0;
  };
  accepted = [];
  counted = [];
}

abbrev fates : ℕ → Fate
fates k = record {
  begin = none;
  timeouts = none;
  statement = all_answered;
  commit = committed;
  interrupted = none;
}

abbrev good_turn : Turn
good_turn = record {
  interrupted = none;
  lease_clock = 40;
  send_error = none;
  now = 41;
  database_clock = 42;
  fates = fates;
}

abbrev published : Publication
published = record {
  session = (with_row (Outbox.published_row 41 leased_event)).session;
  accepted = leased_event ∷ [];
  counted = publish_success ∷ [];
}

delivered_run :
    deliver 3 settings good_turn leased_event (with_row leased_event) ≡ (true, published)
unfolding deliver Outbox.finish_in wagering_wallet_service.Base.◌+ℤ◌
delivered_run = refl

deliver_example :
    (lease_valid (receipt leased_event) 40 ≡ true)
    × (good_turn.send_error ≡ none)
    × (published.accepted ≡ leased_event ∷ [])
    × Marked good_turn
        (receipt leased_event)
        (with_row leased_event).session.store.outbox
        published.session.store.outbox
deliver_example =
    deliver-Marked 3 settings good_turn leased_event (with_row leased_event) published delivered_run

batch_run : (execute 3 settings 30 fates (λ k. good_turn) (with_row waiting)).0.1 ≡ 1
unfolding execute Outbox.claim_in wagering_wallet_service.Messaging.rehydrate_outbox_event
    Outbox.finish_in wagering_wallet_service.Base.◌+ℤ◌
batch_run = refl

batch_example : Accounted (execute 3 settings 30 fates (λ k. good_turn) (with_row waiting)).1
batch_example =
    execute-Accounted 3 settings 30 fates (λ k. good_turn) (with_row waiting)
      (λ published. absurd (ground (arith, published)), tt)
