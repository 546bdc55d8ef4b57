-- ===== src/Usecase/Process/Keeps.antt =====
-- The processing of an operation keeps the books sound.
use wagering_wallet_service.Base.{
  if◌then◌else◌, Result, Result-cases, err, ok, Uuid, Instant, InInt64, ℕ, String, ◌≡◌, refl, inl,
  inr, Bool, true, false, not, Option, none, some, List, arith, str_eq,
}
use wagering_wallet_service.Wallet.{Wallet}
use wagering_wallet_service.Wagering.Kind.{is_terminal}
use wagering_wallet_service.Wagering.Transaction.{
  Transaction, new_external, check_external, external_transaction,
}
use wagering_wallet_service.Wagering.Decision.{decide}
use wagering_wallet_service.Event.{Envelope}
use wagering_wallet_service.Messaging.{InboxMessage, same_content, is_completed}
use wagering_wallet_service.Store.{Store, Session, Tx, ◌>>=◌, pure_result, new_id}
use wagering_wallet_service.Store.Triple.{
  Keeps, bind-Triple, bind-Keeps, return-Keeps, fail-Keeps, pure_result-Keeps, query-Keeps,
  new_id-Keeps,
}
use wagering_wallet_service.Store.Books.{Sound, HasAmount}
use wagering_wallet_service.Store.Statements.{
  Found, insert-Sound, update-Sound, complete-Sound, message-Sound, wake-Sound,
}
use wagering_wallet_service.Store.Wallets
use wagering_wallet_service.Store.Transactions
use wagering_wallet_service.Usecase.Input.{
  ProcessWagerInput, ProcessWagerResult, from_queue, wager_command, wager_result,
}
use wagering_wallet_service.Usecase.Settlement.{Settled, resolve_reference, settle_as}
use wagering_wallet_service.Usecase.Settlement.Keeps.{
  Settles, settle_as-Settles, decided-Triple, locked-Triple, resolve_reference-Keeps,
}
use wagering_wallet_service.Usecase.Events.Keeps.{append_settlement_events-Keeps}
use wagering_wallet_service.Usecase.Process.{
  ProcessSettings, handled_before, known_message, look_up_message, register_inbox,
  register_when_queued, complete_inbox, replay_with, replay, wake_up_waiting, settle_locked,
  record_settlement, settle_inserted, process_unhandled, unless_handled, run, consumer_name,
  inbox_outcome_for,
}

if-Keeps {ℓ} :
    {A : Type ℓ} {I : Store → Type 0} (b : Bool) {m n : Tx A}
    → Keeps I m
    → Keeps I n
    → Keeps I (if b then m else n)
if-Keeps true first second = first
if-Keeps false first second = second

complete_inbox-Keeps :
    (input : ProcessWagerInput) (result : ProcessWagerResult) (now : Instant)
    → Keeps Sound (complete_inbox input result now)
unfolding complete_inbox
complete_inbox-Keeps input result now =
    if-Keeps (from_queue input)
      (complete-Sound consumer_name input.message_id (inbox_outcome_for result)
        result.transaction_id now)
      (return-Keeps tt)

known_message-Keeps :
    (raw_body_hash : String) (existing : Option InboxMessage)
    → Keeps Sound (known_message raw_body_hash existing)
unfolding known_message
known_message-Keeps raw_body_hash none = fail-Keeps _
known_message-Keeps raw_body_hash (some existing) =
    if-Keeps (not (same_content existing raw_body_hash)) (fail-Keeps _) (
      if-Keeps (not (is_completed existing)) (fail-Keeps _) (
        bind-Keeps (query-Keeps _) (λ settled.
          bind-Keeps (pure_result-Keeps (handled_before existing settled))
            (λ result. return-Keeps _))))

look_up_message-Keeps :
    (input : ProcessWagerInput) (inserted : Bool) → Keeps Sound (look_up_message input inserted)
unfolding look_up_message
look_up_message-Keeps input true = return-Keeps none
look_up_message-Keeps input false =
    bind-Keeps (query-Keeps _) (known_message-Keeps input.raw_body_hash)

register_when_queued-Keeps :
    (input : ProcessWagerInput) (received_at : Instant)
    → Keeps Sound (register_when_queued input received_at)
unfolding register_when_queued register_inbox
register_when_queued-Keeps input received_at =
    if-Keeps (from_queue input)
      (bind-Keeps (pure_result-Keeps _)
        (λ new. bind-Keeps (message-Sound new) (look_up_message-Keeps input)))
      (return-Keeps none)

replay_with-Keeps :
    (input : ProcessWagerInput) (payload_hash : String) (now : Instant)
    (existing : Option Transaction)
    → Keeps Sound (replay_with input payload_hash now existing)
unfolding replay_with
replay_with-Keeps input payload_hash now none = bind-Keeps (query-Keeps _) (λ reused. fail-Keeps _)
replay_with-Keeps input payload_hash now (some existing) =
    if-Keeps (not (str_eq existing.payload_hash payload_hash)) (fail-Keeps _) (
      bind-Keeps (complete_inbox-Keeps input (wager_result existing true) now)
        (λ _. return-Keeps _))

wake_up_waiting-Keeps :
    (operation : Transaction) (now : Instant) → Keeps Sound (wake_up_waiting operation now)
unfolding wake_up_waiting
wake_up_waiting-Keeps operation now =
    if-Keeps (not (is_terminal operation.status)) (return-Keeps tt) (
      bind-Keeps (wake-Sound operation.provider_id operation.external_transaction_id now)
        (λ awakened. return-Keeps tt))

-- A new operation has the amount of the input.
new_external-HasAmount :
    (input : ProcessWagerInput) (payload_hash : String) (key : Uuid) (now : Instant)
    (t : Transaction)
    → InInt64 input.amount.minor
    → new_external (wager_command input payload_hash) key now ≡ ok t
    → HasAmount t
unfolding new_external external_transaction
new_external-HasAmount input payload_hash key now t fits h =
    elim (Result-cases (check_external (wager_command input payload_hash) key now)) [
      | inl (u, passed) ↦ ground (arith, h, passed, fits)
      | inr (e, refused) ↦ absurd (ground (arith, h, refused))
    ]

-- What follows a value that was made may use how it was made.
made-Keeps {ℓ κ} :
    {A : Type ℓ} {B : Type κ} {I : Store → Type 0} (m : Result A) {f : A → Tx B}
    → ((a : A) → m ≡ ok a → Keeps I (f a))
    → Keeps I (pure_result m >>= f)
made-Keeps (ok a) follows = record { kept = (follows a refl).kept }
made-Keeps (err failure) follows = fail-Keeps failure

module _ (uuid_text : Uuid → String) (marshal : Envelope → Result (List ℕ)) (ids : ℕ → Uuid)
    (settings : ProcessSettings) where
  settle_locked-Settles :
      (now : Instant) (account : Wallet) (operation : Transaction)
      → HasAmount operation
      → Settles account (settle_locked uuid_text marshal ids settings now account operation)
  unfolding settle_locked
  settle_locked-Settles now account operation fits =
      bind-Triple (λ _ s. Sound s.store × Found account.id account s.store)
        (resolve_reference operation)
        (λ reference. do
          decision ← pure_result (decide (some account) (some operation) reference now)
          settle_as ids decision.outcome settings.reference_backoff settings.reference_ttl now
              decision account operation)
        (resolve_reference-Keeps (λ store. Sound store × Found account.id account store)
          operation).kept
        (λ reference.
          bind-Triple
            (λ d s.
              InInt64 d.movement.amount.minor × (Sound s.store × Found account.id account s.store))
            (pure_result (decide (some account) (some operation) reference now))
            (λ decision.
              settle_as ids decision.outcome settings.reference_backoff settings.reference_ttl now
                decision account operation)
            (decided-Triple (λ s. Sound s.store × Found account.id account s.store) account
              operation reference now fits)
            (λ decision s (moves, p).
              settle_as-Settles ids now decision account operation moves decision.outcome
                settings.reference_backoff settings.reference_ttl s p))

  record_settlement-Keeps :
      (input : ProcessWagerInput) (now : Instant) (settled : Settled)
      → Keeps Sound (record_settlement uuid_text marshal ids settings input now settled)
  unfolding record_settlement
  record_settlement-Keeps input now settled = bind-Keeps (update-Sound settled.operation) (λ _.
      bind-Keeps
        (append_settlement_events-Keeps uuid_text marshal ids now settled.operation settled.entry
          settled.account.balance)
        (λ _. bind-Keeps (wake_up_waiting-Keeps settled.operation now) (λ _.
          bind-Keeps (complete_inbox-Keeps input (wager_result settled.operation false) now)
            (λ _. return-Keeps _))))

  settle_inserted-Keeps :
      (input : ProcessWagerInput) (payload_hash : String) (now : Instant) (operation : Transaction)
      (inserted : Bool)
      → HasAmount operation
      → Keeps Sound
          (settle_inserted uuid_text marshal ids settings input payload_hash now operation inserted)
  unfolding settle_inserted replay
  settle_inserted-Keeps input payload_hash now operation false fits =
      bind-Keeps (query-Keeps _) (replay_with-Keeps input payload_hash now)
  settle_inserted-Keeps input payload_hash now operation true fits = record {
    kept =
        bind-Triple (λ w s. Sound s.store × Found w.id w s.store)
          (Wallets.find_for_update input.wallet_id)
          (λ account. do
            settled ← settle_locked uuid_text marshal ids settings now account operation
            record_settlement uuid_text marshal ids settings input now settled)
          (locked-Triple input.wallet_id)
          (λ account.
            bind-Triple (λ _ s. Sound s.store)
              (settle_locked uuid_text marshal ids settings now account operation)
              (record_settlement uuid_text marshal ids settings input now)
              (settle_locked-Settles now account operation fits)
              (λ settled. (record_settlement-Keeps input now settled).kept));
  }

  process_unhandled-Keeps :
      (input : ProcessWagerInput) (payload_hash : String) (now : Instant)
      → InInt64 input.amount.minor
      → Keeps Sound (process_unhandled uuid_text marshal ids settings input payload_hash now)
  unfolding process_unhandled
  process_unhandled-Keeps input payload_hash now fits =
      bind-Keeps {m = new_id ids}
        {f = λ key. do
          operation ← pure_result (new_external (wager_command input payload_hash) key now)
          inserted ← Transactions.insert operation
          settle_inserted uuid_text marshal ids settings input payload_hash now operation inserted}
        (new_id-Keeps ids)
        (λ key.
          made-Keeps (new_external (wager_command input payload_hash) key now) (λ operation made.
            let amount = new_external-HasAmount input payload_hash key now operation fits made in
            bind-Keeps (insert-Sound operation amount)
              (λ inserted. settle_inserted-Keeps input payload_hash now operation inserted amount)))

  unless_handled-Keeps :
      (input : ProcessWagerInput) (payload_hash : String) (now : Instant)
      (handled : Option ProcessWagerResult)
      → InInt64 input.amount.minor
      → Keeps Sound (unless_handled uuid_text marshal ids settings input payload_hash now handled)
  unless_handled-Keeps input payload_hash now none fits =
      process_unhandled-Keeps input payload_hash now fits
  unless_handled-Keeps input payload_hash now (some result) fits = return-Keeps result

  -- The processing of any input with an int64 amount, on any branch that succeeds, leaves the books
  -- sound when they were sound: every wallet's entries are still the history of its movements.
  pub run-Sound :
      (input : ProcessWagerInput) (payload_hash : String) (received_at now : Instant) (s : Session)
      {result : ProcessWagerResult} {s' : Session}
      → InInt64 input.amount.minor
      → Sound s.store
      → run uuid_text marshal ids settings input payload_hash received_at now s ≡ ok (result, s')
      → Sound s'.store
  unfolding run
  run-Sound input payload_hash received_at now s {result} {s'} fits sound h =
      (bind-Keeps (register_when_queued-Keeps input received_at)
          (λ handled. unless_handled-Keeps input payload_hash now handled fits)).kept
        s sound result s' h
