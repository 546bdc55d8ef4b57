-- ===== src/Usecase/Scenario.antt =====
-- A run of the use cases: a wallet is opened, a bet is paid, a refund waits for its reference, and is
-- retried after its deadline.
use wagering_wallet_service.Store.UnitOfWork.{all_answered, Fate, unanswered, connection_lost}
use wagering_wallet_service.Usecase.Process.Execute.{execute_process, execute_process-Sound}
use mathlib.Core.Option.{none}
use wagering_wallet_service.Money
use wagering_wallet_service.Wallet
use wagering_wallet_service.Wagering.Transaction
use wagering_wallet_service.Wagering.Snapshot
use wagering_wallet_service.Wagering.Snapshot.Stored
use wagering_wallet_service.Usecase.Retry.Loop.{Round}
use wagering_wallet_service.Event
use wagering_wallet_service.Messaging
use wagering_wallet_service.Store.Wallets
use wagering_wallet_service.Store.Ledger
use wagering_wallet_service.Store.Transactions
use wagering_wallet_service.Store.Outbox
use wagering_wallet_service.Usecase.Process
use wagering_wallet_service.Usecase.Retry
use wagering_wallet_service.Usecase.OpenWallet
use wagering_wallet_service.Reconcile.{Reconciliation, reconcile}
use wagering_wallet_service.Store.Reconciled.{reconcile-Sound}
use wagering_wallet_service.Wagering.Transaction.{Transaction, new_external}
use wagering_wallet_service.Usecase.Process.Replay.{run-replay}
use wagering_wallet_service.Usecase.Input.{
  wager_command, wager_result, ProcessWagerResult, ProcessWagerInput,
}
use wagering_wallet_service.Base.{
  no_time, some, find, str_eq, idempotency_conflict, if◌then◌else◌, true, length, is_blank,
  is_payload_hash, ◌+ℤ◌, ◌-ℤ◌, wrap64, Result, err, ok, Uuid, pos, ℕ, ◌+◌, String, ◌≡◌, refl, List,
  [], ◌∷◌, nil_uuid, false, arith,
}
use wagering_wallet_service.Money.{brl, no_money}
use wagering_wallet_service.Wallet.{Wallet}
use wagering_wallet_service.Wagering.Kind.{Kind, http, bet, refund, Status, FailureCode}
use wagering_wallet_service.Messaging.{InboxOutcome}
use wagering_wallet_service.Store.Books.{Sound}
use wagering_wallet_service.Usecase.Process.{ProcessSettings, run}
use wagering_wallet_service.Usecase.Process.Keeps.{run-Sound}
use wagering_wallet_service.Usecase.Retry.{ReferenceSettings, attempt}
use wagering_wallet_service.Usecase.Retry.Keeps.{attempt-Sound}
use wagering_wallet_service.Usecase.OpenWallet.Keeps.{create_wallet-Sound}
use wagering_wallet_service.Event.{Envelope}
use wagering_wallet_service.Store.{Session}
use wagering_wallet_service.Usecase.OpenWallet.{OpenWalletInput, create_wallet}

abbrev uuid_text : Uuid → String
uuid_text _ = "id"

abbrev marshal : Envelope → Result (List ℕ)
marshal _ = ok (1 ∷ [])

abbrev ids : ℕ → Uuid
ids n = n + 1

abbrev no_rows : Session
no_rows = record {
  store = record { wallets = []; transactions = []; ledger = []; outbox = []; inbox = [] };
  drawn = 0;
}

-- The session after a run that succeeded.
abbrev after_run {ℓ} : {A : Type ℓ} → Result (A × Session) → Session
after_run (ok (_, s)) = s
after_run (err _) = no_rows

abbrev opening : OpenWalletInput
opening = record {
  player_id = 50;
  initial_balance = record { minor = pos 5000; currency = brl };
  correlation_id = "correlation";
}

abbrev opened_wallet : Wallet
opened_wallet = record {
  id = 1;
  player_id = 50;
  balance = record { minor = pos 5000; currency = brl };
  version = pos 1;
  created_at = 10;
  updated_at = 10;
}

abbrev opened : Session
opened = after_run (create_wallet uuid_text marshal ids opening 90 10 no_rows)

open_run : create_wallet uuid_text marshal ids opening 90 10 no_rows ≡ ok (opened_wallet, opened)
unfolding Money.zero_of Money.add Wallet.apply_direction Wallet.new_ledger_entry Wallet.open_wallet
    Transaction.check_opening Transaction.opening_transaction Transaction.new_opening
    Event.new_processed Event.new_balance_changed Messaging.new_outbox_event Wallets.create_in
    Ledger.append_in Transactions.insert_in Outbox.append_in OpenWallet.create_wallet is_blank ◌+ℤ◌
    wrap64
open_run = refl

abbrev input_of : Kind → String → String → ProcessWagerInput
input_of kind name reference = record {
  origin = http;
  provider_id = "provider";
  external_transaction_id = name;
  idempotency_key = name;
  player_id = 50;
  wallet_id = 1;
  round_id = "round";
  game_id = "game";
  kind = kind;
  amount = record { minor = pos 2000; currency = brl };
  reference_external_id = reference;
  correlation_id = "correlation";
  message_id = "";
  raw_body_hash = "";
}

abbrev settings : ProcessSettings
settings = record { reference_backoff = 5; reference_ttl = 100 }

abbrev payload_hash : String
payload_hash = "0123456789abcdef0123456789abcdef0123456789abcdef0123456789abcdef"

abbrev result_of {ℓ} : {A : Type ℓ} → A → Result (A × Session) → A
result_of other (ok (a, _)) = a
result_of other (err _) = other

abbrev no_result : ProcessWagerResult
no_result = record {
  transaction_id = nil_uuid;
  status = Status.pending;
  balance = record { minor = pos 0; currency = brl };
  failure_code = FailureCode.no_code;
  idempotent_replay = false;
  inbox_outcome = InboxOutcome.unfinished;
}

abbrev paid : Session
paid =
    after_run
      (run uuid_text marshal ids settings (input_of bet "bet-1" "") payload_hash 20 20 opened)

abbrev paid_result : ProcessWagerResult
paid_result = record no_result {
  transaction_id = 5;
  status = Status.processed;
  balance = record { minor = pos 3000; currency = brl };
}

pay_run :
    run uuid_text marshal ids settings (input_of bet "bet-1" "") payload_hash 20 20 opened
    ≡ ok (paid_result, paid)
unfolding Money.zero_of Money.add Money.sub Money.cmp Wallet.apply_direction Wallet.new_ledger_entry
    Wallet.open_wallet Wallet.rehydrate Transaction.check_amount_policy Transaction.check_external
    Transaction.external_transaction Transaction.new_external Transaction.check_opening
    Transaction.opening_transaction Transaction.new_opening Transaction.check_processed
    Transaction.as_processed Event.new_processed Event.new_balance_changed
    Messaging.new_outbox_event Wallets.create_in Wallets.find_one Wallets.update_in Ledger.append_in
    Transactions.insert_in Transactions.update_in Transactions.wake_in Outbox.append_in Process.run
    OpenWallet.create_wallet is_blank is_payload_hash ◌+ℤ◌ ◌-ℤ◌ wrap64
pay_run = refl

abbrev parked : Session
parked = after_run (
    run uuid_text marshal ids settings (input_of refund "refund-1" "bet-2") payload_hash 30 30 paid)

abbrev parked_result : ProcessWagerResult
parked_result = record no_result {
  transaction_id = 9;
  status = Status.pending_reference;
  balance = no_money;
}

park_run :
    run uuid_text marshal ids settings (input_of refund "refund-1" "bet-2") payload_hash 30 30 paid
    ≡ ok (parked_result, parked)
unfolding Transaction.check_pending_reference Transaction.as_pending_reference
    Event.new_pending_reference Transactions.find_one Money.zero_of Money.add Money.sub Money.cmp
    Wallet.apply_direction Wallet.new_ledger_entry Wallet.open_wallet Wallet.rehydrate
    Transaction.check_amount_policy Transaction.check_external Transaction.external_transaction
    Transaction.new_external Transaction.check_opening Transaction.opening_transaction
    Transaction.new_opening Transaction.check_processed Transaction.as_processed Event.new_processed
    Event.new_balance_changed Messaging.new_outbox_event Wallets.create_in Wallets.find_one
    Wallets.update_in Ledger.append_in Transactions.insert_in Transactions.update_in
    Transactions.wake_in Outbox.append_in Process.run OpenWallet.create_wallet is_blank
    is_payload_hash ◌+ℤ◌ ◌-ℤ◌ wrap64
park_run = refl

abbrev references : ReferenceSettings
references = record { backoff_base = pos 5; backoff_max = pos 50; batch_size = 10 }

-- Long after the deadline the attempt rejects the refund.
abbrev rejected : Session
rejected = after_run (attempt uuid_text marshal ids references 200 parked)

retry_run : attempt uuid_text marshal ids references 200 parked ≡ ok (9, rejected)
unfolding Transaction.check_rejected Transaction.as_rejected Transaction.check_pending_reference
    Transaction.as_pending_reference Snapshot.validate_origin Snapshot.validate_schedule
    Snapshot.validate_result Snapshot.validate Snapshot.transaction_of Snapshot.check_snapshot
    Snapshot.rehydrate Stored.snapshot_of Event.new_rejected Event.new_pending_reference
    Transactions.find_one Transactions.due_in Retry.attempt Money.zero_of Money.add Money.sub
    Money.cmp Wallet.apply_direction Wallet.new_ledger_entry Wallet.open_wallet Wallet.rehydrate
    Transaction.check_amount_policy Transaction.check_external Transaction.external_transaction
    Transaction.new_external Transaction.check_opening Transaction.opening_transaction
    Transaction.new_opening Transaction.check_processed Transaction.as_processed Event.new_processed
    Event.new_balance_changed Messaging.new_outbox_event Wallets.create_in Wallets.find_one
    Wallets.update_in Ledger.append_in Transactions.insert_in Transactions.update_in
    Transactions.wake_in Outbox.append_in Process.run OpenWallet.create_wallet is_blank
    is_payload_hash ◌+ℤ◌ ◌-ℤ◌ wrap64
retry_run = refl

opened-Sound : Sound opened.store
opened-Sound =
    create_wallet-Sound uuid_text marshal ids opening 90 10 no_rows (omega arith, omega arith)
      ((λ id. refl), tt) open_run

paid-Sound : Sound paid.store
paid-Sound =
    run-Sound uuid_text marshal ids settings (input_of bet "bet-1" "") payload_hash 20 20 opened
      (omega arith, omega arith) opened-Sound pay_run

parked-Sound : Sound parked.store
parked-Sound =
    run-Sound uuid_text marshal ids settings (input_of refund "refund-1" "bet-2") payload_hash 30 30
      paid (omega arith, omega arith) paid-Sound park_run

open_example : Sound opened.store
open_example =
    create_wallet-Sound uuid_text marshal ids opening 90 10 no_rows (omega arith, omega arith)
      ((λ id. refl), tt) open_run

pay_example : Sound paid.store
pay_example =
    run-Sound uuid_text marshal ids settings (input_of bet "bet-1" "") payload_hash 20 20 opened
      (omega arith, omega arith) opened-Sound pay_run

retry_example : Sound rejected.store
retry_example = attempt-Sound uuid_text marshal ids references 200 parked parked-Sound retry_run

abbrev paid_wallet : Wallet
paid_wallet = record opened_wallet {
  balance = record { minor = pos 3000; currency = brl };
  version = pos 2;
  updated_at = 20;
}

paid_found : find (Wallets.has_id paid_wallet.id) paid.store.wallets ≡ some paid_wallet
unfolding Money.zero_of Money.add Wallet.apply_direction Wallet.new_ledger_entry Wallet.open_wallet
    Transaction.check_opening Transaction.opening_transaction Transaction.new_opening
    Event.new_processed Event.new_balance_changed Messaging.new_outbox_event Wallets.create_in
    Ledger.append_in Transactions.insert_in Outbox.append_in OpenWallet.create_wallet is_blank ◌+ℤ◌
    wrap64 Money.sub Money.cmp Wallet.rehydrate Transaction.check_amount_policy
    Transaction.check_external Transaction.external_transaction Transaction.new_external
    Transaction.check_processed Transaction.as_processed Wallets.find_one Wallets.update_in
    Transactions.update_in Transactions.wake_in Process.run is_payload_hash ◌-ℤ◌
paid_found = refl

reconcile-Sound_example :
    (report : Reconciliation) × (reconcile paid_wallet paid.store.ledger ≡ ok report)
    × (report.consistent ≡ true)
    × (report.difference.minor ≡ pos 0)
    × (report.calculated_balance ≡ paid_wallet.balance)
    × (report.checked_entries ≡ length (Ledger.entries_of paid_wallet.id paid.store.ledger))
reconcile-Sound_example = reconcile-Sound paid.store paid_wallet paid-Sound paid_found

-- The bet is sent again.
abbrev resent : Transaction
resent = record {
  id = 9;
  origin = http;
  kind = bet;
  status = Status.pending;
  wallet_id = 1;
  player_id = 50;
  amount = record { minor = pos 2000; currency = brl };
  provider_id = "provider";
  external_transaction_id = "bet-1";
  idempotency_key = "bet-1";
  payload_hash = payload_hash;
  round_id = "round";
  game_id = "game";
  reference_external_id = "";
  reference_transaction_id = nil_uuid;
  failure_code = FailureCode.no_code;
  result_balance = no_money;
  reference_attempts = pos 0;
  next_attempt_at = no_time;
  reference_deadline_at = no_time;
  correlation_id = "correlation";
  created_at = 40;
  updated_at = 40;
  completed_at = no_time;
}

abbrev stored_bet : Transaction
stored_bet = record resent {
  id = 5;
  status = Status.processed;
  result_balance = record { minor = pos 3000; currency = brl };
  created_at = 20;
  updated_at = 20;
  completed_at = 20;
}

resent_made :
    new_external (wager_command (input_of bet "bet-1" "") payload_hash) (ids paid.drawn) 40
    ≡ ok resent
unfolding Money.zero_of Money.add Money.sub Money.cmp Wallet.apply_direction Wallet.new_ledger_entry
    Wallet.open_wallet Wallet.rehydrate Transaction.check_amount_policy Transaction.check_external
    Transaction.external_transaction Transaction.new_external Transaction.check_opening
    Transaction.opening_transaction Transaction.new_opening Transaction.check_processed
    Transaction.as_processed Event.new_processed Event.new_balance_changed
    Messaging.new_outbox_event Wallets.create_in Wallets.find_one Wallets.update_in Ledger.append_in
    Transactions.insert_in Transactions.update_in Transactions.wake_in Outbox.append_in Process.run
    OpenWallet.create_wallet is_blank is_payload_hash ◌+ℤ◌ ◌-ℤ◌ wrap64
resent_made = refl

bet_known :
    Transactions.find_one (Transactions.by_key "provider" "bet-1") paid.store ≡ ok (some stored_bet)
unfolding Snapshot.validate_origin Snapshot.validate_schedule Snapshot.validate_result
    Snapshot.validate Snapshot.transaction_of Snapshot.check_snapshot Snapshot.rehydrate
    Stored.snapshot_of Transactions.find_one Money.zero_of Money.add Money.sub Money.cmp
    Wallet.apply_direction Wallet.new_ledger_entry Wallet.open_wallet Wallet.rehydrate
    Transaction.check_amount_policy Transaction.check_external Transaction.external_transaction
    Transaction.new_external Transaction.check_opening Transaction.opening_transaction
    Transaction.new_opening Transaction.check_processed Transaction.as_processed Event.new_processed
    Event.new_balance_changed Messaging.new_outbox_event Wallets.create_in Wallets.find_one
    Wallets.update_in Ledger.append_in Transactions.insert_in Transactions.update_in
    Transactions.wake_in Outbox.append_in Process.run OpenWallet.create_wallet is_blank
    is_payload_hash ◌+ℤ◌ ◌-ℤ◌ wrap64
bet_known = refl

replay_example :
    run uuid_text marshal ids settings (input_of bet "bet-1" "") payload_hash 40 40 paid ≡ (
      if str_eq stored_bet.payload_hash payload_hash
      then ok (wager_result stored_bet true, record paid { drawn = paid.drawn + 1 })
      else err (idempotency_conflict stored_bet.id))
replay_example =
    run-replay uuid_text marshal ids settings (input_of bet "bet-1" "") payload_hash 40 40 paid
      resent stored_bet refl resent_made bet_known

-- A commit that is applied and whose answer is lost.
abbrev lost : ℕ → Fate
lost _ = record {
  begin = none;
  timeouts = none;
  statement = all_answered;
  commit = unanswered connection_lost true;
  interrupted = none;
}

execute_example :
    Sound
      (execute_process uuid_text marshal ids settings
        (λ _. [])
        (λ _. ok payload_hash)
        3
        lost
        (input_of bet "bet-1" "")
        20
        20
        opened).session.store
execute_example =
    execute_process-Sound uuid_text marshal ids settings (λ _. []) (λ _. ok payload_hash) 3 lost
      (input_of bet "bet-1" "") 20 20 opened (omega arith, omega arith) opened-Sound

abbrev quiet_round : Round
quiet_round = record {
  interrupted = none;
  now = 200;
  fates = lost;
  give_up_now = 201;
  give_up_fates = lost;
}
