-- ===== src/Wagering/Tests.antt =====
-- Runs of the operations' code on concrete inputs.
use wagering_wallet_service.Wagering.Snapshot.{validate_schedule}
use wagering_wallet_service.Wagering.Snapshot.{check_snapshot}
use wagering_wallet_service.Wagering.Transaction.{external_transaction}
use wagering_wallet_service.Wagering.Snapshot.{validate}
use wagering_wallet_service.Base.{is_blank}
use wagering_wallet_service.Base.{is_payload_hash}
use wagering_wallet_service.Wagering.Snapshot.{validate_origin}
use wagering_wallet_service.Wagering.Transaction.{check_amount_policy}
use wagering_wallet_service.Wagering.Snapshot.{transaction_of}
use wagering_wallet_service.Wagering.Snapshot.{validate_result}
use wagering_wallet_service.Wagering.Transaction.{check_processed}
use wagering_wallet_service.Wagering.Transaction.{as_processed}
use wagering_wallet_service.Wagering.Transaction.{check_external}
use wagering_wallet_service.Base.{
  Failure, ok, err, nil_uuid, no_time, pos, String, ◌≡◌, refl, none, some, [], ◌∷◌, arith,
}
use wagering_wallet_service.Money.{Money, brl, no_money}
use wagering_wallet_service.Wallet.{Wallet}
use wagering_wallet_service.Wagering.Kind.{bet, http, pending, processed, no_code}
use wagering_wallet_service.Wagering.Transaction.{
  Transaction, Command, new_external, mark_processed,
}
use wagering_wallet_service.Wagering.Transaction.Lifecycle.{
  processing, waiting, failing, run, run_all, Edge, SameOperation, run_lem, run_all-terminal,
}
use wagering_wallet_service.Wagering.Snapshot.{rehydrate}
use wagering_wallet_service.Wagering.Snapshot.Stored.{IsStorable, snapshot_of, rehydrate-ok}
use wagering_wallet_service.Wagering.Snapshot.Reachable.{
  Reachable, Reachable-IsStorable, rehydrate-Reachable, external, marked_processed,
}
use wagering_wallet_service.Wagering.Decision.{decide}
use wagering_wallet_service.Wagering.Decision.Grounds.{Case, Justified}
use wagering_wallet_service.Wagering.Decision.Rules.{decide-Grounded}

abbrev hash : String
hash = "0123456789abcdef0123456789abcdef0123456789abcdef0123456789abcdef"

abbrev bet_command : Command
bet_command = record {
  origin = http;
  kind = bet;
  provider_id = "provider";
  external_transaction_id = "bet-1";
  idempotency_key = "key-1";
  payload_hash = hash;
  player_id = 2;
  wallet_id = 1;
  round_id = "round";
  game_id = "game";
  amount = record { minor = pos 2000; currency = brl };
  reference_external_id = "";
  correlation_id = "correlation";
}

abbrev placed : Transaction
placed = record {
  id = 7;
  origin = http;
  kind = bet;
  status = pending;
  wallet_id = 1;
  player_id = 2;
  amount = record { minor = pos 2000; currency = brl };
  provider_id = "provider";
  external_transaction_id = "bet-1";
  idempotency_key = "key-1";
  payload_hash = hash;
  round_id = "round";
  game_id = "game";
  reference_external_id = "";
  reference_transaction_id = nil_uuid;
  failure_code = no_code;
  result_balance = no_money;
  reference_attempts = pos 0;
  next_attempt_at = no_time;
  reference_deadline_at = no_time;
  correlation_id = "correlation";
  created_at = 25;
  updated_at = 25;
  completed_at = no_time;
}

new_external_run : new_external bet_command 7 25 ≡ ok placed
unfolding new_external check_external is_blank is_payload_hash check_amount_policy
    external_transaction
new_external_run = refl

abbrev after_bet : Money
after_bet = record { minor = pos 3000; currency = brl }

abbrev settled : Transaction
settled = record placed {
  status = processed;
  result_balance = after_bet;
  updated_at = 30;
  completed_at = 30;
}

mark_processed_run : mark_processed after_bet nil_uuid 30 placed ≡ (ok tt, settled)
unfolding mark_processed check_processed as_processed
mark_processed_run = refl

reachable : Reachable ((mark_processed after_bet nil_uuid 30 placed).1)
reachable =
    marked_processed after_bet nil_uuid 30 placed (external bet_command 7 25 new_external_run)

rehydrate-Reachable_example :
    rehydrate (snapshot_of ((mark_processed after_bet nil_uuid 30 placed).1))
    ≡ ok ((mark_processed after_bet nil_uuid 30 placed).1)
rehydrate-Reachable_example =
    rehydrate-Reachable ((mark_processed after_bet nil_uuid 30 placed).1) reachable

rehydrate_run : rehydrate (snapshot_of settled) ≡ ok settled
unfolding rehydrate check_snapshot snapshot_of validate validate_origin check_external is_blank
    is_payload_hash check_amount_policy validate_schedule validate_result transaction_of
rehydrate_run = refl

rehydrate-ok_example : (snapshot_of settled ≡ snapshot_of settled) × IsStorable settled
rehydrate-ok_example = rehydrate-ok (snapshot_of settled) rehydrate_run

run_example :
    ((run (processing after_bet nil_uuid 30) placed).0 ≡ ok tt
      → Edge bet pending ((run (processing after_bet nil_uuid 30) placed).1.status)
        × SameOperation placed ((run (processing after_bet nil_uuid 30) placed).1))
    × ((e : Failure)
        → (run (processing after_bet nil_uuid 30) placed).0 ≡ err e
        → (run (processing after_bet nil_uuid 30) placed).1 ≡ placed)
run_example = run_lem (processing after_bet nil_uuid 30) placed

run_all_example :
    run_all (failing 40 ∷ processing after_bet 9 50 ∷ waiting 60 70 55 ∷ []) settled ≡ settled
run_all_example =
    run_all-terminal (failing 40 ∷ processing after_bet 9 50 ∷ waiting 60 70 55 ∷ []) settled refl

abbrev account : Wallet
account = record {
  id = 1;
  player_id = 2;
  balance = record { minor = pos 5000; currency = brl };
  version = pos 3;
  created_at = 10;
  updated_at = 20;
}

placed-IsStorable : IsStorable placed
placed-IsStorable = Reachable-IsStorable placed (external bet_command 7 25 new_external_run)

bet-Case : Case account placed none
bet-Case = record {
  wallet = ground arith;
  storable = placed-IsStorable;
  live = refl;
  fits = ground arith;
  same_wallet = refl;
  original = λ t reversed e. cc;
}

decide_example : Justified account placed none 30 (decide (some account) (some placed) none 30)
decide_example = decide-Grounded account placed none 30 bet-Case
