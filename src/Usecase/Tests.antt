-- ===== src/Usecase/Tests.antt =====
-- Runs of the use cases' shared steps.
use wagering_wallet_service.Wagering.Snapshot.{
  validate, transaction_of, validate_origin, check_snapshot, validate_schedule, validate_result,
  rehydrate,
}
use wagering_wallet_service.Base.{
  is_payload_hash, is_blank, ◌+ℤ◌, Result, ok, nil_uuid, no_time, ℤ, pos, ◌≡◌, refl, none, arith,
}
use wagering_wallet_service.Wagering.Transaction.{
  check_external, check_amount_policy, as_processed, Transaction,
}
use wagering_wallet_service.Money.{brl, no_money}
use wagering_wallet_service.Wallet.{Wallet, LedgerEntry, credit}
use wagering_wallet_service.Wagering.Kind.{Status, Kind, http, pending, no_code, win}
use wagering_wallet_service.Wagering.Snapshot.Stored.{snapshot_of, rehydrate-ok}
use wagering_wallet_service.Wagering.Decision.{process}
use wagering_wallet_service.Wagering.Decision.Grounds.{Case, unlinked}
use wagering_wallet_service.Usecase.Movement.{Applied, apply_financial_movement}
use wagering_wallet_service.Usecase.Movement.Settles.{apply_financial_movement_lem}
use wagering_wallet_service.Usecase.Backoff.{backoff, backoff_lem}

backoff_example : backoff (pos 1000) (pos 5000) (pos 2) ≡ pos 4000
backoff_example = backoff_lem 5000 1000 (pos 2) (ground arith) (ground arith)

abbrev operation_of : Kind → Transaction
operation_of kind = record {
  id = 7;
  origin = http;
  kind = kind;
  status = pending;
  wallet_id = 1;
  player_id = 2;
  amount = record { minor = pos 2000; currency = brl };
  provider_id = "provider";
  external_transaction_id = "bet-1";
  idempotency_key = "key-1";
  payload_hash = "0123456789abcdef0123456789abcdef0123456789abcdef0123456789abcdef";
  round_id = "round";
  game_id = "game";
  reference_external_id = "";
  reference_transaction_id = nil_uuid;
  failure_code = no_code;
  result_balance = no_money;
  reference_attempts = pos 0;
  next_attempt_at = no_time;
  reference_deadline_at = no_time;
  correlation_id = "correlation";
  created_at = 25;
  updated_at = 25;
  completed_at = no_time;
}

abbrev account : Wallet
account = record {
  id = 1;
  player_id = 2;
  balance = record { minor = pos 5000; currency = brl };
  version = pos 3;
  created_at = 10;
  updated_at = 20;
}

win_run : rehydrate (snapshot_of (operation_of win)) ≡ ok (operation_of win)
unfolding rehydrate check_snapshot snapshot_of validate validate_origin check_external is_blank
    is_payload_hash check_amount_policy validate_schedule validate_result transaction_of
win_run = refl

win-Case : Case account (operation_of win) none
win-Case = record {
  wallet = ground arith;
  storable = (rehydrate-ok (snapshot_of (operation_of win)) win_run).1;
  live = refl;
  fits = ground arith;
  same_wallet = refl;
  original = λ t reversed e. cc;
}

abbrev append : LedgerEntry → Result (Unit {0})
append e = ok tt

abbrev update : Wallet → ℤ → Result (Unit {0})
update w version = ok tt

abbrev won : Applied
won = record {
  entry = record {
    id = 8;
    wallet_id = 1;
    transaction_id = 7;
    direction = credit;
    amount = record { minor = pos 2000; currency = brl };
    balance_before = record { minor = pos 5000; currency = brl };
    balance_after = record { minor = pos 7000; currency = brl };
    wallet_version = pos 4;
    created_at = 30;
  };
  account = record account {
    balance = record { minor = pos 7000; currency = brl };
    version = pos 4;
    updated_at = 30;
  };
  operation = record (operation_of win) {
    status = Status.processed;
    result_balance = record { minor = pos 7000; currency = brl };
    updated_at = 30;
    completed_at = 30;
  };
}

movement_applied_example :
    apply_financial_movement append update 8 30
      (process credit (record { minor = pos 2000; currency = brl }) nil_uuid)
      account
      (operation_of win)
    ≡ ok won
unfolding ◌+ℤ◌ as_processed
movement_applied_example =
    apply_financial_movement_lem account (operation_of win) none win-Case append update (λ e. refl)
      (λ w version. refl) 8 30 nil_uuid refl refl (ground arith) (unlinked refl) refl refl credit
      refl (ground arith) refl
