-- ===== src/Http/Answers.antt =====
-- The bodies of the answers: internal/infrastructure/http/dto.go. A kind, a status, a direction and a
-- failure code stand for their texts, and an instant for its text; a missing member is `none`.
use wagering_wallet_service.Base.{
  if◌then◌else◌, Uuid, is_nil, Instant, is_unset, ℤ, is_empty, ℕ, String, Bool, Option, none, some,
  List, map,
}
use wagering_wallet_service.Money.{Money, is_valid}
use wagering_wallet_service.Wallet.{Wallet, LedgerEntry, Direction}
use wagering_wallet_service.Reconcile.{Reconciliation}
use wagering_wallet_service.Wagering.Kind.{Kind, Status, FailureCode, pending_reference, is_no_code}
use wagering_wallet_service.Wagering.Transaction.{Transaction}
use wagering_wallet_service.Usecase.Input.{ProcessWagerResult}
use wagering_wallet_service.Usecase.LedgerPage.{LedgerPage}

pub record WalletResponse : Type 0 where
  pub id : Uuid
  pub player_id : Uuid
  pub balance : Money
  pub version : ℤ
  pub created_at : Instant
  pub updated_at : Instant

-- `walletOf`
abbrev pub wallet_of : Wallet → WalletResponse
wallet_of w = record {
  id = w.id;
  player_id = w.player_id;
  balance = w.balance;
  version = w.version;
  created_at = w.created_at;
  updated_at = w.updated_at;
}

pub record LedgerEntryResponse : Type 0 where
  pub id : Uuid
  pub transaction_id : Uuid
  pub direction : Direction
  pub amount : Money
  pub balance_before : Money
  pub balance_after : Money
  pub wallet_version : ℤ
  pub created_at : Instant

pub record LedgerResponse : Type 0 where
  pub wallet_id : Uuid
  pub entries : List LedgerEntryResponse
  pub next_cursor : Option (List ℕ)

abbrev pub entry_of : LedgerEntry → LedgerEntryResponse
entry_of e = record {
  id = e.id;
  transaction_id = e.transaction_id;
  direction = e.direction;
  amount = e.amount;
  balance_before = e.balance_before;
  balance_after = e.balance_after;
  wallet_version = e.wallet_version;
  created_at = e.created_at;
}

-- `ledgerOf`
abbrev pub ledger_of : Uuid → LedgerPage → Option (List ℕ) → LedgerResponse
ledger_of wallet_id page next_cursor = record {
  wallet_id = wallet_id;
  entries = map entry_of page.entries;
  next_cursor = next_cursor;
}

-- `reconciliationOf`; the response has the fields of the report.
abbrev pub reconciliation_of : Reconciliation → Reconciliation
reconciliation_of report = report

-- `optional`
abbrev pub optional : String → Option String
optional value = if is_empty value then none else some value

abbrev pub optional_code : FailureCode → Option FailureCode
optional_code code = if is_no_code code then none else some code

abbrev pub optional_money : Money → Option Money
optional_money m = if is_valid m then some m else none

abbrev pub optional_id : Uuid → Option Uuid
optional_id id = if is_nil id then none else some id

-- `atOptional`
abbrev pub at_optional : Instant → Option Instant
at_optional moment = if is_unset moment then none else some moment

pub record ResultResponse : Type 0 where
  pub transaction_id : Uuid
  pub status : Status
  pub balance : Option Money
  pub failure_code : Option FailureCode
  pub idempotent_replay : Bool

-- `resultOf`
abbrev pub result_of : ProcessWagerResult → ResultResponse
result_of result = record {
  transaction_id = result.transaction_id;
  status = result.status;
  balance = optional_money result.balance;
  failure_code = optional_code result.failure_code;
  idempotent_replay = result.idempotent_replay;
}

pub record PendingReferenceResponse : Type 0 where
  pub attempts : ℤ
  pub next_attempt_at : Instant
  pub deadline_at : Instant

pub record TransactionResponse : Type 0 where
  pub transaction_id : Uuid
  pub provider_id : Option String
  pub external_transaction_id : Option String
  pub player_id : Uuid
  pub wallet_id : Uuid
  pub round_id : Option String
  pub game_id : Option String
  pub kind : Kind
  pub amount : Money
  pub reference_external_transaction_id : Option String
  pub reference_transaction_id : Option Uuid
  pub status : Status
  pub failure_code : Option FailureCode
  pub balance : Option Money
  pub pending_reference : Option PendingReferenceResponse
  pub created_at : Instant
  pub updated_at : Instant
  pub completed_at : Option Instant

abbrev pub pending_of : Transaction → Status → Option PendingReferenceResponse
pending_of t pending_reference = some (record {
  attempts = t.reference_attempts;
  next_attempt_at = t.next_attempt_at;
  deadline_at = t.reference_deadline_at;
})
pending_of t _ = none

-- `transactionOf`
abbrev pub transaction_of : Transaction → TransactionResponse
transaction_of t = record {
  transaction_id = t.id;
  provider_id = optional t.provider_id;
  external_transaction_id = optional t.external_transaction_id;
  player_id = t.player_id;
  wallet_id = t.wallet_id;
  round_id = optional t.round_id;
  game_id = optional t.game_id;
  kind = t.kind;
  amount = t.amount;
  reference_external_transaction_id = optional t.reference_external_id;
  reference_transaction_id = optional_id t.reference_transaction_id;
  status = t.status;
  failure_code = optional_code t.failure_code;
  balance = optional_money t.result_balance;
  pending_reference = pending_of t t.status;
  created_at = t.created_at;
  updated_at = t.updated_at;
  completed_at = at_optional t.completed_at;
}
