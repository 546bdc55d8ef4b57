-- ===== src/Reconcile.antt =====
-- The ledger's totals and the report that compares them with a stored balance: the query `Totals` of
-- internal/infrastructure/postgres/repositories/ledger_repository_sql.go and
-- internal/application/mapper/reconciliation_mapper.go.
pub mod History
pub mod Agreement
mod Tests
use wagering_wallet_service.Base.{
  transient, ◌==◌, if◌then◌else◌, Result, ◌>>=◌, ◌>>◌, refuse_if, of_repository, ok, Uuid, ℤ, pos,
  in_int64, ◌+ℤ◌, ◌-ℤ◌, ℕ, ◌+◌, Bool, not, List, [], ◌∷◌,
}
use wagering_wallet_service.Money
use wagering_wallet_service.Money.{Money, Currency, is_zero, from_minor}
use wagering_wallet_service.Wallet.{credit, LedgerEntry, Wallet}

-- `CASE direction WHEN 'CREDIT' THEN amount_minor ELSE -amount_minor END`
abbrev pub signed_amount : LedgerEntry → ℤ
signed_amount e = elim e.direction [ credit ↦ e.amount.minor | _ ↦ pos 0 -ℤ e.amount.minor ]

-- `COALESCE(SUM(…), 0)` over the rows of one wallet; SQL sums BIGINT exactly.
unfoldable pub sum_of : Uuid → List LedgerEntry → ℤ
sum_of wallet_id [] = pos 0
sum_of wallet_id (e ∷ ledger) =
    let rest = sum_of wallet_id ledger in
    if e.wallet_id == wallet_id then rest +ℤ signed_amount e else rest

-- `COUNT(*)` over the rows of one wallet.
unfoldable pub count_of : Uuid → List LedgerEntry → ℕ
count_of wallet_id [] = 0
count_of wallet_id (e ∷ ledger) =
    let rest = count_of wallet_id ledger in if e.wallet_id == wallet_id then rest + 1 else rest

pub record LedgerTotals : Type 0 where
  pub balance : Money
  pub entries : ℕ

-- `Totals`; a sum outside int64 cannot be scanned, an unexpected driver error.
unfoldable pub totals : Uuid → Currency → List LedgerEntry → Result LedgerTotals
unfolding sum_of count_of from_minor
totals wallet_id currency ledger = do
  refuse_if (not (in_int64 (sum_of wallet_id ledger))) (of_repository transient)
  balance ← from_minor (sum_of wallet_id ledger) currency
  ok (record { balance = balance; entries = count_of wallet_id ledger })

pub record Reconciliation : Type 0 where
  pub wallet_id : Uuid
  pub stored_balance : Money
  pub calculated_balance : Money
  pub difference : Money
  pub consistent : Bool
  pub checked_entries : ℕ

-- The mapper `Reconciliation`.
unfoldable pub reconciliation : Wallet → LedgerTotals → Result Reconciliation
reconciliation account t = do
  difference ← Money.sub account.balance t.balance
  ok (record {
    wallet_id = account.id;
    stored_balance = account.balance;
    calculated_balance = t.balance;
    difference = difference;
    consistent = is_zero difference;
    checked_entries = t.entries;
  })

-- The steps of `ReconcileWallet.Execute` on a wallet that was found.
unfoldable pub reconcile : Wallet → List LedgerEntry → Result Reconciliation
unfolding totals reconciliation
reconcile account ledger = do
  t ← totals account.id account.balance.currency ledger
  reconciliation account t
