-- ===== src/Usecase/Find.antt =====
-- The reading use cases: internal/application/usecase/find_wallet.go, find_wager_transaction.go, and
-- the reading transaction that list_wallet_ledger.go and reconcile_wallet.go run. What the database
-- answers is an argument; nothing is written.
use wagering_wallet_service.Base.{
  WalletError, WageringError, Failure, Result, of_wallet, of_wagering, err, ok, Uuid, String,
  Option, none, some,
}
use wagering_wallet_service.Wallet.{Wallet}
use wagering_wallet_service.Wagering.Transaction.{Transaction}
use wagering_wallet_service.Store.{Session, Tx}
use wagering_wallet_service.Store.Wallets
use wagering_wallet_service.Store.Transactions
use wagering_wallet_service.Store.UnitOfWork.{Fate, run}

-- `UnitOfWork.Read`: one attempt.
unfoldable pub read_work {ℓ} : {A : Type ℓ} → Fate → Tx A → Session → Result A
unfolding run
read_work fate body s = (run fate body s).answer

-- The error for what is not found.
abbrev pub found_or {ℓ} : {A : Type ℓ} → Failure → Result (Option A) → Result A
found_or missing (err e) = err e
found_or missing (ok none) = err missing
found_or missing (ok (some a)) = ok a

-- `findWallet.Execute`
unfoldable pub find_wallet : Fate → Uuid → Session → Result Wallet
unfolding read_work
find_wallet fate wallet_id s =
    found_or (of_wallet WalletError.not_found) (read_work fate (Wallets.find_by_id wallet_id) s)

-- `findWagerTransaction.read`
unfoldable pub read_transaction : Fate → Tx (Option Transaction) → Session → Result Transaction
unfolding read_work
read_transaction fate query s =
    found_or (of_wagering WageringError.not_found) (read_work fate query s)

-- `ByID`
unfoldable pub transaction_by_id : Fate → Uuid → Session → Result Transaction
unfolding read_transaction
transaction_by_id fate transaction_id s =
    read_transaction fate (Transactions.find_by_id transaction_id) s

-- `ByExternalID`
unfoldable pub transaction_by_external_id : Fate → String → String → Session → Result Transaction
unfolding read_transaction
transaction_by_external_id fate provider_id external_transaction_id s =
    read_transaction fate (Transactions.find_by_external_id provider_id external_transaction_id) s
