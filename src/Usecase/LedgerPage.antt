-- ===== src/Usecase/LedgerPage.antt =====
-- The pages of a ledger: internal/application/mapper/ledger_page_mapper.go and the transaction of
-- internal/application/usecase/list_wallet_ledger.go.
pub mod Cursor
mod Tests
use wagering_wallet_service.Base.{
  ltb, if◌then◌else◌, Uuid, take, ℤ, pos, length, ℕ, ◌+◌, Bool, true, false, List, [], ◌∷◌,
}
use wagering_wallet_service.Wallet.{Wallet, LedgerEntry}
use wagering_wallet_service.Store.{Session, Tx, ◌>>=◌, return}
use wagering_wallet_service.Store.Wallets
use wagering_wallet_service.Store.Ledger

pub record LedgerPage : Type 0 where
  pub entries : List LedgerEntry
  pub has_more : Bool
  pub next_cursor : ℤ  -- int64

-- The version of the last entry; `initial` when there is none.
unfoldable pub last_version : ℤ → List LedgerEntry → ℤ
last_version initial [] = initial
last_version initial (e ∷ es) = last_version e.wallet_version es

-- The mapper `LedgerPage`; the cursor is 0 when it is not set.
unfoldable pub ledger_page : List LedgerEntry → ℕ → LedgerPage
unfolding last_version
ledger_page entries limit =
    if ltb limit (length entries)
    then record {
      entries = take limit entries;
      has_more = true;
      next_cursor = last_version (pos 0) (take limit entries);
    }
    else record { entries = entries; has_more = false; next_cursor = pos 0 }

-- What `Execute` does in its transaction.
unfoldable pub list_wallet_ledger : Uuid → ℤ → ℕ → Tx LedgerPage
unfolding ledger_page
list_wallet_ledger wallet_id after_version limit = do
  found ← Wallets.find_by_id wallet_id
  _ ← Wallets.required found
  entries ← Ledger.list_after_version wallet_id after_version (limit + 1)
  return (ledger_page entries limit)
