-- ===== src/Wallet.antt =====
-- The wallet aggregate and its ledger entries: internal/domain/wallet/wallet.go and ledger.go. A
-- method that mutates `*Wallet` returns its result and the wallet after the call.
pub mod Entry
pub mod Movement
pub mod Funds
pub mod Opening
mod Tests
use wagering_wallet_service.Base.{
  ◌||◌, ◌==◌, if◌then◌else◌, MoneyError, WalletError, Result, ◌>>=◌, ◌>>◌, refuse_if, of_money,
  of_wallet, ok, err, Uuid, is_nil, Instant, is_unset, ℤ, pos, ltb_ℤ, ◌+ℤ◌, wrap64, String, Bool,
  true, false, not, Option, none, some,
}
use wagering_wallet_service.Money
use wagering_wallet_service.Money.{
  Money, is_zero, is_negative, is_positive, is_valid, currency_eq, equal,
}

-- `type Direction string`: the two valid values, and every other string.
pub data Direction : Type 0 where
  debit credit : Direction
  unknown : String → Direction

-- `Direction.Valid`
abbrev pub is_direction : Direction → Bool
is_direction (unknown _) = false
is_direction _ = true

pub record LedgerEntry : Type 0 where
  pub id : Uuid
  pub wallet_id : Uuid
  pub transaction_id : Uuid
  pub direction : Direction
  pub amount : Money
  pub balance_before : Money
  pub balance_after : Money
  pub wallet_version : ℤ  -- int64
  pub created_at : Instant

pub record Wallet : Type 0 where
  pub id : Uuid
  pub player_id : Uuid
  pub balance : Money
  pub version : ℤ  -- int64
  pub created_at : Instant
  pub updated_at : Instant

abbrev pub initial_version : ℤ
initial_version = pos 1

unfoldable pub apply_direction : Money → Direction → Money → Result Money
apply_direction balance credit amount = Money.add balance amount
apply_direction balance debit amount = Money.sub balance amount
apply_direction balance (unknown _) amount = Money.sub balance amount

-- `NewLedgerEntry`, its arguments in the record that it returns.
unfoldable pub new_ledger_entry : LedgerEntry → Result LedgerEntry
new_ledger_entry e = do
  refuse_if (is_nil e.id || is_nil e.wallet_id || is_nil e.transaction_id)
      (of_wallet WalletError.missing_identifier)
  refuse_if (not (is_direction e.direction)) (of_wallet WalletError.invalid_direction)
  refuse_if (not (is_valid e.amount) || not (is_positive e.amount))
      (of_wallet WalletError.invalid_amount)
  refuse_if (not (is_valid e.balance_before) || not (is_valid e.balance_after))
      (of_money MoneyError.invalid_currency)
  refuse_if
      (not (currency_eq e.balance_before.currency e.amount.currency)
        || not (currency_eq e.balance_after.currency e.amount.currency))
      (of_money MoneyError.currency_mismatch)
  refuse_if (is_negative e.balance_before || is_negative e.balance_after)
      (of_wallet WalletError.negative_balance)
  refuse_if (ltb_ℤ e.wallet_version (pos 1)) (of_wallet WalletError.invalid_wallet_version)
  refuse_if (is_unset e.created_at) (of_wallet WalletError.missing_timestamp)
  expected ← apply_direction e.balance_before e.direction e.amount
  refuse_if (not (equal expected e.balance_after)) (of_wallet WalletError.inconsistent_ledger_entry)
  ok e

-- `Open` returns the wallet, and the opening entry when there is a balance.
unfoldable pub open_wallet :
    Uuid → Uuid → Money → Uuid → Uuid → Instant → Result (Wallet × Option LedgerEntry)
open_wallet id player_id initial opening_transaction_id opening_entry_id now = do
  refuse_if (is_nil id || is_nil player_id) (of_wallet WalletError.missing_identifier)
  refuse_if (not (is_valid initial)) (of_money MoneyError.invalid_currency)
  refuse_if (is_negative initial) (of_wallet WalletError.negative_balance)
  refuse_if (is_unset now) (of_wallet WalletError.missing_timestamp)
  let opened : Wallet = record {
    id = id;
    player_id = player_id;
    balance = initial;
    version = initial_version;
    created_at = now;
    updated_at = now;
  }
  let first = (do
    zero_balance ← Money.zero_of initial.currency
    entry ← new_ledger_entry (record {
      id = opening_entry_id;
      wallet_id = id;
      transaction_id = opening_transaction_id;
      direction = credit;
      amount = initial;
      balance_before = zero_balance;
      balance_after = initial;
      wallet_version = initial_version;
      created_at = now;
    })
    ok (opened, some entry))
  if is_zero initial then ok (opened, none) else first

-- `Rehydrate`, its arguments in the record that it returns.
unfoldable pub rehydrate : Wallet → Result Wallet
rehydrate w = do
  refuse_if (is_nil w.id || is_nil w.player_id) (of_wallet WalletError.missing_identifier)
  refuse_if (not (is_valid w.balance)) (of_money MoneyError.invalid_currency)
  refuse_if (is_negative w.balance) (of_wallet WalletError.negative_balance)
  refuse_if (ltb_ℤ w.version initial_version) (of_wallet WalletError.invalid_wallet_version)
  refuse_if (is_unset w.created_at || is_unset w.updated_at)
      (of_wallet WalletError.missing_timestamp)
  ok w

-- `OwnedBy`
abbrev pub owned_by : Wallet → Uuid → Bool
owned_by w player_id = w.player_id == player_id

-- The checks of `move` and the entry that it writes, before the wallet is touched.
pub move_entry : Direction → Uuid → Money → Uuid → Instant → Wallet → Result LedgerEntry
move_entry direction transaction_id amount entry_id now w = do
  refuse_if (is_nil transaction_id || is_nil entry_id) (of_wallet WalletError.missing_identifier)
  refuse_if (is_unset now) (of_wallet WalletError.missing_timestamp)
  refuse_if (not (is_valid amount) || not (is_positive amount))
      (of_wallet WalletError.invalid_amount)
  refuse_if (not (currency_eq amount.currency w.balance.currency))
      (of_money MoneyError.currency_mismatch)
  updated ← apply_direction w.balance direction amount
  refuse_if (is_negative updated) (of_wallet WalletError.insufficient_funds)
  new_ledger_entry (record {
    id = entry_id;
    wallet_id = w.id;
    transaction_id = transaction_id;
    direction = direction;
    amount = amount;
    balance_before = w.balance;
    balance_after = updated;
    wallet_version = wrap64 (w.version +ℤ pos 1);
    created_at = now;
  })

-- The assignments at the end of `move`; the entry holds `updatedBalance`.
pub write_back : Instant → Wallet → LedgerEntry → Wallet
write_back now w entry = record w {
  balance = entry.balance_after;
  version = wrap64 (w.version +ℤ pos 1);
  updated_at = now;
}

unfoldable pub move :
    Direction → Uuid → Money → Uuid → Instant → Wallet → Result LedgerEntry × Wallet
unfolding move_entry write_back
move direction transaction_id amount entry_id now w =
    elim (move_entry direction transaction_id amount entry_id now w) [
      | ok entry ↦ (ok entry, write_back now w entry)
      | err e ↦ (err e, w)
    ]

-- `Debit` and `Credit`
unfoldable pub debit_wallet : Uuid → Money → Uuid → Instant → Wallet → Result LedgerEntry × Wallet
unfolding move
debit_wallet = move debit

unfoldable pub credit_wallet : Uuid → Money → Uuid → Instant → Wallet → Result LedgerEntry × Wallet
unfolding move
credit_wallet = move credit
