-- ===== src/Wallet/Tests.antt =====
-- Runs of the wallet code on concrete inputs.
use wagering_wallet_service.Base.{
  WalletError, Result, of_wallet, ok, err, pos, ◌+ℤ◌, ◌-ℤ◌, wrap64, ℕ, ◌≡◌, refl, ap, ◌↔◌, some,
  arith,
}
use wagering_wallet_service.Money
use wagering_wallet_service.Wallet
use wagering_wallet_service.Money.{Money, brl, supported}
use wagering_wallet_service.Wallet.{
  Direction, debit, credit, LedgerEntry, Wallet, open_wallet, rehydrate, new_ledger_entry, move,
  debit_wallet, credit_wallet,
}
use wagering_wallet_service.Wallet.Entry.{
  IsConsistent, new_ledger_entry-ok, new_ledger_entry-IsConsistent,
}
use wagering_wallet_service.Wallet.Movement.{IsValid, Records, move-ok, move-err}
use wagering_wallet_service.Wallet.Funds.{IsRequest, debit_wallet_lem, credit_wallet_lem}
use wagering_wallet_service.Wallet.Opening.{Opened, rehydrate_lem, open_wallet-ok}

abbrev brl_of : ℕ → Money
brl_of n = record { minor = pos n; currency = brl }

abbrev pub sample : Wallet
sample = record {
  id = 1;
  player_id = 2;
  balance = brl_of 5000;
  version = pos 3;
  created_at = 10;
  updated_at = 20;
}

pub sample-IsValid : IsValid sample
sample-IsValid = ground arith

abbrev debited : Wallet
debited = record sample { balance = brl_of 3000; version = pos 4; updated_at = 30 }

abbrev debit_entry : LedgerEntry
debit_entry = record {
  id = 8;
  wallet_id = 1;
  transaction_id = 7;
  direction = debit;
  amount = brl_of 2000;
  balance_before = brl_of 5000;
  balance_after = brl_of 3000;
  wallet_version = pos 4;
  created_at = 30;
}

sample-IsRequest : IsRequest 7 (brl_of 2000) 8 30 sample
sample-IsRequest = ground arith

large-IsRequest : IsRequest 7 (brl_of 6000) 8 30 sample
large-IsRequest = ground arith

debit_covered : debit_wallet 7 (brl_of 2000) 8 30 sample ≡ (ok debit_entry, debited)
unfolding ◌-ℤ◌ ◌+ℤ◌
debit_covered = debit_wallet_lem 7 (brl_of 2000) 8 30 sample sample-IsValid sample-IsRequest

debit_short_example :
    debit_wallet 7 (brl_of 6000) 8 30 sample
    ≡ (err (of_wallet WalletError.insufficient_funds), sample)
debit_short_example = debit_wallet_lem 7 (brl_of 6000) 8 30 sample sample-IsValid large-IsRequest

credit_example : credit_wallet 7 (brl_of 2000) 8 30 sample ≡ (
  ok (record debit_entry { direction = credit; balance_after = brl_of 7000 }),
  record sample { balance = brl_of 7000; version = pos 4; updated_at = 30 },
)
unfolding ◌+ℤ◌
credit_example = credit_wallet_lem 7 (brl_of 2000) 8 30 sample sample-IsValid sample-IsRequest

debit_run : move debit 7 (brl_of 2000) 8 30 sample ≡ (ok debit_entry, debited)
unfolding debit_wallet
debit_run = debit_covered

move-ok_example : Records debit 7 (brl_of 2000) 8 30 sample debited debit_entry
move-ok_example = move-ok debit 7 (brl_of 2000) 8 30 sample sample-IsValid (ground arith) debit_run

refused_run :
    (move debit 7 (brl_of 6000) 8 30 sample).0 ≡ err (of_wallet WalletError.insufficient_funds)
unfolding debit_wallet
refused_run = ap (λ (p : Result LedgerEntry × Wallet). p.0) debit_short_example

move-err_example : (move debit 7 (brl_of 6000) 8 30 sample).1 ≡ sample
move-err_example = move-err debit 7 (brl_of 6000) 8 30 sample refused_run

entry-IsConsistent : IsConsistent debit_entry
unfolding ◌-ℤ◌
entry-IsConsistent = ground arith

new_ledger_entry_example : new_ledger_entry debit_entry ≡ ok debit_entry
new_ledger_entry_example =
    new_ledger_entry-IsConsistent debit_entry (ground arith) (ground arith) (ground arith)
      entry-IsConsistent

new_ledger_entry-ok_example : (debit_entry ≡ debit_entry) × IsConsistent debit_entry
new_ledger_entry-ok_example =
    new_ledger_entry-ok debit_entry (ground arith) (ground arith) new_ledger_entry_example

rehydrate_example : (rehydrate sample ≡ ok sample) ↔ IsValid sample
rehydrate_example = rehydrate_lem sample (ground arith)

abbrev pub fresh : Wallet
fresh = record {
  id = 1;
  player_id = 2;
  balance = brl_of 5000;
  version = pos 1;
  created_at = 10;
  updated_at = 10;
}

abbrev pub fresh_entry : LedgerEntry
fresh_entry = record {
  id = 4;
  wallet_id = 1;
  transaction_id = 3;
  direction = credit;
  amount = brl_of 5000;
  balance_before = brl_of 0;
  balance_after = brl_of 5000;
  wallet_version = pos 1;
  created_at = 10;
}

pub open_run : open_wallet 1 2 (brl_of 5000) 3 4 10 ≡ ok (fresh, some fresh_entry)
unfolding open_wallet Money.zero_of new_ledger_entry Wallet.apply_direction Money.add wrap64 ◌+ℤ◌
open_run = refl

open_wallet-ok_example : Opened (brl_of 5000) 3 fresh (some fresh_entry)
open_wallet-ok_example = open_wallet-ok 1 2 (brl_of 5000) 3 4 10 (ground arith) open_run
