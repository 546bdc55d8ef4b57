-- ===== src/Reconcile/Tests.antt =====
-- Runs of the reconciliation on concrete ledgers.
use wagering_wallet_service.Money.{zero_of}
use wagering_wallet_service.Wallet.{new_ledger_entry}
use wagering_wallet_service.Money.{add}
use wagering_wallet_service.Money.{sub}
use wagering_wallet_service.Wallet.{move}
use wagering_wallet_service.Wallet.{apply_direction}
use wagering_wallet_service.Base.{wrap64}
use wagering_wallet_service.Wallet.{open_wallet}
use wagering_wallet_service.Base.{◌+ℤ◌}
use wagering_wallet_service.Base.{ok, pos, ◌-ℤ◌, ℕ, ◌≡◌, refl, ◌↔◌, true, some, [], ◌∷◌, arith}
use wagering_wallet_service.Money.{Money, brl}
use wagering_wallet_service.Wallet.{credit, debit, LedgerEntry, Wallet}
use wagering_wallet_service.Reconcile.{Reconciliation, reconcile, sum_of}
use wagering_wallet_service.Reconcile.History.{History, opened, moved, Chain, AllOn, History-Chain}
use wagering_wallet_service.Reconcile.Agreement.{reconcile_lem, reconcile-History}

abbrev brl_of : ℕ → Money
brl_of n = record { minor = pos n; currency = brl }

abbrev fresh : Wallet
fresh = record {
  id = 1;
  player_id = 2;
  balance = brl_of 5000;
  version = pos 1;
  created_at = 10;
  updated_at = 10;
}

abbrev fresh_entry : LedgerEntry
fresh_entry = record {
  id = 4;
  wallet_id = 1;
  transaction_id = 3;
  direction = credit;
  amount = brl_of 5000;
  balance_before = brl_of 0;
  balance_after = brl_of 5000;
  wallet_version = pos 1;
  created_at = 10;
}

abbrev later : Wallet
later = record fresh { balance = brl_of 3000; version = pos 2; updated_at = 30 }

abbrev later_entry : LedgerEntry
later_entry = record {
  id = 8;
  wallet_id = 1;
  transaction_id = 7;
  direction = debit;
  amount = brl_of 2000;
  balance_before = brl_of 5000;
  balance_after = brl_of 3000;
  wallet_version = pos 2;
  created_at = 30;
}

life : History (later_entry ∷ fresh_entry ∷ []) later
unfolding open_wallet zero_of new_ledger_entry apply_direction add wrap64 ◌+ℤ◌ move sub ◌-ℤ◌
life =
    moved debit 7 (brl_of 2000) 8 30 later_entry later
      (opened 1 2 (brl_of 5000) 3 4 10 fresh (some fresh_entry) (ground arith) refl) (ground arith)
      refl

History-Chain_example :
    Chain (pos 3000) (pos 2) (later_entry ∷ fresh_entry ∷ [])
    × AllOn 1 (later_entry ∷ fresh_entry ∷ [])
History-Chain_example = History-Chain life

reconcile-History_example :
    (report : Reconciliation) × (reconcile later (later_entry ∷ fresh_entry ∷ []) ≡ ok report)
    × (report.consistent ≡ true)
    × (report.difference.minor ≡ pos 0)
    × (report.calculated_balance ≡ brl_of 3000)
    × (report.checked_entries ≡ 2)
reconcile-History_example = reconcile-History life

-- A ledger that lost its last entry: 50.00 against a stored 30.00.
reconcile_example :
    (report : Reconciliation) × (reconcile later (fresh_entry ∷ []) ≡ ok report)
    × (report.difference.minor ≡ pos 3000 -ℤ sum_of 1 (fresh_entry ∷ []))
    × ((report.consistent ≡ true) ↔ (pos 3000 ≡ sum_of 1 (fresh_entry ∷ [])))
unfolding sum_of ◌+ℤ◌ ◌-ℤ◌
reconcile_example =
    reconcile_lem later (fresh_entry ∷ []) (ground arith) (ground arith) (ground arith)
