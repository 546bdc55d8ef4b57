-- ===== src/Usecase/LedgerPage/Tests.antt =====
-- A page of a concrete ledger.
use wagering_wallet_service.Base.{take, pos, ℕ, ◌≡◌, refl, true, false, List, [], ◌∷◌}
use wagering_wallet_service.Money.{brl}
use wagering_wallet_service.Wallet.{LedgerEntry, credit}
use wagering_wallet_service.Usecase.LedgerPage.Cursor.{
  page_of, after_version, drop, ledger_page_lem,
}

abbrev entry_at : ℕ → LedgerEntry
entry_at version = record {
  id = version;
  wallet_id = 1;
  transaction_id = version;
  direction = credit;
  amount = record { minor = pos 100; currency = brl };
  balance_before = record { minor = pos 0; currency = brl };
  balance_after = record { minor = pos 100; currency = brl };
  wallet_version = pos version;
  created_at = 10;
}

abbrev three : List LedgerEntry
three = entry_at 1 ∷ entry_at 2 ∷ entry_at 3 ∷ []

page_example :
    ((page_of 1 three).has_more ≡ true
      → ((page_of 1 three).entries ≡ take 2 three)
        × (after_version (page_of 1 three).next_cursor three ≡ drop 2 three))
    × ((page_of 1 three).has_more ≡ false → (page_of 1 three).entries ≡ three)
page_example = ledger_page_lem three 1 ((refl, (refl, tt)), ((refl, tt), (tt, tt)))
