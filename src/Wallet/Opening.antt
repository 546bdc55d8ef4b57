-- ===== src/Wallet/Opening.antt =====
-- `Open` and `Rehydrate`: what a new and a stored wallet satisfy.
use wagering_wallet_service.Base.{
  Result-cases, ok, Uuid, Instant, pos, InInt64, ◌≡◌, sym, ◌↔◌, inl, inr, true, false, Option, none,
  some, arith,
}
use wagering_wallet_service.Money
use wagering_wallet_service.Money.{
  Money, Currency, supported, is_negative, is_positive, is_valid, is_zero, currency_eq, equal,
}
use wagering_wallet_service.Wallet.{
  credit, LedgerEntry, Wallet, initial_version, new_ledger_entry, open_wallet, rehydrate,
}
use wagering_wallet_service.Wallet.Entry.{IsConsistent, new_ledger_entry-ok}
use wagering_wallet_service.Wallet.Movement.{IsValid}

-- The ranges of the int64 columns of a row.
pub record InRange (w : Wallet) : Type 0 where
  pub balance_fits : InInt64 w.balance.minor
  pub version_fits : InInt64 w.version

-- `Rehydrate` accepts the valid wallets and no others, and keeps them as they are.
pub rehydrate_lem : (w : Wallet) → InRange w → (rehydrate w ≡ ok w) ↔ IsValid w
unfolding rehydrate
rehydrate_lem w r = (accepted, rebuilt)
  where
    accepted : rehydrate w ≡ ok w → IsValid w
    accepted h = ground (arith, r.balance_fits, r.version_fits)

    rebuilt : IsValid w → rehydrate w ≡ ok w
    rebuilt v = ground (arith, v.known)

-- A wallet opened now: valid, with the first version and the whole initial balance.
pub record Opened (initial : Money) (operation : Uuid) (w : Wallet) (entry : Option LedgerEntry)
    : Type 0 where
  pub valid : IsValid w
  pub balance : w.balance ≡ initial
  pub version : w.version ≡ initial_version
  pub unfunded : is_zero initial ≡ true → entry ≡ none
  pub funded :
      is_zero initial ≡ false
      → (e : LedgerEntry) × (entry ≡ some e)
        × IsConsistent e
        × (e.wallet_id ≡ w.id)
        × (e.transaction_id ≡ operation)
        × (e.direction ≡ credit)
        × (e.balance_before.minor ≡ pos 0)
        × (e.balance_after ≡ initial)
        × (e.wallet_version ≡ initial_version)

module _ (id player_id : Uuid) (initial : Money) (operation key : Uuid) (now : Instant) where
  abbrev opening_entry : LedgerEntry
  opening_entry = record {
    id = key;
    wallet_id = id;
    transaction_id = operation;
    direction = credit;
    amount = initial;
    balance_before = record { minor = pos 0; currency = initial.currency };
    balance_after = initial;
    wallet_version = initial_version;
    created_at = now;
  }

  opened-IsValid :
      {w : Wallet} {entry : Option LedgerEntry}
      → InInt64 initial.minor
      → open_wallet id player_id initial operation key now ≡ ok (w, entry)
      → IsValid w × (w.balance ≡ initial) × (w.version ≡ initial_version) × (w.id ≡ id)
  unfolding open_wallet Money.zero_of
  opened-IsValid {w} {entry} fits h = elim (Result-cases (new_ledger_entry opening_entry)) [
    | inl (e, accepted) ↦ ground arith
    | inr (f, refused) ↦ ground arith
  ]

  opened_entry :
      {w : Wallet} {entry : Option LedgerEntry}
      → open_wallet id player_id initial operation key now ≡ ok (w, entry)
      → is_zero initial ≡ false
      → (e : LedgerEntry) × (entry ≡ some e) × (new_ledger_entry opening_entry ≡ ok e)
  unfolding open_wallet Money.zero_of
  opened_entry {w} {entry} h funded = elim (Result-cases (new_ledger_entry opening_entry)) [
    | inl (e, accepted) ↦ (e, ground arith, accepted)
    | inr (f, refused) ↦ absurd (ground arith)
  ]

  opened_unfunded :
      {w : Wallet} {entry : Option LedgerEntry}
      → open_wallet id player_id initial operation key now ≡ ok (w, entry)
      → is_zero initial ≡ true
      → entry ≡ none
  unfolding open_wallet
  opened_unfunded h unfunded = ground arith

  -- `Open` answers a valid wallet at version one that holds the initial balance. It has no entry
  -- when the balance is zero, and otherwise one consistent credit from zero to that balance.
  pub open_wallet-ok :
      {w : Wallet} {entry : Option LedgerEntry}
      → InInt64 initial.minor
      → open_wallet id player_id initial operation key now ≡ ok (w, entry)
      → Opened initial operation w entry
  open_wallet-ok {w} {entry} fits h =
      let (valid, balance, version, same) = opened-IsValid fits h in
      record {
        valid = valid;
        balance = balance;
        version = version;
        unfunded = opened_unfunded h;
        funded = λ funded.
            let (e, some_entry, accepted) = opened_entry h funded in
            let (exact, consistent) =
              new_ledger_entry-ok opening_entry fits (omega arith, omega arith) accepted in
            (
              e,
              some_entry,
              rw exact consistent,
              rw exact (sym same),
              rw exact,
              rw exact,
              rw exact,
              rw exact,
              rw exact,
            );
      }
