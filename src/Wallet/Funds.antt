-- ===== src/Wallet/Funds.antt =====
-- When a debit or a credit of a valid request goes through, and how it fails otherwise.
use wagering_wallet_service.Base.{
  if◌then◌else◌, Bool-cases, MoneyError, WalletError, of_money, of_wallet, ok, err, Uuid, nil_uuid,
  Instant, no_time, ℤ, pos, pos_part, ◌≤ℤ◌, ◌<ℤ◌, ltb_ℤ, +ℤ_parts, -ℤ_parts, max_int64, InInt64,
  in_int64, wrap64_self, parts_apart, ◌+ℤ◌, ◌-ℤ◌, wrap64, ◌<◌, ◌≡◌, refl, sym, ap, ◌∙◌, ◌≢◌, inl,
  inr, true, false, arith,
}
use wagering_wallet_service.Money.{Money, supported}
use wagering_wallet_service.Money.Exact.{Compatible, add_lem, sub_lem, currency_eq_refl}
use wagering_wallet_service.Wallet.{
  Direction, debit, credit, is_direction, LedgerEntry, Wallet, apply_direction, new_ledger_entry,
  move, debit_wallet, credit_wallet,
}
use wagering_wallet_service.Wallet.Entry.{after, IsConsistent, new_ledger_entry-IsConsistent}
use wagering_wallet_service.Wallet.Movement.{IsValid}

-- A movement that only the balance can refuse.
pub record IsRequest (operation : Uuid) (amount : Money) (key : Uuid) (now : Instant) (w : Wallet)
    : Type 0 where
  pub operation_given : operation ≢ nil_uuid
  pub key_given : key ≢ nil_uuid
  pub dated : now ≢ no_time
  pub positive : pos 0 <ℤ amount.minor
  pub fits : InInt64 amount.minor
  pub same_currency : amount.currency ≡ w.balance.currency
  pub room : pos_part w.version < max_int64

module _ (operation : Uuid) (amount : Money) (key : Uuid) (now : Instant) (w : Wallet)
    (v : IsValid w) (r : IsRequest operation amount key now w) where
  compatible : Compatible w.balance amount
  compatible = record { same = sym r.same_currency; known = v.known; left = v.fits; right = r.fits }

  amount_known : supported amount.currency ≡ true
  amount_known = ap supported r.same_currency ∙ v.known

  next : wrap64 (w.version +ℤ pos 1) ≡ w.version +ℤ pos 1
  next = wrap64_self (w.version +ℤ pos 1) (
      ground (
        arith,
        v.version_fits,
        v.versioned,
        parts_apart w.version,
        parts_apart (w.version +ℤ pos 1),
        +ℤ_parts w.version (pos 1),
      ))

  -- The new balance and its entry, for an exact result `z` that is a balance.
  abbrev pub balance_of : ℤ → Money
  balance_of z = record w.balance { minor = z }

  abbrev pub moved_to : ℤ → Wallet
  moved_to z = record w { balance = balance_of z; version = w.version +ℤ pos 1; updated_at = now }

  abbrev pub entry_to : Direction → ℤ → LedgerEntry
  entry_to d z = record {
    id = key;
    wallet_id = w.id;
    transaction_id = operation;
    direction = d;
    amount = amount;
    balance_before = w.balance;
    balance_after = balance_of z;
    wallet_version = w.version +ℤ pos 1;
    created_at = now;
  }

  entry_to-IsConsistent :
      (d : Direction) (z : ℤ)
      → is_direction d ≡ true
      → pos 0 ≤ℤ z
      → z ≡ after d w.balance.minor amount.minor
      → IsConsistent (entry_to d z)
  entry_to-IsConsistent d z directed nonneg exact = record {
    id_given = r.key_given;
    wallet_given = v.id_given;
    transaction_given = r.operation_given;
    directed = directed;
    amount_known = amount_known;
    amount_positive = r.positive;
    currency_before = sym r.same_currency;
    currency_after = sym r.same_currency;
    before_nonneg = v.nonneg;
    after_nonneg = nonneg;
    versioned = omega (arith, v.versioned, +ℤ_parts w.version (pos 1));
    dated = r.dated;
    moved = exact;
  }

  accepted :
      (d : Direction) (z : ℤ)
      → is_direction d ≡ true
      → InInt64 z
      → pos 0 ≤ℤ z
      → z ≡ after d w.balance.minor amount.minor
      → new_ledger_entry (entry_to d z) ≡ ok (entry_to d z)
  accepted d z directed fits nonneg exact =
      new_ledger_entry-IsConsistent (entry_to d z) r.fits v.fits fits
        (entry_to-IsConsistent d z directed nonneg exact)

  -- A movement whose arithmetic gives a balance succeeds.
  move-balance :
      (d : Direction) (z : ℤ)
      → is_direction d ≡ true
      → InInt64 z
      → pos 0 ≤ℤ z
      → z ≡ after d w.balance.minor amount.minor
      → apply_direction w.balance d amount ≡ ok (balance_of z)
      → move d operation amount key now w ≡ (ok (entry_to d z), moved_to z)
  unfolding move
  move-balance d z directed fits nonneg exact applied = ground (
    arith,
    accepted d z directed fits nonneg exact,
    applied,
    next,
    amount_known,
    r.same_currency,
    currency_eq_refl amount.currency,
  )

  debit_short :
      ltb_ℤ w.balance.minor amount.minor ≡ true
      → move debit operation amount key now w ≡ (err (of_wallet WalletError.insufficient_funds), w)
  unfolding move apply_direction
  debit_short short = ground (
    arith,
    v.nonneg,
    sub_lem compatible,
    -ℤ_parts w.balance.minor amount.minor,
    parts_apart (w.balance.minor -ℤ amount.minor),
    parts_apart w.balance.minor,
    parts_apart amount.minor,
    amount_known,
    r.same_currency,
    currency_eq_refl amount.currency,
  )

  difference_nonneg :
      ltb_ℤ w.balance.minor amount.minor ≡ false → pos 0 ≤ℤ w.balance.minor -ℤ amount.minor
  difference_nonneg covered = ground (arith, -ℤ_parts w.balance.minor amount.minor)

  difference_fits :
      ltb_ℤ w.balance.minor amount.minor ≡ false → InInt64 (w.balance.minor -ℤ amount.minor)
  difference_fits covered = ground (
    arith,
    v.fits,
    r.positive,
    difference_nonneg covered,
    -ℤ_parts w.balance.minor amount.minor,
    parts_apart (w.balance.minor -ℤ amount.minor),
    parts_apart w.balance.minor,
    parts_apart amount.minor,
  )

  difference_applies :
      ltb_ℤ w.balance.minor amount.minor ≡ false
      → apply_direction w.balance debit amount ≡ ok (balance_of (w.balance.minor -ℤ amount.minor))
  unfolding apply_direction
  difference_applies covered = ground (arith, sub_lem compatible, difference_fits covered)

  sum_applies :
      in_int64 (w.balance.minor +ℤ amount.minor) ≡ true
      → apply_direction w.balance credit amount ≡ ok (balance_of (w.balance.minor +ℤ amount.minor))
  unfolding apply_direction
  sum_applies room = ground (arith, add_lem compatible)

  credit_over :
      in_int64 (w.balance.minor +ℤ amount.minor) ≡ false
      → move credit operation amount key now w ≡ (err (of_money MoneyError.overflow), w)
  unfolding move apply_direction
  credit_over over =
      ground
        (arith, add_lem compatible, amount_known, r.same_currency, currency_eq_refl amount.currency)

  -- A debit of a valid request takes the exact amount when the balance covers it, and otherwise is
  -- refused for insufficient funds with the wallet unchanged.
  pub debit_wallet_lem : debit_wallet operation amount key now w ≡ (
      if ltb_ℤ w.balance.minor amount.minor
      then (err (of_wallet WalletError.insufficient_funds), w)
      else (
        ok (entry_to debit (w.balance.minor -ℤ amount.minor)),
        moved_to (w.balance.minor -ℤ amount.minor),
      ))
  unfolding debit_wallet
  debit_wallet_lem = elim (Bool-cases (ltb_ℤ w.balance.minor amount.minor)) [
    | inl short ↦ rw short (debit_short short)
    | inr covered ↦ rw covered (
        move-balance debit (w.balance.minor -ℤ amount.minor) refl (difference_fits covered)
          (difference_nonneg covered) refl (difference_applies covered))
  ]

  -- A credit of a valid request adds the exact amount when the sum is an int64, and otherwise fails
  -- with an overflow, the wallet unchanged.
  pub credit_wallet_lem : credit_wallet operation amount key now w ≡ (
      if in_int64 (w.balance.minor +ℤ amount.minor)
      then (
        ok (entry_to credit (w.balance.minor +ℤ amount.minor)),
        moved_to (w.balance.minor +ℤ amount.minor),
      )
      else (err (of_money MoneyError.overflow), w))
  unfolding credit_wallet
  credit_wallet_lem = elim (Bool-cases (in_int64 (w.balance.minor +ℤ amount.minor))) [
    | inl room ↦ rw room (
        move-balance credit (w.balance.minor +ℤ amount.minor) refl (ground arith)
          (omega (arith, v.nonneg, r.positive, +ℤ_parts w.balance.minor amount.minor)) refl
          (sum_applies room))
    | inr over ↦ rw over (credit_over over)
  ]
