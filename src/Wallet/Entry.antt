-- ===== src/Wallet/Entry.antt =====
-- What `NewLedgerEntry` accepts.
use wagering_wallet_service.Base.{
  Result-cases, ok, nil_uuid, no_time, ℤ, pos, ◌≤ℤ◌, ◌<ℤ◌, eq_of_parts, InInt64, ◌+ℤ◌, ◌-ℤ◌, ◌≡◌,
  sym, ap, ◌∙◌, ◌≢◌, inl, inr, true, arith,
}
use wagering_wallet_service.Money.{supported, Money, is_valid, equal}
use wagering_wallet_service.Money.Exact.{
  sub_lem, add_lem, currency_eq_refl, Compatible, currency_eq→eq,
}
use wagering_wallet_service.Money.Inverse.{Moved, add-ok, sub-ok}
use wagering_wallet_service.Wallet.{
  Direction, debit, credit, unknown, is_direction, LedgerEntry, apply_direction, new_ledger_entry,
}

-- The exact balance after a movement.
abbrev pub after : Direction → ℤ → ℤ → ℤ
after credit balance amount = balance +ℤ amount
after _ balance amount = balance -ℤ amount

-- The arithmetic of `applyDirection` is exact.
pub apply_direction-ok :
    (d : Direction) (balance amount : Money) {result : Money}
    → InInt64 balance.minor
    → InInt64 amount.minor
    → apply_direction balance d amount ≡ ok result
    → Moved balance amount (after d balance.minor amount.minor) result
unfolding apply_direction
apply_direction-ok debit balance amount hb ha h = sub-ok balance amount hb ha h
apply_direction-ok credit balance amount hb ha h = add-ok balance amount hb ha h
apply_direction-ok (unknown code) balance amount hb ha h = sub-ok balance amount hb ha h

-- An entry that tells a true movement of money.
pub record IsConsistent (e : LedgerEntry) : Type 0 where
  pub id_given : e.id ≢ nil_uuid
  pub wallet_given : e.wallet_id ≢ nil_uuid
  pub transaction_given : e.transaction_id ≢ nil_uuid
  pub directed : is_direction e.direction ≡ true
  pub amount_known : is_valid e.amount ≡ true
  pub amount_positive : pos 0 <ℤ e.amount.minor
  pub currency_before : e.balance_before.currency ≡ e.amount.currency
  pub currency_after : e.balance_after.currency ≡ e.amount.currency
  pub before_nonneg : pos 0 ≤ℤ e.balance_before.minor
  pub after_nonneg : pos 0 ≤ℤ e.balance_after.minor
  pub versioned : pos 1 ≤ℤ e.wallet_version
  pub dated : e.created_at ≢ no_time
  pub moved : e.balance_after.minor ≡ after e.direction e.balance_before.minor e.amount.minor

-- The movement of an accepted entry was computed without an error.
new_ledger_entry-applied :
    (e : LedgerEntry) {f : LedgerEntry}
    → new_ledger_entry e ≡ ok f
    → (expected : Money) × (apply_direction e.balance_before e.direction e.amount ≡ ok expected)
      × (equal expected e.balance_after ≡ true)
unfolding new_ledger_entry
new_ledger_entry-applied e h =
    elim (Result-cases (apply_direction e.balance_before e.direction e.amount)) [
      | inl (expected, applied) ↦ (expected, applied, ground arith)
      | inr (f, failed) ↦ absurd (ground arith)
    ]

checks_passed :
    (e : LedgerEntry) {f : LedgerEntry}
    → new_ledger_entry e ≡ ok f
    → e.balance_after.minor ≡ after e.direction e.balance_before.minor e.amount.minor
    → (f ≡ e) × IsConsistent e
unfolding new_ledger_entry
checks_passed e h moved = ground (
  arith,
  currency_eq→eq e.balance_before.currency e.amount.currency,
  currency_eq→eq e.balance_after.currency e.amount.currency,
)

equal→eq : (a b : Money) → equal a b ≡ true → a ≡ b
equal→eq a b h = ground (arith, currency_eq→eq a.currency b.currency, eq_of_parts a.minor b.minor)

-- An entry whose amounts are int64 values is accepted only if it is consistent, and is kept as it
-- was given.
pub new_ledger_entry-ok :
    (e : LedgerEntry) {f : LedgerEntry}
    → InInt64 e.amount.minor
    → InInt64 e.balance_before.minor
    → new_ledger_entry e ≡ ok f
    → (f ≡ e) × IsConsistent e
new_ledger_entry-ok e ha hb h =
    let (expected, applied, same) = new_ledger_entry-applied e h in
    let moved = apply_direction-ok e.direction e.balance_before e.amount hb ha applied in
    checks_passed e h
      (sym (ap (λ (m : Money). m.minor) (equal→eq expected e.balance_after same)) ∙ moved.exact)

-- The movement of a consistent entry is computed without overflow.
apply_direction-IsConsistent :
    (e : LedgerEntry)
    → InInt64 e.amount.minor
    → InInt64 e.balance_before.minor
    → InInt64 e.balance_after.minor
    → IsConsistent e
    → apply_direction e.balance_before e.direction e.amount ≡ ok e.balance_after
unfolding apply_direction
apply_direction-IsConsistent e ha hb hc c =
    let compatible : Compatible e.balance_before e.amount = record {
      same = c.currency_before;
      known = ap supported c.currency_before ∙ c.amount_known;
      left = hb;
      right = ha;
    } in
    ground (
      arith,
      add_lem compatible,
      sub_lem compatible,
      c.moved,
      c.currency_before,
      c.currency_after,
      c.directed,
    )

-- A consistent entry with int64 amounts is accepted.
pub new_ledger_entry-IsConsistent :
    (e : LedgerEntry)
    → InInt64 e.amount.minor
    → InInt64 e.balance_before.minor
    → InInt64 e.balance_after.minor
    → IsConsistent e
    → new_ledger_entry e ≡ ok e
unfolding new_ledger_entry
new_ledger_entry-IsConsistent e ha hb hc c = ground (
  arith,
  apply_direction-IsConsistent e ha hb hc c,
  c.currency_before,
  c.currency_after,
  currency_eq_refl e.amount.currency,
  currency_eq_refl e.balance_after.currency,
)
