-- ===== src/Reconcile/Agreement.antt =====
-- The reconciliation of a wallet with its ledger.
use wagering_wallet_service.Base.{
  ok, Uuid, ℤ, pos, eqb_ℤ, +ℤ_parts, -ℤ_parts, eq_of_parts, int_laws, InInt64, ◌+ℤ◌, ◌-ℤ◌, length,
  ◌≡◌, refl, sym, ap, ◌↔◌, true, List, [], ◌∷◌, arith,
}
use mathlib.Core.Path.{subst}
use wagering_wallet_service.Money.Exact.{sub_lem}
use wagering_wallet_service.Wallet.{LedgerEntry, Wallet}
use wagering_wallet_service.Wallet.Entry.{after}
use wagering_wallet_service.Wallet.Movement.{IsValid}
use wagering_wallet_service.Reconcile.{signed_amount, sum_of, count_of, Reconciliation, reconcile}
use wagering_wallet_service.Reconcile.History.{
  History, Chain, AllOn, History-IsValid, History-Chain,
}

after-signed : (e : LedgerEntry) (b : ℤ) → after e.direction b e.amount.minor ≡ b +ℤ signed_amount e
after-signed e b = ground (
  arith,
  +ℤ_parts b (pos 0 -ℤ e.amount.minor),
  -ℤ_parts b e.amount.minor,
  -ℤ_parts (pos 0) e.amount.minor,
  eq_of_parts (b -ℤ e.amount.minor) (b +ℤ (pos 0 -ℤ e.amount.minor)),
)

-- A chained ledger sums to the balance in which it ends.
sum_of-Chain :
    (id : Uuid) (b v : ℤ) (ledger : List LedgerEntry)
    → Chain b v ledger
    → AllOn id ledger
    → sum_of id ledger ≡ b
unfolding sum_of
sum_of-Chain id b v [] c own = sym c.0
sum_of-Chain id b v (e ∷ ledger) (ends, numbered, exact, older) (own, others) = ground (
  arith,
  sum_of-Chain id e.balance_before.minor (v -ℤ pos 1) ledger older others,
  after-signed e e.balance_before.minor,
)

count_of-AllOn :
    (id : Uuid) (ledger : List LedgerEntry) → AllOn id ledger → count_of id ledger ≡ length ledger
unfolding count_of
count_of-AllOn id [] own = refl
count_of-AllOn id (e ∷ ledger) own = ground (arith, count_of-AllOn id ledger own.1)

-- The report for the exact difference.
abbrev pub report_of : Wallet → List LedgerEntry → Reconciliation
report_of w ledger = record {
  wallet_id = w.id;
  stored_balance = w.balance;
  calculated_balance = record w.balance { minor = sum_of w.id ledger };
  difference = record w.balance { minor = w.balance.minor -ℤ sum_of w.id ledger };
  consistent = eqb_ℤ (w.balance.minor -ℤ sum_of w.id ledger) (pos 0);
  checked_entries = count_of w.id ledger;
}

reconcile-report_of :
    (w : Wallet) (ledger : List LedgerEntry)
    → IsValid w
    → InInt64 (sum_of w.id ledger)
    → InInt64 (w.balance.minor -ℤ sum_of w.id ledger)
    → reconcile w ledger ≡ ok (report_of w ledger)
unfolding reconcile
reconcile-report_of w ledger v fits room = ground (
  arith,
  sub_lem {m = w.balance} {other = record w.balance { minor = sum_of w.id ledger }}
      (record { same = refl; known = v.known; left = v.fits; right = fits }),
  v.known,
)

-- The report on a valid wallet whose ledger sums to an int64, the difference one too: it shows the
-- exact difference, and calls the wallet consistent exactly when its balance is that sum.
pub reconcile_lem :
    (w : Wallet) (ledger : List LedgerEntry)
    → IsValid w
    → InInt64 (sum_of w.id ledger)
    → InInt64 (w.balance.minor -ℤ sum_of w.id ledger)
    → (report : Reconciliation) × (reconcile w ledger ≡ ok report)
      × (report.difference.minor ≡ w.balance.minor -ℤ sum_of w.id ledger)
      × ((report.consistent ≡ true) ↔ (w.balance.minor ≡ sum_of w.id ledger))
reconcile_lem w ledger v fits room =
    let parts = -ℤ_parts w.balance.minor (sum_of w.id ledger) in
    (
      report_of w ledger,
      reconcile-report_of w ledger v fits room,
      refl,
      (
        ground (arith, parts, eq_of_parts w.balance.minor (sum_of w.id ledger)),
        ground (arith, parts),
      ),
    )

-- Whatever movements were tried on a wallet since it was opened, its balance agrees with its ledger:
-- the report is consistent, shows no difference, and counts every entry.
pub reconcile-History :
    {ledger : List LedgerEntry} {w : Wallet}
    → History ledger w
    → (report : Reconciliation) × (reconcile w ledger ≡ ok report)
      × (report.consistent ≡ true)
      × (report.difference.minor ≡ pos 0)
      × (report.calculated_balance ≡ w.balance)
      × (report.checked_entries ≡ length ledger)
reconcile-History {ledger} {w} h =
    let v = History-IsValid h in
    let (chain, own) = History-Chain h in
    let exact : sum_of w.id ledger ≡ w.balance.minor =
      sum_of-Chain w.id w.balance.minor w.version ledger chain own in
    let nothing : w.balance.minor -ℤ sum_of w.id ledger ≡ pos 0 = rw exact (omega int_laws) in
    (
      report_of w ledger,
      reconcile-report_of w ledger v (subst (λ z. InInt64 z) (sym exact) v.fits)
          (subst (λ z. InInt64 z) (sym nothing) (omega arith, omega arith)),
      ap (λ (z : ℤ). eqb_ℤ z (pos 0)) nothing,
      nothing,
      ap (λ (z : ℤ). record w.balance { minor = z }) exact,
      count_of-AllOn w.id ledger own,
    )
