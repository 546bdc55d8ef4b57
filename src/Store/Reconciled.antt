-- ===== src/Store/Reconciled.antt =====
-- The reconciliation of a wallet on sound books.
use mathlib.Core.Path.{subst}
use wagering_wallet_service.Base.{
  ◌==◌, Bool-cases, ok, Uuid, find, pos, ◌+ℤ◌, length, ◌+◌, ◌≡◌, refl, sym, ap, ◌∙◌, inl, inr, true,
  some, List, [], ◌∷◌,
}
use wagering_wallet_service.Wallet.{Wallet, LedgerEntry}
use wagering_wallet_service.Reconcile.{sum_of, count_of, totals, Reconciliation, reconcile}
use wagering_wallet_service.Reconcile.{signed_amount}
use wagering_wallet_service.Reconcile.History.{History}
use wagering_wallet_service.Reconcile.Agreement.{reconcile-History}
use wagering_wallet_service.Store.{Store}
use wagering_wallet_service.Store.Books.{Sound, BookedAs}
use wagering_wallet_service.Store.Wallets
use wagering_wallet_service.Store.Ledger

sum_of-entries_of :
    (id : Uuid) (ledger : List LedgerEntry)
    → sum_of id (Ledger.entries_of id ledger) ≡ sum_of id ledger
unfolding sum_of
sum_of-entries_of id [] = refl
sum_of-entries_of id (e ∷ ledger) = elim (Bool-cases (e.wallet_id == id)) [
  | inl own ↦ rw own (rw own (ap (λ z. z +ℤ signed_amount e) (sum_of-entries_of id ledger)))
  | inr other ↦ rw other (sum_of-entries_of id ledger)
]

count_of-entries_of :
    (id : Uuid) (ledger : List LedgerEntry)
    → count_of id (Ledger.entries_of id ledger) ≡ count_of id ledger
unfolding count_of
count_of-entries_of id [] = refl
count_of-entries_of id (e ∷ ledger) = elim (Bool-cases (e.wallet_id == id)) [
  | inl own ↦ rw own (rw own (ap (λ n. n + 1) (count_of-entries_of id ledger)))
  | inr other ↦ rw other (count_of-entries_of id ledger)
]

reconcile-entries_of :
    (w : Wallet) (ledger : List LedgerEntry)
    → reconcile w (Ledger.entries_of w.id ledger) ≡ reconcile w ledger
unfolding reconcile totals
reconcile-entries_of w ledger =
    rw (sum_of-entries_of w.id ledger, count_of-entries_of w.id ledger) refl

-- On sound books the reconciliation of any wallet with the whole ledger succeeds, is consistent, shows
-- no difference, and counts exactly the wallet's own entries.
pub reconcile-Sound :
    (store : Store) (w : Wallet)
    → Sound store
    → find (Wallets.has_id w.id) store.wallets ≡ some w
    → (report : Reconciliation) × (reconcile w store.ledger ≡ ok report)
      × (report.consistent ≡ true)
      × (report.difference.minor ≡ pos 0)
      × (report.calculated_balance ≡ w.balance)
      × (report.checked_entries ≡ length (Ledger.entries_of w.id store.ledger))
reconcile-Sound store w (booked, amounts) found =
    let past : History (Ledger.entries_of w.id store.ledger) w =
      subst (λ o. BookedAs o (Ledger.entries_of w.id store.ledger)) found (booked w.id) in
    let (report, made, agrees, nothing, same, counted) = reconcile-History past in
    (report, sym (reconcile-entries_of w store.ledger) ∙ made, agrees, nothing, same, counted)
