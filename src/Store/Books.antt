-- ===== src/Store/Books.antt =====
-- The books: every wallet's ledger is its history, and every operation's amount is an int64.
use mathlib.Core.Path.{subst}
use wagering_wallet_service.Base.{
  ◌==◌, if◌then◌else◌, Bool-cases, Option-cases, ok, Uuid, Instant, find, any, update_where, All,
  find-some-test, find-update_where, any-find-none, InInt64, ◌≡◌, refl, sym, ap, ◌∙◌, inl, inr,
  true, false, Option, none, some, List, [], ◌∷◌, ◌++◌, arith,
}
use wagering_wallet_service.Money.{Money}
use wagering_wallet_service.Wallet.{Wallet, LedgerEntry, Direction, move, open_wallet}
use wagering_wallet_service.Wallet.Movement.{Records, move-ok}
use wagering_wallet_service.Wagering.Transaction.{Transaction}
use wagering_wallet_service.Reconcile.History.{
  AllOn, History-Chain, History, moved, opened, first_entries, History-IsValid,
}
use wagering_wallet_service.Store.{Store}
use wagering_wallet_service.Store.Wallets
use wagering_wallet_service.Store.Ledger

-- A wallet that is found has come about by the movements that its ledger holds; one that is not
-- there has no entries.
abbrev pub BookedAs : Option Wallet → List LedgerEntry → Type 0
BookedAs none entries = entries ≡ []
BookedAs (some w) entries = History entries w

abbrev pub Booked : List Wallet → List LedgerEntry → Type 0
Booked wallets ledger =
    (id : Uuid) → BookedAs (find (Wallets.has_id id) wallets) (Ledger.entries_of id ledger)

abbrev pub HasAmount : Transaction → Type 0
HasAmount t = InInt64 t.amount.minor

abbrev pub Sound : Store → Type 0
Sound store = Booked store.wallets store.ledger × All HasAmount store.transactions

-- A row whose wallet was moved holds the wallet after the movement.
with_balance-moved :
    {d : Direction} {operation : Uuid} {amount : Money} {key : Uuid} {now : Instant} {w w' : Wallet}
    {e : LedgerEntry}
    → Records d operation amount key now w w' e
    → Wallets.with_balance w' w ≡ w'
with_balance-moved {w = w} {w' = w'} r =
    rw (sym r.same_id, sym r.same_player, sym r.same_currency, sym r.same_created) refl

entries_of-own :
    (id : Uuid) (e : LedgerEntry) (ledger : List LedgerEntry)
    → e.wallet_id ≡ id
    → Ledger.entries_of id (e ∷ ledger) ≡ e ∷ Ledger.entries_of id ledger
entries_of-own id e ledger h = ground (arith, h)

entries_of-other :
    (id : Uuid) (e : LedgerEntry) (ledger : List LedgerEntry)
    → (e.wallet_id == id) ≡ false
    → Ledger.entries_of id (e ∷ ledger) ≡ Ledger.entries_of id ledger
entries_of-other id e ledger h = ground (arith, h)

-- The same for a list of entries of one wallet.
entries_of-AllOn :
    (id : Uuid) (new ledger : List LedgerEntry)
    → AllOn id new
    → Ledger.entries_of id (new ++ ledger) ≡ new ++ Ledger.entries_of id ledger
entries_of-AllOn id [] ledger own = refl
entries_of-AllOn id (e ∷ new) ledger (own, others) =
    entries_of-own id e (new ++ ledger) own
    ∙ ap (λ es. e ∷ es) (entries_of-AllOn id new ledger others)

entries_of-AllOn_other :
    (id k : Uuid) (new ledger : List LedgerEntry)
    → AllOn id new
    → (id == k) ≡ false
    → Ledger.entries_of k (new ++ ledger) ≡ Ledger.entries_of k ledger
entries_of-AllOn_other id k [] ledger own other = refl
entries_of-AllOn_other id k (e ∷ new) ledger (own, others) other =
    entries_of-other k e (new ++ ledger) (rw own other)
    ∙ entries_of-AllOn_other id k new ledger others other

++-nil : (entries : List LedgerEntry) → entries ++ [] ≡ entries
++-nil [] = refl
++-nil (e ∷ entries) = ap (λ es. e ∷ es) (++-nil entries)

module _ (d : Direction) (operation : Uuid) (amount : Money) (key : Uuid) (now : Instant)
    (wallets : List Wallet) (ledger : List LedgerEntry) (w w' : Wallet) (e : LedgerEntry)
    (booked : Booked wallets ledger) (found : find (Wallets.has_id w.id) wallets ≡ some w)
    (fits : InInt64 amount.minor) (done : move d operation amount key now w ≡ (ok e, w')) where
  past : History (Ledger.entries_of w.id ledger) w
  past = subst (λ o. BookedAs o (Ledger.entries_of w.id ledger)) found (booked w.id)

  recorded : Records d operation amount key now w w' e
  recorded = move-ok d operation amount key now w (History-IsValid past) fits done

  -- The tables after the movement.
  abbrev wallets_after : List Wallet
  wallets_after =
      update_where (Wallets.at_version w'.id w.version) (Wallets.with_balance w') wallets

  found_after :
      (id : Uuid)
      → find (Wallets.has_id id) wallets_after ≡ elim (find (Wallets.has_id id) wallets) [
        | none ↦ none
        | some x ↦
            some (if Wallets.at_version w'.id w.version x then Wallets.with_balance w' x else x)
      ]
  found_after id =
      find-update_where (Wallets.has_id id) (Wallets.at_version w'.id w.version)
        (Wallets.with_balance w') wallets (λ x. refl)

  own_test : Wallets.at_version w'.id w.version w ≡ true
  own_test = ground (arith, recorded.same_id)

  own_row : find (Wallets.has_id w.id) wallets_after ≡ some w'
  own_row = rw (found_after w.id, found) (rw (own_test, with_balance-moved recorded) refl)

  other_row :
      (id : Uuid)
      → (w.id == id) ≡ false
      → find (Wallets.has_id id) wallets_after ≡ find (Wallets.has_id id) wallets
  other_row id other = elim (Option-cases (find (Wallets.has_id id) wallets)) [
    | inl gone ↦ rw (found_after id, gone) refl
    | inr (x, there) ↦
        let same = find-some-test (Wallets.has_id id) wallets there in
        let untouched : Wallets.at_version w'.id w.version x ≡ false =
          ground (arith, same, other, recorded.same_id) in
        rw (found_after id, there) (rw untouched refl)
  ]

  -- A movement of a wallet that is found, its entry appended and its row updated, keeps the books.
  pub move-Booked : Booked wallets_after (e ∷ ledger)
  move-Booked id = elim (Bool-cases (w.id == id)) [
    | inl own ↦
        subst
          (λ k. BookedAs (find (Wallets.has_id k) wallets_after) (Ledger.entries_of k (e ∷ ledger)))
          {x = w.id} {y = id} (ground (arith, own))
          (rw (own_row, entries_of-own w.id e ledger recorded.on_wallet)
            (moved d operation amount key now e w' past fits done))
    | inr other ↦
        rw
          (
            other_row id other,
            entries_of-other id e ledger (ground (arith, other, recorded.on_wallet)),
          )
          (booked id)
  ]

module _ (id player_id : Uuid) (initial : Money) (operation key : Uuid) (now : Instant)
    (wallets : List Wallet) (ledger : List LedgerEntry) (w : Wallet) (entry : Option LedgerEntry)
    (booked : Booked wallets ledger) (fresh : any (Wallets.has_id w.id) wallets ≡ false)
    (fits : InInt64 initial.minor)
    (done : open_wallet id player_id initial operation key now ≡ ok (w, entry)) where
  no_entries : Ledger.entries_of w.id ledger ≡ []
  no_entries =
      subst (λ o. BookedAs o (Ledger.entries_of w.id ledger))
        (any-find-none (Wallets.has_id w.id) wallets fresh) (booked w.id)

  first_row : find (Wallets.has_id w.id) (w ∷ wallets) ≡ some w
  first_row = ground arith

  first_history : History (first_entries entry) w
  first_history = opened id player_id initial operation key now w entry fits done

  -- The opening of a wallet that is not there yet, with its entry, keeps the books.
  pub open_wallet-Booked : Booked (w ∷ wallets) (first_entries entry ++ ledger)
  open_wallet-Booked k = elim (Bool-cases (w.id == k)) [
    | inl own ↦
        subst
          (λ k.
            BookedAs (find (Wallets.has_id k) (w ∷ wallets))
              (Ledger.entries_of k (first_entries entry ++ ledger)))
          {x = w.id} {y = k} (ground (arith, own))
          (rw
            (
              entries_of-AllOn w.id (first_entries entry) ledger (History-Chain first_history).1,
              no_entries,
              ++-nil (first_entries entry),
              first_row,
            )
            first_history)
    | inr other ↦
        rw
          (
            other,
            entries_of-AllOn_other w.id k (first_entries entry) ledger
                (History-Chain first_history).1 other,
          )
          (booked k)
  ]
