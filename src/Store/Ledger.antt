-- ===== src/Store/Ledger.antt =====
-- repositories/ledger_repository_sql.go; `Totals` is in Reconcile. The unique constraints of the
-- table are written out.
use wagering_wallet_service.Base.{
  ◌==◌, if◌then◌else◌, Result, database, err, ok, Uuid, any, select, take, ℤ, ltb_ℤ, eqb_ℤ, ℕ, Bool,
  ◌&&◌, ◌||◌, List, [], ◌∷◌,
}
use wagering_wallet_service.Wallet.{LedgerEntry, new_ledger_entry}
use wagering_wallet_service.Store.{Store, Tx, execute, query}

abbrev pub collides : LedgerEntry → LedgerEntry → Bool
collides new e =
    e.id == new.id
    || e.transaction_id == new.transaction_id
    || (e.wallet_id == new.wallet_id && eqb_ℤ e.wallet_version new.wallet_version)

unfoldable pub append_in : LedgerEntry → Store → Result (Unit {0} × Store)
append_in new store =
    if any (collides new) store.ledger
    then err database
    else ok (tt, record store { ledger = new ∷ store.ledger })

-- `Append`
abbrev pub append : LedgerEntry → Tx (Unit {0})
append new = execute (append_in new)

-- The entries of one wallet.
abbrev pub is_of : Uuid → LedgerEntry → Bool
is_of wallet_id e = e.wallet_id == wallet_id

abbrev pub entries_of : Uuid → List LedgerEntry → List LedgerEntry
entries_of wallet_id = select (is_of wallet_id)

-- `ORDER BY wallet_version`
unfoldable pub insert_ordered : LedgerEntry → List LedgerEntry → List LedgerEntry
insert_ordered e [] = e ∷ []
insert_ordered e (f ∷ fs) =
    let rest = insert_ordered e fs in
    if ltb_ℤ e.wallet_version f.wallet_version then e ∷ f ∷ fs else f ∷ rest

unfoldable pub ordered : List LedgerEntry → List LedgerEntry
unfolding insert_ordered
ordered [] = []
ordered (e ∷ es) = insert_ordered e (ordered es)

abbrev pub is_after : Uuid → ℤ → LedgerEntry → Bool
is_after wallet_id version e = is_of wallet_id e && ltb_ℤ version e.wallet_version

-- `scanLedgerEntry` on each row, which passes `wallet.NewLedgerEntry`.
unfoldable pub scan_all : List LedgerEntry → Result (List LedgerEntry)
scan_all [] = ok []
scan_all (row ∷ rows) =
    let rest = scan_all rows in
    elim (new_ledger_entry row) [
      | err failure ↦ err failure
      | ok e ↦ elim rest [ err failure ↦ err failure | ok es ↦ ok (e ∷ es) ]
    ]

unfoldable pub list_in : Uuid → ℤ → ℕ → Store → Result (List LedgerEntry)
unfolding ordered scan_all
list_in wallet_id after_version limit store =
    scan_all (take limit (ordered (select (is_after wallet_id after_version) store.ledger)))

-- `ListAfterVersion`
abbrev pub list_after_version : Uuid → ℤ → ℕ → Tx (List LedgerEntry)
list_after_version wallet_id after_version limit = query (list_in wallet_id after_version limit)
