-- ===== src/Store/Wallets.antt =====
-- repositories/wallet_repository_sql.go. The unique constraints of the table are written out.
use wagering_wallet_service.Base.{
  ◌==◌, if◌then◌else◌, WalletError, Result, of_wallet, database, err, ok, Uuid, find, any,
  update_where, ℤ, eqb_ℤ, Bool, ◌&&◌, Option, none, some, ◌∷◌,
}
use wagering_wallet_service.Money.{Currency, currency_eq}
use wagering_wallet_service.Wallet
use wagering_wallet_service.Wallet.{Wallet}
use wagering_wallet_service.Store.{Store, Tx, execute, query, ◌>>=◌, return, fail}

abbrev pub has_id : Uuid → Wallet → Bool
has_id id w = w.id == id

abbrev pub of_player : Uuid → Currency → Wallet → Bool
of_player player_id currency w = w.player_id == player_id && currency_eq w.balance.currency currency

unfoldable pub create_in : Wallet → Store → Result (Unit {0} × Store)
create_in opened store =
    if any (has_id opened.id) store.wallets
    then err database
    else if any (of_player opened.player_id opened.balance.currency) store.wallets
    then err (of_wallet WalletError.already_exists)
    else ok (tt, record store { wallets = opened ∷ store.wallets })

-- `Create`
abbrev pub create : Wallet → Tx (Unit {0})
create opened = execute (create_in opened)

-- `findOne`: the scanned row passes `wallet.Rehydrate`.
unfoldable pub find_one : (Wallet → Bool) → Store → Result (Option Wallet)
find_one condition store = elim (find condition store.wallets) [
  | none ↦ ok none
  | some row ↦ elim (Wallet.rehydrate row) [ err failure ↦ err failure | ok w ↦ ok (some w) ]
]

-- `Find` and `FindByPlayer`
abbrev pub find_by_id : Uuid → Tx (Option Wallet)
find_by_id id = query (find_one (has_id id))

abbrev pub find_by_player : Uuid → Currency → Tx (Option Wallet)
find_by_player player_id currency = query (find_one (of_player player_id currency))

abbrev pub required : Option Wallet → Tx Wallet
required none = fail (of_wallet WalletError.not_found)
required (some w) = return w

-- `FindForUpdate`
abbrev pub find_for_update : Uuid → Tx Wallet
find_for_update id = do found ← find_by_id id; required found

-- The row that `UPDATE` is for, and what it sets.
abbrev pub at_version : Uuid → ℤ → Wallet → Bool
at_version id version w = has_id id w && eqb_ℤ w.version version

abbrev pub with_balance : Wallet → Wallet → Wallet
with_balance updated row = record row {
  balance = record row.balance { minor = updated.balance.minor };
  version = updated.version;
  updated_at = updated.updated_at;
}

unfoldable pub update_in : Wallet → ℤ → Store → Result (Unit {0} × Store)
update_in updated expected store =
    let condition = at_version updated.id expected in
    if any condition store.wallets
    then ok
        (tt, record store { wallets = update_where condition (with_balance updated) store.wallets })
    else err (of_wallet WalletError.version_changed)

-- `Update`
abbrev pub update : Wallet → ℤ → Tx (Unit {0})
update updated expected = execute (update_in updated expected)
