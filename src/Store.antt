-- ===== src/Store.antt =====
-- The database and the transactions on it: the tables of internal/infrastructure/postgres, read and
-- written by the repositories of its directory repositories. One transaction runs at a time: the row
-- locks make two that meet on a wallet or an operation take turns.
pub mod Wallets
pub mod Transactions
pub mod Ledger
pub mod Outbox
pub mod Inbox
pub mod Triple
pub mod Books
pub mod Statements
pub mod Claims
pub mod UnitOfWork
pub mod Reconciled
mod Tests
use wagering_wallet_service.Base.{Failure, Result, err, ok, Uuid, ℕ, ◌+◌, List}
use wagering_wallet_service.Wallet.{Wallet, LedgerEntry}
use wagering_wallet_service.Wagering.Transaction.{Transaction}
use wagering_wallet_service.Messaging.{OutboxEvent, InboxMessage}

-- The rows of each table, the newest first. A row is the value that the repository writes and scans,
-- NULL being the empty text, the zero instant, `uuid.Nil` or the zero amount.
pub record Store : Type 0 where
  pub wallets : List Wallet
  pub transactions : List Transaction
  pub ledger : List LedgerEntry
  pub outbox : List OutboxEvent
  pub inbox : List InboxMessage

-- The store and the number of identifiers drawn from the generator.
pub record Session : Type 0 where
  pub store : Store
  pub drawn : ℕ

-- The body of a unit of work: an error ends it.
abbrev pub Tx {ℓ} : Type ℓ → Type ℓ
Tx A = Session → Result (A × Session)

infixl 5 ◌>>=◌ ◌>>◌
abbrev pub ◌>>=◌ {ℓ κ} : {A : Type ℓ} {B : Type κ} → Tx A → (A → Tx B) → Tx B
◌>>=◌ m f s = elim (m s) [ err failure ↦ err failure | ok (a, s') ↦ f a s' ]

abbrev pub ◌>>◌ {ℓ} : {B : Type ℓ} → Tx (Unit {0}) → Tx B → Tx B
m >> k = m >>= λ _. k

abbrev pub return {ℓ} : {A : Type ℓ} → A → Tx A
return a s = ok (a, s)

abbrev pub fail {ℓ} : {A : Type ℓ} → Failure → Tx A
fail failure s = err failure

-- A call that touches no table.
abbrev pub pure_result {ℓ} : {A : Type ℓ} → Result A → Tx A
pure_result (ok a) s = ok (a, s)
pure_result (err failure) s = err failure

-- A query, and a statement that changes the tables.
abbrev pub query {ℓ} : {A : Type ℓ} → (Store → Result A) → Tx A
query f s = pure_result (f s.store) s

abbrev pub execute {ℓ} : {A : Type ℓ} → (Store → Result (A × Store)) → Tx A
execute f s = elim (f s.store) [
  | err failure ↦ err failure
  | ok (a, store) ↦ ok (a, record s { store = store })
]

-- `ids.New()`
abbrev pub new_id : (ℕ → Uuid) → Tx Uuid
new_id ids s = ok (ids s.drawn, record s { drawn = s.drawn + 1 })
