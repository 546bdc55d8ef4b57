-- ===== src/Usecase/OpenWallet.antt =====
-- The opening of a wallet: internal/application/usecase/open_wallet.go and
-- internal/application/dto/open_wallet_input.go. Logging is left out.
pub mod Keeps
use wagering_wallet_service.Base.{
  ◌+◌, WalletError, Failure, Result, refuse_if, of_wallet, wallet_conflict, invalid_input, err, ok,
  Uuid, Instant, ℕ, String, not, ◌||◌, Option, none, some, List, [], ◌∷◌,
}
use wagering_wallet_service.Money.{Money, is_valid, is_negative}
use wagering_wallet_service.Wallet.{Wallet, LedgerEntry, open_wallet}
use wagering_wallet_service.Wagering.Transaction.{new_opening}
use wagering_wallet_service.Event.{Envelope}
use wagering_wallet_service.Store.UnitOfWork.{Fate, Outcome, rolled_back, do_work}
use wagering_wallet_service.Store.{Session, Store, Tx, ◌>>=◌, ◌>>◌, return, pure_result, new_id}
use wagering_wallet_service.Store.Wallets
use wagering_wallet_service.Store.Ledger
use wagering_wallet_service.Store.Transactions
use wagering_wallet_service.Usecase.Events.{append_settlement_events}

pub record OpenWalletInput : Type 0 where
  pub player_id : Uuid
  pub initial_balance : Money
  pub correlation_id : String

-- `Validate`; the problems of the struct's tags are an argument.
unfoldable pub validate : List String → OpenWalletInput → Result (Unit {0})
validate [] i =
    refuse_if (not (is_valid i.initial_balance) || is_negative i.initial_balance) invalid_input
validate (_ ∷ _) i = err invalid_input

module _ (uuid_text : Uuid → String) (marshal : Envelope → Result (List ℕ)) (ids : ℕ → Uuid) where
  -- `recordOpeningBalance`; a wallet that opens empty has no entry.
  unfoldable pub record_opening_balance :
      OpenWalletInput → Uuid → Instant → Wallet → Option LedgerEntry → Tx (Unit {0})
  unfolding append_settlement_events
  record_opening_balance input opening_id now created none = return tt
  record_opening_balance input opening_id now created (some entry) = do
    opening ← pure_result (
        new_opening opening_id created.id input.player_id input.initial_balance input.correlation_id
          now)
    _ ← Transactions.insert opening
    Ledger.append entry
    append_settlement_events uuid_text marshal ids now opening (some entry) created.balance

  -- The unit of work of `Execute`.
  unfoldable pub create_wallet : OpenWalletInput → Uuid → Instant → Tx Wallet
  unfolding record_opening_balance
  create_wallet input opening_id now = do
    wallet_id ← new_id ids
    key ← new_id ids
    (created, entry) ←
        pure_result (open_wallet wallet_id input.player_id input.initial_balance opening_id key now)
    Wallets.create created
    record_opening_balance input opening_id now created entry
    return created

-- `conflict`: the error for a player who has a wallet in the currency.
abbrev pub conflict : Result (Option Wallet) → Failure
conflict (ok (some existing)) = wallet_conflict existing.id
conflict _ = of_wallet WalletError.already_exists

-- The errors that `Execute` answers for those of its unit of work; the wallets are those that
-- `conflict` reads.
abbrev pub explain : OpenWalletInput → Store → Failure → Failure
explain input store (of_wallet WalletError.already_exists) =
    conflict
      (Wallets.find_one (Wallets.of_player input.player_id input.initial_balance.currency) store)
explain input store failure = failure

-- The error that `Execute` answers in place of that of its unit of work.
abbrev pub explained_in : OpenWalletInput → Outcome Wallet → Outcome Wallet
explained_in input o = elim o.answer [
  | ok _ ↦ o
  | err e ↦ record o { answer = err (explain input o.session.store e) }
]

module _ (uuid_text : Uuid → String) (marshal : Envelope → Result (List ℕ)) (ids : ℕ → Uuid)
    (tag_problems : OpenWalletInput → List String) (retry_attempts : ℕ) (fates : ℕ → Fate) where
  -- `Execute`; the identifier of the opening is drawn before the unit of work.
  unfoldable pub execute_open_wallet : OpenWalletInput → Instant → Session → Outcome Wallet
  unfolding validate create_wallet do_work
  execute_open_wallet input now s = elim (validate (tag_problems input) input) [
    | err e ↦ rolled_back e s
    | ok _ ↦ explained_in input (
        do_work retry_attempts fates (create_wallet uuid_text marshal ids input (ids s.drawn) now)
          (record s { drawn = s.drawn + 1 }))
  ]
