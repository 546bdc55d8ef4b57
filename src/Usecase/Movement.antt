-- ===== src/Usecase/Movement.antt =====
-- The settlement of a decision: internal/application/usecase/financial_movement.go. The writes to the
-- repositories are parameters, as the code's interfaces are; an error of any step ends the
-- transaction, which rolls all of them back.
pub mod Settles
use wagering_wallet_service.Base.{Result, ◌>>=◌, ◌>>◌, err, ok, Uuid, Instant, ℤ}
use wagering_wallet_service.Money.{Money}
use wagering_wallet_service.Wallet.{
  Wallet, LedgerEntry, Direction, debit, debit_wallet, credit_wallet,
}
use wagering_wallet_service.Wagering.Transaction.{Transaction, mark_processed}
use wagering_wallet_service.Wagering.Decision.{Decision}

-- What the call leaves when it succeeds: its entry, the wallet and the operation.
pub record Applied : Type 0 where
  pub entry : LedgerEntry
  pub account : Wallet
  pub operation : Transaction

-- A method's answer and the object after it, as a result that carries the object.
abbrev pub with_state {ℓ κ} : {A : Type ℓ} {S : Type κ} → Result A × S → Result (A × S)
with_state (err failure, state) = err failure
with_state (ok answer, state) = ok (answer, state)

unfoldable pub chosen_move :
    Direction → Uuid → Money → Uuid → Instant → Wallet → Result LedgerEntry × Wallet
unfolding debit_wallet credit_wallet
chosen_move debit = debit_wallet
chosen_move _ = credit_wallet

module _ (append : LedgerEntry → Result (Unit {0})) (update : Wallet → ℤ → Result (Unit {0})) where
  unfoldable pub apply_financial_movement :
      Uuid → Instant → Decision → Wallet → Transaction → Result Applied
  unfolding chosen_move mark_processed
  apply_financial_movement key now decision account operation = do
    (entry, moved) ← with_state (
        chosen_move decision.movement.direction operation.id decision.movement.amount key now
          account)
    append entry
    update moved account.version
    (_, settled) ← with_state (mark_processed moved.balance decision.reference_id now operation)
    ok (record { entry = entry; account = moved; operation = settled })
