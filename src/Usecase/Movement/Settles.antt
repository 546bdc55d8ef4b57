-- ===== src/Usecase/Movement/Settles.antt =====
-- A justified decision to move money can always be carried out.
use wagering_wallet_service.Base.{
  ◌==◌, Result, ok, Uuid, is_nil, Instant, is_unset, ℤ, pos, pos_part, ◌≤ℤ◌, ltb_ℤ, +ℤ_parts,
  -ℤ_parts, max_int64, in_int64, ◌+ℤ◌, ◌-ℤ◌, is_empty, ◌<◌, ◌≡◌, refl, ◌∙◌, true, false, not, ◌&&◌,
  ◌||◌, Option, arith,
}
use wagering_wallet_service.Money.{Money, supported}
use wagering_wallet_service.Money.Exact.{currency_eq→eq, currency_eq_refl}
use wagering_wallet_service.Money.{currency_eq, Currency}
use wagering_wallet_service.Wallet.{
  Wallet, LedgerEntry, Direction, debit, credit, unknown, is_direction,
}
use wagering_wallet_service.Wallet.Entry.{after}
use wagering_wallet_service.Wallet.Funds.{
  IsRequest, debit_wallet_lem, credit_wallet_lem, moved_to, entry_to,
}
use wagering_wallet_service.Wagering.Kind.{is_reversal, is_loss, forbids_reference}
use wagering_wallet_service.Wagering.Transaction.{
  Transaction, can_settle, check_processed, as_processed, mark_processed,
}
use wagering_wallet_service.Wagering.Decision.{Reference, process}
use wagering_wallet_service.Wagering.Decision.Grounds.{
  Case, IsExternal-open, Linked, unlinked, rewards, reverses,
}
use wagering_wallet_service.Usecase.Movement.{Applied, apply_financial_movement, chosen_move}

currency_eq_comm : (c d : Currency) → currency_eq c d ≡ true → currency_eq d c ≡ true
currency_eq_comm c d h = rw (currency_eq→eq c d h) (currency_eq_refl d)

module _ (account : Wallet) (operation : Transaction) (reference : Option Reference)
    (h : Case account operation reference) where
  -- What `MarkProcessed` asks of the reference.
  Linked-allowed :
      (id : Uuid)
      → Linked operation reference id
      → ((is_reversal operation.kind && is_nil id) ≡ false)
        × ((id == operation.id) ≡ false)
        × ((not (is_nil id)
              && (forbids_reference operation.kind || is_empty operation.reference_external_id))
            ≡ false)
  Linked-allowed _ (unlinked direct) = ground (arith, direct, h.storable.shaped.id_given)
  Linked-allowed _ (rewards t reversed found is_win is_bet near named) =
      let (given, own) = h.original t reversed found in
      ground (arith, given, own, is_win, is_bet, named)
  Linked-allowed _ (reverses t found reversal fitting near alike p q r f) =
      let (given, own) = h.original t false found in
      ground (
        arith,
        given,
        own,
        reversal,
        (IsExternal-open operation h.storable h.live).required,
        p,
        q,
        h.live,
        h.storable.shaped.status_known,
      )

  Linked-processed :
      (b : Money) (id : Uuid) (now : Instant)
      → is_unset now ≡ false
      → Linked operation reference id
      → supported b.currency ≡ true
      → pos 0 ≤ℤ b.minor
      → currency_eq b.currency operation.amount.currency ≡ true
      → check_processed b id now operation ≡ ok tt
  unfolding check_processed can_settle
  Linked-processed b id now dated link known nonneg same =
      ground (arith, Linked-allowed id link, h.live, h.storable.shaped.status_known)

  module _ (append : LedgerEntry → Result (Unit {0})) (update : Wallet → ℤ → Result (Unit {0}))
      (appends : (e : LedgerEntry) → append e ≡ ok tt)
      (updates : (w : Wallet) (version : ℤ) → update w version ≡ ok tt) (key : Uuid) (now : Instant)
      (id : Uuid) (keyed : is_nil key ≡ false) (dated : is_unset now ≡ false)
      (room : pos_part account.version < max_int64) (link : Linked operation reference id)
      (same : currency_eq operation.amount.currency account.balance.currency ≡ true)
      (moving : is_loss operation.kind ≡ false) where
    pub movement-IsRequest : IsRequest operation.id operation.amount key now account
    movement-IsRequest = record {
      operation_given = ground (arith, h.storable.shaped.id_given);
      key_given = ground arith;
      dated = ground arith;
      positive = (IsExternal-open operation h.storable h.live).amount_positive moving;
      fits = h.fits;
      same_currency = currency_eq→eq operation.amount.currency account.balance.currency same;
      room = room;
    }

    -- The result for the exact new balance `z`.
    abbrev pub applied : Direction → ℤ → Applied
    applied d z = record {
      entry =
          entry_to operation.id operation.amount key now account h.wallet movement-IsRequest d z;
      account =
          moved_to operation.id operation.amount key now account h.wallet movement-IsRequest z;
      operation = as_processed (record account.balance { minor = z }) id now operation;
    }

    uncovered :
        operation.amount.minor ≤ℤ account.balance.minor
        → ltb_ℤ account.balance.minor operation.amount.minor ≡ false
    uncovered covered = ground (arith, covered)

    settled :
        (d : Direction) (z : ℤ)
        → pos 0 ≤ℤ z
        → chosen_move d operation.id operation.amount key now account ≡ (
          ok (
              entry_to operation.id operation.amount key now account h.wallet movement-IsRequest d
                z),
          moved_to operation.id operation.amount key now account h.wallet movement-IsRequest z,
        )
        → apply_financial_movement append update key now
            (process d operation.amount id)
            account
            operation
          ≡ ok (applied d z)
    unfolding apply_financial_movement mark_processed
    settled d z nonneg moved =
        rw
          (
            apply_financial_movement,
            moved,
            appends (
                entry_to operation.id operation.amount key now account h.wallet movement-IsRequest d
                  z),
            updates
                (moved_to operation.id operation.amount key now account h.wallet movement-IsRequest
                  z)
                account.version,
            mark_processed,
            Linked-processed (record account.balance { minor = z }) id now dated link h.wallet.known
                nonneg (currency_eq_comm operation.amount.currency account.balance.currency same),
          )
          refl

    apply_financial_movement-debit :
        operation.amount.minor ≤ℤ account.balance.minor
        → apply_financial_movement append update key now
            (process debit operation.amount id)
            account
            operation
          ≡ ok (applied debit (account.balance.minor -ℤ operation.amount.minor))
    unfolding chosen_move
    apply_financial_movement-debit covered =
        settled debit (account.balance.minor -ℤ operation.amount.minor)
          (ground (arith, -ℤ_parts account.balance.minor operation.amount.minor))
          (debit_wallet_lem operation.id operation.amount key now account h.wallet
              movement-IsRequest
            ∙ rw (uncovered covered) refl)

    apply_financial_movement-credit :
        in_int64 (account.balance.minor +ℤ operation.amount.minor) ≡ true
        → apply_financial_movement append update key now
            (process credit operation.amount id)
            account
            operation
          ≡ ok (applied credit (account.balance.minor +ℤ operation.amount.minor))
    unfolding chosen_move
    apply_financial_movement-credit fitting =
        settled credit (account.balance.minor +ℤ operation.amount.minor)
          (ground (
            arith,
            h.wallet.nonneg,
            movement-IsRequest.positive,
            +ℤ_parts account.balance.minor operation.amount.minor,
          ))
          (credit_wallet_lem operation.id operation.amount key now account h.wallet
              movement-IsRequest
            ∙ rw fitting refl)

    -- A movement that `Decide` granted goes through: with repositories that accept the writes, a debit
    -- that the balance covers, or a credit whose sum fits in an int64, changes the balance of the wallet
    -- by exactly the amount, its entry says so, and the operation is processed with that balance.
    pub apply_financial_movement_lem :
        (d : Direction)
        → is_direction d ≡ true
        → pos 0 ≤ℤ after d account.balance.minor operation.amount.minor
        → in_int64 (after d account.balance.minor operation.amount.minor) ≡ true
        → apply_financial_movement append update key now
            (process d operation.amount id)
            account
            operation
          ≡ ok (applied d (after d account.balance.minor operation.amount.minor))
    apply_financial_movement_lem debit directed nonneg fitting =
        apply_financial_movement-debit
          (ground (arith, nonneg, -ℤ_parts account.balance.minor operation.amount.minor))
    apply_financial_movement_lem credit directed nonneg fitting =
        apply_financial_movement-credit fitting
    apply_financial_movement_lem (unknown name) directed nonneg fitting =
        absurd (ground (arith, directed))
