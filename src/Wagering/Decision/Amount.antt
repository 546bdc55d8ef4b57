-- ===== src/Wagering/Decision/Amount.antt =====
-- The amount that a decision moves.
use wagering_wallet_service.Base.{
  ◌||◌, ◌==◌, Bool-cases, Option-cases, MoneyError, Result, Result-cases, of_money, err, ok, Uuid,
  nil_uuid, Instant, pos, ltb_ℤ, InInt64, inl, inr, Bool, not, Option, some, arith,
}
use wagering_wallet_service.Money
use wagering_wallet_service.Money.{Money, equal, currency_eq}
use wagering_wallet_service.Wallet.{Wallet, Direction, debit, credit, unknown, owned_by}
use wagering_wallet_service.Wagering.Kind.{
  Kind, opening, bet, win, loss, refund, rollback, Status, pending, pending_reference, rejected,
  failed, processed, FailureCode, reference_not_processed, reference_not_found, insufficient_funds,
  reversal_insufficient_funds,
}
use wagering_wallet_service.Wagering.Transaction.{Transaction}
use wagering_wallet_service.Wagering.Decision.{
  same_round, reversible, deadline_reached, FailureCode, Decision, Reference, process, reject,
  decide_debit, decide_credit, decide_bet, resolve_win, decide_win, decide_side, decide_settled,
  wait_or_reject, decide_reversal, decide_kind, decide, reversal_direction, referenced,
}

-- The decision, when there is one, moves an int64 amount.
abbrev pub MovesInt64 : Result Decision → Type 0
MovesInt64 (err _) = Unit
MovesInt64 (ok d) = InInt64 d.movement.amount.minor

zero-InInt64 : InInt64 (pos 0)
zero-InInt64 = (omega arith, omega arith)

late-MovesInt64 :
    (operation : Transaction) (now : Instant) (code : FailureCode)
    → MovesInt64 (wait_or_reject operation now code)
unfolding wait_or_reject
late-MovesInt64 operation now code = elim (Bool-cases (deadline_reached operation now)) [
  | inl late ↦ rw late zero-InInt64
  | inr early ↦ rw early zero-InInt64
]

module _ (account : Wallet) (operation : Transaction) (fits : InInt64 operation.amount.minor) where
  debit-MovesInt64 :
      (code : FailureCode) (id : Uuid)
      → MovesInt64 (decide_debit account operation code (process debit operation.amount id))
  unfolding decide_debit
  debit-MovesInt64 code id = elim (Result-cases (Money.cmp account.balance operation.amount)) [
    | inl (c, compared) ↦ elim (Bool-cases (ltb_ℤ c (pos 0))) [
      | inl short ↦ rw (compared, short) zero-InInt64
      | inr covered ↦ rw (compared, covered) fits
    ]
    | inr (e, refused) ↦ rw refused tt
  ]

  credit-MovesInt64 :
      (d : Direction) (id : Uuid)
      → MovesInt64 (decide_credit account operation (process d operation.amount id))
  unfolding decide_credit
  credit-MovesInt64 d id =
      elim (Money.add account.balance operation.amount)
        as (λ m. MovesInt64 (elim m [
          | ok _ ↦ ok (process d operation.amount id)
          | err (of_money MoneyError.overflow) ↦ ok (reject FailureCode.balance_limit_exceeded)
          | err e ↦ err e
        ])) [ ok _ ↦ fits | err (of_money MoneyError.overflow) ↦ zero-InInt64 | err e ↦ tt ]

  win-MovesInt64 :
      (reference : Option Reference) → MovesInt64 (decide_win account operation reference)
  unfolding decide_win
  win-MovesInt64 reference =
      elim (resolve_win operation reference)
        as (λ r. MovesInt64 (elim r [
          | inl code ↦ ok (reject code)
          | inr resolved ↦
              decide_credit account operation (process credit operation.amount resolved)
        ])) [ inl code ↦ zero-InInt64 | inr resolved ↦ credit-MovesInt64 credit resolved ]

  side-MovesInt64 : (id : Uuid) (d : Direction) → MovesInt64 (decide_side account operation id d)
  unfolding decide_side
  side-MovesInt64 id debit = debit-MovesInt64 reversal_insufficient_funds id
  side-MovesInt64 id credit = credit-MovesInt64 credit id
  side-MovesInt64 id (unknown text) = credit-MovesInt64 (unknown text) id

  settled-MovesInt64 :
      (original : Transaction) (reversed : Bool)
      → MovesInt64 (decide_settled account operation original reversed)
  unfolding decide_settled
  settled-MovesInt64 original reversed =
      elim (Bool-cases (not (reversible operation.kind original.kind))) [
        | inl other_kind ↦ rw other_kind zero-InInt64
        | inr allowed ↦
            elim (Bool-cases (
              not (same_round operation original)
              || not (equal operation.amount original.amount))) [
                | inl mismatch ↦ rw (allowed, mismatch) zero-InInt64
                | inr same ↦ elim (Bool-cases reversed) [
                  | inl before_now ↦ rw (allowed, same, before_now) zero-InInt64
                  | inr first ↦
                      rw (allowed, same, first)
                        (side-MovesInt64 original.id
                          (reversal_direction operation.kind original.kind))
                ]
              ]
      ]

  status-MovesInt64 :
      (status : Status) (now : Instant) (original : Transaction) (reversed : Bool)
      → MovesInt64 (elim status [
        | pending ↦ wait_or_reject operation now reference_not_processed
        | pending_reference ↦ wait_or_reject operation now reference_not_processed
        | rejected ↦ ok (reject reference_not_processed)
        | failed ↦ ok (reject reference_not_processed)
        | _ ↦ decide_settled account operation original reversed
      ])
  status-MovesInt64 pending now original reversed =
      late-MovesInt64 operation now reference_not_processed
  status-MovesInt64 pending_reference now original reversed =
      late-MovesInt64 operation now reference_not_processed
  status-MovesInt64 rejected now original reversed = zero-InInt64
  status-MovesInt64 failed now original reversed = zero-InInt64
  status-MovesInt64 processed now original reversed = settled-MovesInt64 original reversed
  status-MovesInt64 (Status.other text) now original reversed = settled-MovesInt64 original reversed

  reversal-MovesInt64 :
      (reference : Option Reference) (now : Instant)
      → MovesInt64 (decide_reversal account operation reference now)
  unfolding decide_reversal
  reversal-MovesInt64 reference now = elim (Option-cases (referenced reference)) [
    | inl gone ↦ rw (MovesInt64, gone) (late-MovesInt64 operation now reference_not_found)
    | inr ((original, reversed), there) ↦
        rw (MovesInt64, there) (status-MovesInt64 original.status now original reversed)
  ]

  kind-MovesInt64 :
      (kind : Kind) (reference : Option Reference) (now : Instant)
      → MovesInt64 (decide_kind kind account operation reference now)
  unfolding decide_kind decide_bet
  kind-MovesInt64 bet reference now = debit-MovesInt64 insufficient_funds nil_uuid
  kind-MovesInt64 win reference now = win-MovesInt64 reference
  kind-MovesInt64 loss reference now = zero-InInt64
  kind-MovesInt64 refund reference now = reversal-MovesInt64 reference now
  kind-MovesInt64 rollback reference now = reversal-MovesInt64 reference now
  kind-MovesInt64 opening reference now = tt
  kind-MovesInt64 (Kind.other text) reference now = tt

  -- Whatever `Decide` answers for an operation with an int64 amount moves an int64 amount.
  pub decide-MovesInt64 :
      (reference : Option Reference) (now : Instant)
      → MovesInt64 (decide (some account) (some operation) reference now)
  unfolding decide
  decide-MovesInt64 reference now = elim (Bool-cases (not (account.id == operation.wallet_id))) [
    | inl elsewhere ↦ rw elsewhere tt
    | inr own ↦ elim (Bool-cases (not (owned_by account operation.player_id))) [
      | inl stranger ↦ rw (own, stranger) zero-InInt64
      | inr owner ↦
          elim (Bool-cases (not (currency_eq operation.amount.currency account.balance.currency))) [
            | inl foreign ↦ rw (own, owner, foreign) zero-InInt64
            | inr same ↦ rw (own, owner, same) (kind-MovesInt64 operation.kind reference now)
          ]
    ]
  ]
