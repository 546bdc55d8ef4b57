-- ===== src/Wagering/Decision/Rules.antt =====
-- When `Decide` processes, rejects or waits.
use wagering_wallet_service.Base.{
  ◌<ℤ◌, Option-cases, if◌then◌else◌, Bool-cases, ok, Uuid, nil_uuid, Instant, ltb_ℤ, in_int64, ◌+ℤ◌,
  is_empty, ◌≡◌, refl, sym, ◌∙◌, ◌≢◌, inl, inr, Bool, true, Option, some, arith,
}
use wagering_wallet_service.Money
use wagering_wallet_service.Money.{Money, supported, is_valid, is_positive, currency_eq, equal}
use wagering_wallet_service.Money.Exact.{Compatible, add_lem, comparable_with_lem, currency_eq→eq}
use wagering_wallet_service.Wallet.{Wallet, Direction, debit, credit}
use wagering_wallet_service.Wagering.Kind.{
  Status, Kind, bet, win, loss, pending, pending_reference, rejected, failed, FailureCode,
  reference_mismatch, reference_kind_not_allowed, already_reversed, reversal_insufficient_funds,
  balance_limit_exceeded, is_reversal,
}
use wagering_wallet_service.Wagering.Transaction.{Transaction}
use wagering_wallet_service.Wagering.Decision.{
  wallet_player_mismatch, resolve_win, owned_by, decide_bet, is_bet, decide_kind, decide,
  decide_win, reference_not_processed, is_direction, reference_not_found, decide_reversal,
  decide_side, Reference, Decision, process, reject, process_nothing, wait, reversible,
  reversal_direction, same_round, deadline_reached, referenced, decide_debit, decide_credit,
  decide_settled, wait_or_reject,
}
use wagering_wallet_service.Wagering.Decision.Grounds.{
  Reason, stranger, foreign, short_bet, short_reversal, over_limit, never_came, never_settled,
  not_processed, rewards_other, irreversible, other_round, other_amount, reversed_before,
  reversed_before, other_amount, other_round, Reason, never_settled, over_limit, irreversible,
  rewards_other, never_came, short_reversal, Case, IsExternal, IsExternal-open, Linked, unlinked,
  rewards, reverses, Side, pays, receives, gives_back, Unsettled, missing, still_pending,
  nothing_to_move, debits, credits, rejects, waits, Justified,
}

decide_debit_lem :
    (account : Wallet) (operation : Transaction) (code : FailureCode) (d : Decision)
    → Compatible account.balance operation.amount
    → decide_debit account operation code d
      ≡ ok (if ltb_ℤ account.balance.minor operation.amount.minor then reject code else d)
unfolding decide_debit Money.cmp
decide_debit_lem account operation code d h = ground (arith, comparable_with_lem h)

decide_credit_lem :
    (account : Wallet) (operation : Transaction) (d : Decision)
    → Compatible account.balance operation.amount
    → decide_credit account operation d
      ≡ ok (
          if in_int64 (account.balance.minor +ℤ operation.amount.minor)
          then d
          else reject balance_limit_exceeded)
unfolding decide_credit
decide_credit_lem account operation d h = ground (arith, add_lem h)

is_direction-reversal_direction : (k o : Kind) → is_direction (reversal_direction k o) ≡ true
is_direction-reversal_direction k o = ground arith

is_bet→eq : (k : Kind) → is_bet k ≡ true → k ≡ bet
is_bet→eq k h = ground (arith, h)

module _ (account : Wallet) (operation : Transaction) (reference : Option Reference) (now : Instant)
    (h : Case account operation reference) (x : IsExternal operation)
    (owner : owned_by account operation.player_id ≡ true)
    (same : currency_eq operation.amount.currency account.balance.currency ≡ true) where
  matching : Compatible account.balance operation.amount
  matching = record {
    same = sym (currency_eq→eq operation.amount.currency account.balance.currency same);
    known = h.wallet.known;
    left = h.wallet.fits;
    right = h.fits;
  }

  debit-Justified :
      (code : FailureCode) (id : Uuid)
      → (account.balance.minor <ℤ operation.amount.minor
          → Reason account operation reference now code)
      → Side operation reference debit
      → Linked operation reference id
      → Justified account operation reference now
          (decide_debit account operation code (process debit operation.amount id))
  debit-Justified code id known side link =
      rw (decide_debit_lem account operation code (process debit operation.amount id) matching)
        elim (Bool-cases (ltb_ℤ account.balance.minor operation.amount.minor)) [
          | inl short ↦ (reject code, rw short refl, rejects code (known (ground arith)))
          | inr covered ↦ (
            process debit operation.amount id,
            rw covered refl,
            debits id side link (ground arith) owner same,
          )
        ]

  credit-Justified :
      (id : Uuid)
      → Side operation reference credit
      → Linked operation reference id
      → Justified account operation reference now
          (decide_credit account operation (process credit operation.amount id))
  credit-Justified id side link =
      rw (decide_credit_lem account operation (process credit operation.amount id) matching)
        elim (Bool-cases (in_int64 (account.balance.minor +ℤ operation.amount.minor))) [
          | inl room ↦ (
            process credit operation.amount id,
            rw room refl,
            credits id side link room owner same,
          )
          | inr over ↦ (
            reject balance_limit_exceeded,
            rw over refl,
            rejects balance_limit_exceeded (over_limit side over),
          )
        ]

  late-Justified :
      (code : FailureCode)
      → (deadline_reached operation now ≡ true → Reason account operation reference now code)
      → is_reversal operation.kind ≡ true
      → Unsettled reference
      → Justified account operation reference now (wait_or_reject operation now code)
  unfolding wait_or_reject
  late-Justified code known reversal unsettled =
      elim (Bool-cases (deadline_reached operation now)) [
        | inl late ↦ (reject code, rw late refl, rejects code (known late))
        | inr early ↦ (wait, rw early refl, waits reversal unsettled early)
      ]

  way-Justified :
      (id : Uuid) (d : Direction)
      → is_direction d ≡ true
      → is_reversal operation.kind ≡ true
      → Side operation reference d
      → Linked operation reference id
      → Justified account operation reference now (decide_side account operation id d)
  unfolding decide_side
  way-Justified id debit known reversal side link =
      debit-Justified reversal_insufficient_funds id (short_reversal reversal side) side link
  way-Justified id credit known reversal side link = credit-Justified id side link
  way-Justified id (Direction.unknown _) known reversal side link = absurd (ground (arith, known))

  settled-Justified :
      (t : Transaction) (reversed : Bool)
      → referenced reference ≡ some (t, reversed)
      → is_reversal operation.kind ≡ true
      → t.status ≢ pending
      → t.status ≢ pending_reference
      → t.status ≢ rejected
      → t.status ≢ failed
      → Justified account operation reference now (decide_settled account operation t reversed)
  unfolding decide_settled
  settled-Justified t reversed found reversal p q r f =
      elim (Bool-cases (reversible operation.kind t.kind)) [
        | inr apart ↦ (
          reject reference_kind_not_allowed,
          rw apart refl,
          rejects reference_kind_not_allowed (irreversible t reversed reversal found apart),
        )
        | inl fitting ↦ rw fitting elim (Bool-cases (same_round operation t)) [
          | inr apart ↦ rw apart (
            reject reference_mismatch,
            refl,
            rejects reference_mismatch (other_round t reversed found apart),
          )
          | inl near ↦ rw near elim (Bool-cases (equal operation.amount t.amount)) [
            | inr apart ↦ rw apart (
              reject reference_mismatch,
              refl,
              rejects reference_mismatch (other_amount t reversed reversal found apart),
            )
            | inl alike ↦ rw alike elim (Bool-cases reversed) [
              | inl twice ↦ rw twice (
                reject already_reversed,
                refl,
                rejects already_reversed (reversed_before t reversal (found ∙ rw twice refl)),
              )
              | inr once ↦ rw once (
                  way-Justified t.id (reversal_direction operation.kind t.kind)
                    (is_direction-reversal_direction operation.kind t.kind) reversal
                    (gives_back t reversed found reversal)
                    (reverses t (found ∙ rw once refl) reversal fitting near alike p q r f))
            ]
          ]
        ]
      ]

  status-Justified :
      (t : Transaction) (reversed : Bool) (s : Status)
      → referenced reference ≡ some (t, reversed)
      → is_reversal operation.kind ≡ true
      → t.status ≡ s
      → Justified account operation reference now (decide_reversal account operation reference now)
  unfolding decide_reversal
  status-Justified t reversed pending found reversal e =
      rw (decide_reversal, found, e)
        (late-Justified reference_not_processed
          (never_settled t reversed reversal found (rw e refl)) reversal
          (still_pending t reversed found (rw e refl)))
  status-Justified t reversed pending_reference found reversal e =
      rw (decide_reversal, found, e)
        (late-Justified reference_not_processed
          (never_settled t reversed reversal found (rw e refl)) reversal
          (still_pending t reversed found (rw e refl)))
  status-Justified t reversed rejected found reversal e =
      rw (decide_reversal, found, e)
        (
          reject reference_not_processed,
          refl,
          rejects reference_not_processed (not_processed t reversed reversal found (inl e)),
        )
  status-Justified t reversed failed found reversal e =
      rw (decide_reversal, found, e)
        (
          reject reference_not_processed,
          refl,
          rejects reference_not_processed (not_processed t reversed reversal found (inr e)),
        )
  status-Justified t reversed Status.processed found reversal e =
      rw (decide_reversal, found, e)
        (settled-Justified t reversed found reversal (ground arith) (ground arith) (ground arith)
          (ground arith))
  status-Justified t reversed (Status.other o) found reversal e =
      rw (decide_reversal, found, e)
        (settled-Justified t reversed found reversal (ground arith) (ground arith) (ground arith)
          (ground arith))

  reversal-Justified :
      is_reversal operation.kind ≡ true
      → Justified account operation reference now (decide_reversal account operation reference now)
  unfolding decide_reversal
  reversal-Justified reversal = elim (Option-cases (referenced reference)) [
    | inl missed ↦
        rw (decide_reversal, missed)
          (late-Justified reference_not_found (never_came reversal missed) reversal
            (missing missed))
    | inr ((t, reversed), found) ↦ status-Justified t reversed t.status found reversal refl
  ]

  win-Justified :
      operation.kind ≡ win
      → Justified account operation reference now (decide_win account operation reference)
  unfolding decide_win resolve_win
  win-Justified e = elim (Bool-cases (is_empty operation.reference_external_id)) [
    | inl none_named ↦
        rw (decide_win, resolve_win, none_named)
          (credit-Justified nil_uuid (receives e) (unlinked (rw e refl)))
    | inr named ↦ elim (Option-cases (referenced reference)) [
      | inl missed ↦
          rw (decide_win, resolve_win, named, missed)
            (credit-Justified nil_uuid (receives e) (unlinked (rw e refl)))
      | inr ((t, reversed), found) ↦ elim (Bool-cases (is_bet t.kind)) [
        | inr wrong ↦
            rw (decide_win, resolve_win, named, found, wrong)
              (
                reject reference_kind_not_allowed,
                refl,
                rejects reference_kind_not_allowed (rewards_other t reversed e found wrong),
              )
        | inl right ↦ elim (Bool-cases (same_round operation t)) [
          | inr apart ↦
              rw (decide_win, resolve_win, named, found, right, apart)
                (
                  reject reference_mismatch,
                  refl,
                  rejects reference_mismatch (other_round t reversed found apart),
                )
          | inl alike ↦
              rw (decide_win, resolve_win, named, found, right, alike)
                (credit-Justified t.id (receives e)
                  (rewards t reversed found e (is_bet→eq t.kind right) alike named))
        ]
      ]
    ]
  ]

  kind-Justified :
      (k : Kind)
      → operation.kind ≡ k
      → Justified account operation reference now (decide_kind k account operation reference now)
  unfolding decide_kind decide_bet
  kind-Justified Kind.opening e = absurd (ground (arith, e, x.kind))
  kind-Justified bet e =
      debit-Justified FailureCode.insufficient_funds nil_uuid (short_bet e) (pays e)
        (unlinked (rw e refl))
  kind-Justified win e = win-Justified e
  kind-Justified loss e = (process_nothing, refl, nothing_to_move e)
  kind-Justified Kind.refund e = reversal-Justified (rw e refl)
  kind-Justified Kind.rollback e = reversal-Justified (rw e refl)
  kind-Justified (Kind.other _) e = absurd (ground (arith, e, x.kind))

-- Of a live operation on its own valid wallet, `Decide` never fails: it answers with a decision that
-- its circumstances justify. A debit is covered by the balance, a credit fits in an int64, a
-- reversal is of a settled original that it matches and that nothing reversed before, a rejection has
-- a code that the operation may be rejected with, and an operation waits only if it is a reversal
-- before its deadline whose original is missing or not settled.
pub decide-Grounded :
    (account : Wallet) (operation : Transaction) (reference : Option Reference) (now : Instant)
    → Case account operation reference
    → Justified account operation reference now
        (decide (some account) (some operation) reference now)
unfolding decide
decide-Grounded account operation reference now h =
    let x = IsExternal-open operation h.storable h.live in
    elim (Bool-cases (owned_by account operation.player_id)) [
      | inr unowned ↦
          rw (decide, h.same_wallet, unowned)
            (reject wallet_player_mismatch, refl, rejects wallet_player_mismatch (stranger unowned))
      | inl owner ↦
          elim (Bool-cases (currency_eq operation.amount.currency account.balance.currency)) [
            | inr abroad ↦
                rw (decide, h.same_wallet, owner, abroad)
                  (
                    reject FailureCode.currency_mismatch,
                    refl,
                    rejects FailureCode.currency_mismatch (foreign abroad),
                  )
            | inl same ↦
                rw (decide, h.same_wallet, owner, same)
                  (kind-Justified account operation reference now h x owner same operation.kind
                    refl)
          ]
    ]
