-- ===== src/Http/Handlers.antt =====
-- The handlers and their routes: internal/infrastructure/http/handlers.go and server.go. The JSON
-- decoder, the parser of identifiers, the verification of a token and the use cases that write are
-- parameters; what the database answers to a reading one is an argument.
use wagering_wallet_service.Base.{
  if◌then◌else◌, Result, err, ok, Uuid, is_nil, ℤ, pos, ltb_ℤ, ℕ, String, ◌⊎◌, inl, inr, not, ◌&&◌,
  ◌||◌, Option, none, some, List, [], ◌∷◌, str_eq,
}
use wagering_wallet_service.Wallet.{Wallet}
use wagering_wallet_service.Reconcile.{Reconciliation}
use wagering_wallet_service.Wagering.Transaction.{Transaction}
use wagering_wallet_service.Store.{Session}
use wagering_wallet_service.Store.UnitOfWork.{Fate, Outcome}
use wagering_wallet_service.Usecase.Input.{ProcessWagerInput, ProcessWagerResult}
use wagering_wallet_service.Usecase.OpenWallet.{OpenWalletInput}
use wagering_wallet_service.Usecase.LedgerPage.{LedgerPage}
use wagering_wallet_service.Usecase.Find.{
  find_wallet, transaction_by_id, transaction_by_external_id,
}
use wagering_wallet_service.Doors.Request.{
  WagerRequest, to_wager_input, OpenWalletRequest, to_open_wallet_input,
}
use wagering_wallet_service.Http.Problems.{
  Response, respond, refuse, Problem, problem, validation_failed, invalid_cursor, forbidden,
  transaction_not_found, payload_too_large, fail, fail_validation, fail_processing, fail_opening,
  status_of,
}
use wagering_wallet_service.Http.Access.{
  Principal, is_internal, authenticated, internal_only, provider_only, provider_or_internal,
  then_guard, Admission, limited,
}
use wagering_wallet_service.Http.Cursor.{parse_signed, encode_cursor, decode_cursor}
use wagering_wallet_service.Http.Answers.{
  WalletResponse, wallet_of, LedgerResponse, ledger_of, ResultResponse, result_of,
  TransactionResponse, transaction_of, reconciliation_of,
}

-- What `decode` makes of the body of a request.
pub data Body (A : Type 0) : Type 0 where
  not_json too_large unreadable malformed trailing : Body A
  read : A → Body A

-- `decode`
abbrev pub decode_body : {A : Type 0} → Body A → Problem ⊎ A
decode_body not_json = inl (problem 400 validation_failed)
decode_body too_large = inl (problem 413 payload_too_large)
decode_body unreadable = inl (problem 400 validation_failed)
decode_body malformed = inl (problem 400 validation_failed)
decode_body trailing = inl (problem 400 validation_failed)
decode_body (read a) = inr a

-- The answer to the result of a reading use case.
abbrev pub respond_with : {A B : Type 0} → (A → B) → Result A → Response B
respond_with show (ok a) = respond 200 (show a)
respond_with show (err e) = refuse (fail e)

-- What `getTransaction` answers with what is found.
abbrev pub show_transaction : Principal → Result Transaction → Response TransactionResponse
show_transaction p (err e) = refuse (fail e)
show_transaction p (ok t) =
    if not (is_internal p) && not (str_eq t.provider_id p.provider_id)
    then refuse (problem 404 transaction_not_found)
    else respond 200 (transaction_of t)

-- The limit that `getLedger` reads.
unfoldable pub limit_in : List ℕ → Option ℤ
unfolding parse_signed
limit_in [] = some (pos 50)
limit_in (c ∷ rest) = elim (parse_signed (c ∷ rest)) [
  | none ↦ none
  | some parsed ↦ if ltb_ℤ parsed (pos 1) || ltb_ℤ (pos 100) parsed then none else some parsed
]

-- The answer to a submitted operation.
abbrev pub respond_result : Result ProcessWagerResult → Response ResultResponse
respond_result (ok result) = respond (status_of result.status) (result_of result)
respond_result (err e) = refuse (fail_processing e)

-- The answer to an opened wallet.
abbrev pub respond_opened : Result Wallet → Response WalletResponse
respond_opened (ok w) = respond 201 (wallet_of w)
respond_opened (err e) = refuse (fail_opening e)

module _ (parse_uuid : String → Option Uuid) where
  -- `pathUUID`
  abbrev pub path_uuid : String → Problem ⊎ Uuid
  path_uuid text = elim (parse_uuid text) [
    | none ↦ inl (problem 400 validation_failed)
    | some id ↦ if is_nil id then inl (problem 400 validation_failed) else inr id
  ]

  -- `getWallet`
  unfoldable pub get_wallet : Fate → String → Session → Response WalletResponse
  unfolding find_wallet
  get_wallet fate text s = elim (path_uuid text) [
    | inl p ↦ refuse p
    | inr id ↦ respond_with wallet_of (find_wallet fate id s)
  ]

  -- `getTransaction`
  unfoldable pub get_transaction :
      Fate → String → Session → Principal → Response TransactionResponse
  unfolding transaction_by_id
  get_transaction fate text s p = elim (path_uuid text) [
    | inl refused ↦ refuse refused
    | inr id ↦ show_transaction p (transaction_by_id fate id s)
  ]

  -- `getProviderTransaction`
  unfoldable pub get_provider_transaction :
      Fate → String → String → Session → Principal → Response TransactionResponse
  unfolding transaction_by_external_id
  get_provider_transaction fate provider_id external_transaction_id s p =
      if not (is_internal p) && not (str_eq provider_id p.provider_id)
      then refuse (problem 403 forbidden)
      else respond_with transaction_of
          (transaction_by_external_id fate provider_id external_transaction_id s)

  -- `reconcile`; the use case is an argument.
  unfoldable pub reconcile_wallet :
      (Uuid → Session → Result Reconciliation) → String → Session → Response Reconciliation
  reconcile_wallet reconcile text s = elim (path_uuid text) [
    | inl p ↦ refuse p
    | inr id ↦ respond_with reconciliation_of (reconcile id s)
  ]

  module _ (base64 : List ℕ → List ℕ) (from_base64 : List ℕ → Option (List ℕ)) where
    -- The cursor that `getLedger` reads.
    unfoldable pub version_after : List ℕ → Option ℤ
    unfolding decode_cursor
    version_after [] = some (pos 0)
    version_after (c ∷ rest) = decode_cursor base64 from_base64 (c ∷ rest)

    abbrev pub next_cursor_of : LedgerPage → Option (List ℕ)
    next_cursor_of page =
        if page.has_more then some (encode_cursor base64 from_base64 page.next_cursor) else none

    -- `getLedger`; the use case takes the wallet, the version and the limit.
    unfoldable pub get_ledger :
        (Uuid → ℤ → ℤ → Session → Result LedgerPage)
        → String
        → List ℕ
        → List ℕ
        → Session
        → Response LedgerResponse
    unfolding limit_in version_after encode_cursor
    get_ledger list_ledger text limit cursor s = elim (path_uuid text) [
      | inl p ↦ refuse p
      | inr id ↦ elim (limit_in limit) [
        | none ↦ refuse (problem 400 validation_failed)
        | some size ↦ elim (version_after cursor) [
          | none ↦ refuse (problem 400 invalid_cursor)
          | some version ↦
              respond_with (λ page. ledger_of id page (next_cursor_of page))
                (list_ledger id version size s)
        ]
      ]
    ]

  -- `submitTransaction`, and the session that it leaves.
  unfoldable pub submit_transaction :
      (ProcessWagerInput → Session → Outcome ProcessWagerResult)
      → Body WagerRequest
      → String
      → String
      → Principal
      → Session
      → Response ResultResponse × Session
  unfolding to_wager_input fail_processing
  submit_transaction process body key correlation_id p s = elim (decode_body body) [
    | inl refused ↦ (refuse refused, s)
    | inr request ↦
        if not (str_eq request.provider_id p.provider_id)
        then (refuse (problem 403 forbidden), s)
        else elim (to_wager_input parse_uuid request key correlation_id) [
          | err e ↦ (refuse (fail_validation e), s)
          | ok input ↦ (respond_result (process input s).answer, (process input s).session)
        ]
  ]

  -- `openWallet`, and the session that it leaves.
  unfoldable pub open_wallet_request :
      (OpenWalletInput → Session → Outcome Wallet)
      → Body OpenWalletRequest
      → String
      → Session
      → Response WalletResponse × Session
  unfolding to_open_wallet_input fail_opening
  open_wallet_request open_for body correlation_id s = elim (decode_body body) [
    | inl refused ↦ (refuse refused, s)
    | inr request ↦ elim (to_open_wallet_input parse_uuid request correlation_id) [
      | err e ↦ (refuse (fail_validation e), s)
      | ok input ↦ (respond_opened (open_for input s).answer, (open_for input s).session)
    ]
  ]

  module _ (verify : List ℕ → Option Principal) where
    -- Routes of `NewRouter`, for a header `Authorization`.
    unfoldable pub route_transaction :
        Fate → List ℕ → String → Session → Response TransactionResponse
    unfolding authenticated get_transaction
    route_transaction fate header text s =
        elim (then_guard (authenticated verify header) provider_or_internal) [
          | inl refused ↦ refuse refused
          | inr p ↦ get_transaction fate text s p
        ]

    unfoldable pub route_provider_transaction :
        Fate → List ℕ → String → String → Session → Response TransactionResponse
    unfolding authenticated get_provider_transaction
    route_provider_transaction fate header provider_id external_transaction_id s =
        elim (then_guard (authenticated verify header) provider_or_internal) [
          | inl refused ↦ refuse refused
          | inr p ↦ get_provider_transaction fate provider_id external_transaction_id s p
        ]

    unfoldable pub route_wallet : Fate → List ℕ → String → Session → Response WalletResponse
    unfolding authenticated get_wallet
    route_wallet fate header text s =
        elim (then_guard (authenticated verify header) internal_only) [
          | inl refused ↦ refuse refused
          | inr _ ↦ get_wallet fate text s
        ]

    unfoldable pub route_submit :
        (ProcessWagerInput → Session → Outcome ProcessWagerResult)
        → List ℕ
        → Admission
        → Body WagerRequest
        → String
        → String
        → Session
        → Response ResultResponse × Session
    unfolding authenticated submit_transaction
    route_submit process header admission body key correlation_id s =
        elim (then_guard (authenticated verify header) provider_only) [
          | inl refused ↦ (refuse refused, s)
          | inr p ↦ limited admission (submit_transaction process body key correlation_id p) s
        ]

    unfoldable pub route_open_wallet :
        (OpenWalletInput → Session → Outcome Wallet)
        → List ℕ
        → Admission
        → Body OpenWalletRequest
        → String
        → Session
        → Response WalletResponse × Session
    unfolding authenticated open_wallet_request
    route_open_wallet open_for header admission body correlation_id s =
        elim (then_guard (authenticated verify header) internal_only) [
          | inl refused ↦ (refuse refused, s)
          | inr _ ↦ limited admission (open_wallet_request open_for body correlation_id) s
        ]
