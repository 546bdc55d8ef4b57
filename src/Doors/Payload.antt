-- ===== src/Doors/Payload.antt =====
-- The content of an operation that its hash covers:
-- internal/application/mapper/idempotency_payload_mapper.go and internal/application/idempotency. The
-- encoding of JSON and SHA-256 are parameters.
pub mod Agree
pub mod Distinct
use wagering_wallet_service.Base.{
  ◌>>=◌, ◌>>◌, ◌==◌, if◌then◌else◌, Result, ok, Uuid, is_empty, ℕ, String, List, [], ◌∷◌,
}
use wagering_wallet_service.Money.{Money, currency_code}
use wagering_wallet_service.Money.Decimal.{to_string}
use wagering_wallet_service.Wagering.Kind.{Kind, kind_text}
use wagering_wallet_service.Usecase.Input.{ProcessWagerInput}

pub record Payload : Type 0 where
  pub provider_id : String
  pub external_transaction_id : String
  pub player_id : Uuid
  pub wallet_id : Uuid
  pub round_id : String
  pub game_id : String
  pub kind : Kind
  pub amount : Money
  pub reference_external_id : String

-- `IdempotencyPayload`
abbrev pub idempotency_payload : ProcessWagerInput → Payload
idempotency_payload i = record {
  provider_id = i.provider_id;
  external_transaction_id = i.external_transaction_id;
  player_id = i.player_id;
  wallet_id = i.wallet_id;
  round_id = i.round_id;
  game_id = i.game_id;
  kind = i.kind;
  amount = i.amount;
  reference_external_id = i.reference_external_id;
}

-- A member of the JSON document: a text, or the amount and its currency.
pub data Member : Type 0 where
  text : String → Member
  money : List ℕ → String → Member

-- The reference, which the document has when it is not empty.
abbrev pub reference_member : String → List (String × Member)
reference_member reference =
    if is_empty reference then [] else ("referenceExternalTransactionId", text reference) ∷ []

-- `bytes.TrimRight(b, "\n")`
abbrev pub with_byte : ℕ → List ℕ → List ℕ
with_byte c [] = if c == 10 then [] else c ∷ []
with_byte c (d ∷ rest) = c ∷ d ∷ rest

unfoldable pub trim_newlines : List ℕ → List ℕ
trim_newlines [] = []
trim_newlines (c ∷ rest) = with_byte c (trim_newlines rest)

module _ (lower_uuid_text : Uuid → String) where
  -- The members of the document that `Hash` encodes; the encoder sorts them by their keys.
  unfoldable pub members : Payload → List (String × Member)
  unfolding to_string
  members p =
      ("externalTransactionId", text p.external_transaction_id)
      ∷ ("gameId", text p.game_id)
      ∷ ("kind", text (kind_text p.kind))
      ∷ ("money", money (to_string p.amount) (currency_code p.amount.currency))
      ∷ ("playerId", text (lower_uuid_text p.player_id))
      ∷ ("providerId", text p.provider_id)
      ∷ ("roundId", text p.round_id)
      ∷ ("walletId", text (lower_uuid_text p.wallet_id))
      ∷ reference_member p.reference_external_id

  -- `Hash`
  unfoldable pub hash :
      (List (String × Member) → Result (List ℕ)) → (List ℕ → String) → Payload → Result String
  unfolding members trim_newlines
  hash encode sha256_hex p = do
    encoded ← encode (members p)
    ok (sha256_hex (trim_newlines encoded))
