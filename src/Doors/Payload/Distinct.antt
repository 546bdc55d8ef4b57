-- ===== src/Doors/Payload/Distinct.antt =====
-- Two contents with one document are the same content.
use wagering_wallet_service.Base.{
  ok, Uuid, pos, max_int64, ℕ, ◌≤◌, String, ◌≡◌, refl, sym, true, arith, eq_iff,
}
use mathlib.Core.Path.{subst}
use wagering_wallet_service.Money.{Money, supported, currency_code}
use wagering_wallet_service.Money.Decimal.{to_string, parse}
use wagering_wallet_service.Money.Decimal.RoundTrip.{parse-to_string}
use wagering_wallet_service.Wagering.Kind.{to_kind, kind_text}
use wagering_wallet_service.Doors.Payload.{Payload, money, reference_member, members}

-- A content as the doors make it, valid: a kind read from a text, and an amount of a supported
-- currency that is not negative.
pub record IsContent (p : Payload) : Type 0 where
  pub kind_read : to_kind (kind_text p.kind) ≡ p.kind
  pub minor : ℕ
  pub amount_is : p.amount.minor ≡ pos minor
  pub fits : minor ≤ max_int64
  pub currency_known : supported p.amount.currency ≡ true

parse-back :
    (m : Money) (n : ℕ)
    → m.minor ≡ pos n
    → n ≤ max_int64
    → supported m.currency ≡ true
    → parse (to_string m) (currency_code m.currency) ≡ ok m
parse-back m n is_pos fits known =
    subst (λ (a : Money). parse (to_string a) (currency_code m.currency) ≡ ok a)
      {x = record { minor = pos n; currency = m.currency }} {y = m} (rw (sym is_pos) refl)
      (parse-to_string n m.currency fits known)

-- The text of an amount determines it.
amount-same :
    (p q : Payload)
    → IsContent p
    → IsContent q
    → money (to_string p.amount) (currency_code p.amount.currency)
      ≡ money (to_string q.amount) (currency_code q.amount.currency)
    → p.amount ≡ q.amount
amount-same p q cp cq h = cc (
  h,
  parse-back p.amount cp.minor cp.amount_is cp.fits cp.currency_known,
  parse-back q.amount cq.minor cq.amount_is cq.fits cq.currency_known,
)

reference-same : (a b : String) → reference_member a ≡ reference_member b → a ≡ b
reference-same a b h = ground (arith, h, eq_iff a "", eq_iff b "")

-- Two valid contents with the same document are the same, so that the document changes with every
-- field of the content, when the text of an identifier determines it.
pub members-Distinct :
    (lower_uuid_text : Uuid → String)
    → ((a b : Uuid) → lower_uuid_text a ≡ lower_uuid_text b → a ≡ b)
    → (p q : Payload) → IsContent p
    → IsContent q
    → members lower_uuid_text p ≡ members lower_uuid_text q
    → p ≡ q
unfolding members
members-Distinct lower_uuid_text apart p q cp cq h =
    let player : p.player_id ≡ q.player_id = apart p.player_id q.player_id (cc h) in
    let wallet : p.wallet_id ≡ q.wallet_id = apart p.wallet_id q.wallet_id (cc h) in
    let kind : p.kind ≡ q.kind = cc (h, cp.kind_read, cq.kind_read) in
    let amount : p.amount ≡ q.amount = amount-same p q cp cq (cc h) in
    let reference : p.reference_external_id ≡ q.reference_external_id =
      reference-same p.reference_external_id q.reference_external_id (cc h) in
    cc (h, player, wallet, kind, amount, reference)
