-- ===== src/Http/Private.antt =====
-- Who reads and who writes an operation, and what a refusal leaves.
use wagering_wallet_service.Base.{
  Sum-cases, ◌≢◌, if◌then◌else◌, Bool, Bool-cases, Result, err, ok, Uuid, is_empty, ℕ, String, ◌≡◌,
  refl, sym, ap, ◌∙◌, ◌⊎◌, inl, inr, true, false, not, ◌&&◌, Option, some, List, arith, str_eq,
  eq_iff,
}
use wagering_wallet_service.Wagering.Transaction.{Transaction}
use wagering_wallet_service.Store.{Session}
use wagering_wallet_service.Store.UnitOfWork.{Fate}
use wagering_wallet_service.Usecase.Find.{transaction_by_id}
use wagering_wallet_service.Http.Problems.{forbidden, problem, respond, Problem}
use wagering_wallet_service.Http.Access.{
  has_role, then_guard, Principal, is_internal, is_provider, authenticated, provider_or_internal,
}
use wagering_wallet_service.Http.Answers.{optional, TransactionResponse, transaction_of}
use wagering_wallet_service.Http.Handlers.{
  path_uuid, show_transaction, get_transaction, route_transaction,
}

-- Whom an answer about an operation may go to.
abbrev pub MayRead : Principal → TransactionResponse → Type 0
MayRead p body =
    (is_internal p ≡ true)
    ⊎ ((is_empty p.provider_id ≡ false) × (body.provider_id ≡ some p.provider_id))

and-false : (a b : Bool) → b ≡ false → (a && b) ≡ false
and-false true b h = h
and-false false b h = refl

-- Without a role the guard refuses.
neither :
    (provider internal : Bool) (p : Principal)
    → provider ≡ false
    → internal ≡ false
    → (if not provider && not internal then inl (problem 403 forbidden) else inr p) ≢ inr p
neither false false p _ _ h = ground (arith, h)
neither true internal p hp _ h = ground (arith, hp)
neither false true p _ hi h = ground (arith, hi)

show_transaction-MayRead :
    (p : Principal) (m : Result Transaction) {status : ℕ} {body : TransactionResponse}
    → provider_or_internal p ≡ inr p
    → show_transaction p m ≡ respond status body
    → MayRead p body
show_transaction-MayRead p (err e) allowed h = absurd (ground (arith, h))
show_transaction-MayRead p (ok t) {body = body} allowed h = elim (Bool-cases (is_internal p)) [
  | inl inside ↦ inl inside
  | inr outside ↦ elim (Bool-cases (is_empty p.provider_id)) [
    | inl nobody ↦
        let refused =
          and-false (has_role "wagering-provider" p) (not (is_empty p.provider_id))
            (ap not nobody) in
        absurd (neither (is_provider p) (is_internal p) p refused outside allowed)
    | inr named ↦ elim (Bool-cases (str_eq t.provider_id p.provider_id)) [
      | inr other_provider ↦ absurd (ground (arith, h, outside, other_provider))
      | inl own ↦
          let same : t.provider_id ≡ p.provider_id = (eq_iff t.provider_id p.provider_id).0 own in
          let shown : transaction_of t ≡ body = ground (arith, h, outside, own) in
          let known : is_empty t.provider_id ≡ false = ap is_empty same ∙ named in
          let listed : optional t.provider_id ≡ some t.provider_id = ground (arith, known) in
          inr (
            named,
            ap (λ (b : TransactionResponse). b.provider_id) (sym shown) ∙ listed ∙ ap some same,
          )
    ]
  ]
]

-- A principal that the guards let through, and what the last of them asks.
guards-inr :
    (start : Problem ⊎ Principal) (guard : Principal → Problem ⊎ Principal) {p : Principal}
    → ((q r : Principal) → guard q ≡ inr r → q ≡ r)
    → then_guard start guard ≡ inr p
    → (start ≡ inr p) × (guard p ≡ inr p)
guards-inr start guard {p} keeps h = elim (Sum-cases start) [
  | inl (refused, turned_away) ↦ absurd (ground (arith, h, turned_away))
  | inr (q, known) ↦
      let asked : guard q ≡ inr p = ground (arith, h, known) in
      let same : q ≡ p = keeps q p asked in (known ∙ ap inr same, ap guard (sym same) ∙ asked)
]

reader-same : (q r : Principal) → provider_or_internal q ≡ inr r → q ≡ r
reader-same q r h = elim (Bool-cases (not (is_provider q) && not (is_internal q))) [
  | inl nobody ↦ absurd (ground (arith, h, nobody))
  | inr allowed ↦ ground (arith, h, allowed)
]

module _ (parse_uuid : String → Option Uuid) (verify : List ℕ → Option Principal) where
  get_transaction-MayRead :
      (fate : Fate) (text : String) (s : Session) (p : Principal) {status : ℕ}
      {body : TransactionResponse}
      → provider_or_internal p ≡ inr p
      → get_transaction parse_uuid fate text s p ≡ respond status body
      → MayRead p body
  unfolding get_transaction
  get_transaction-MayRead fate text s p {status = status} {body = body} allowed h =
      elim (Sum-cases (path_uuid parse_uuid text)) [
        | inl (refused, unread) ↦ absurd (ground (arith, h, unread))
        | inr (id, parsed) ↦
            show_transaction-MayRead p (transaction_by_id fate id s) {status = status} {body = body}
              allowed (ground (arith, h, parsed))
      ]

  -- The route of one operation answers with an operation only to a principal that the token proves
  -- and that is internal, or is named as a provider which the operation answered belongs to.
  pub route_transaction-MayRead :
      (fate : Fate) (header : List ℕ) (text : String) (s : Session) {status : ℕ}
      {body : TransactionResponse}
      → route_transaction parse_uuid verify fate header text s ≡ respond status body
      → (p : Principal) × (authenticated verify header ≡ inr p) × MayRead p body
  unfolding route_transaction
  route_transaction-MayRead fate header text s {status = status} {body = body} h =
      elim (Sum-cases (then_guard (authenticated verify header) provider_or_internal)) [
        | inl (refused, turned_away) ↦ absurd (ground (arith, h, turned_away))
        | inr (p, passed) ↦
            let (known, allowed) =
              guards-inr (authenticated verify header) provider_or_internal reader-same passed in
            (
              p,
              known,
              get_transaction-MayRead fate text s p {status = status} {body = body} allowed
                  (ground (arith, h, passed)),
            )
      ]
