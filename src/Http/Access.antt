-- ===== src/Http/Access.antt =====
-- Who may call what: internal/infrastructure/auth/verifier.go and the guards of
-- internal/infrastructure/http/middleware.go. The verification of a token is a parameter.
use wagering_wallet_service.Base.{
  inr, inl, ◌⊎◌, leb, ◌==◌, if◌then◌else◌, before, any, codes, is_empty, is_space, ℕ, ◌+◌, String,
  Bool, true, false, not, ◌&&◌, Option, none, some, List, [], ◌∷◌, map, str_eq,
}
use wagering_wallet_service.Http.Problems.{
  Problem, Response, refuse, problem, unauthenticated, forbidden, unavailable,
}

pub record Principal : Type 0 where
  pub subject : String
  pub provider_id : String
  pub roles : List String

-- `HasRole`
abbrev pub has_role : String → Principal → Bool
has_role role p = any (str_eq role) p.roles

-- `Internal` and `Provider`
abbrev pub is_internal : Principal → Bool
is_internal p = has_role "wallet-internal" p

abbrev pub is_provider : Principal → Bool
is_provider p = has_role "wagering-provider" p && not (is_empty p.provider_id)

-- `strings.Cut(header, " ")`, when the separator is there.
abbrev pub cons_before : ℕ → Option (List ℕ × List ℕ) → Option (List ℕ × List ℕ)
cons_before c none = none
cons_before c (some (before, after)) = some (c ∷ before, after)

unfoldable pub cut_space : List ℕ → Option (List ℕ × List ℕ)
cut_space [] = none
cut_space (c ∷ rest) =
    let more = cons_before c (cut_space rest) in if c == 32 then some ([], rest) else more

abbrev pub lower : ℕ → ℕ
lower c = if leb b'A' c && leb c b'Z' then c + 32 else c

abbrev pub codes_eq : List ℕ → List ℕ → Bool
codes_eq [] [] = true
codes_eq (c ∷ cs) (d ∷ ds) = c == d && codes_eq cs ds
codes_eq _ _ = false

-- `strings.TrimSpace`
unfoldable pub trim_left : List ℕ → List ℕ
unfolding is_space
trim_left [] = []
trim_left (c ∷ rest) = let more = trim_left rest in if is_space c then more else c ∷ rest

abbrev pub trim_after : ℕ → List ℕ → List ℕ
trim_after c [] = if is_space c then [] else c ∷ []
trim_after c (d ∷ rest) = c ∷ d ∷ rest

unfoldable pub trim_right : List ℕ → List ℕ
unfolding is_space
trim_right [] = []
trim_right (c ∷ rest) = trim_after c (trim_right rest)

abbrev pub non_empty : List ℕ → Option (List ℕ)
non_empty [] = none
non_empty (c ∷ rest) = some (c ∷ rest)

-- `BearerToken`; the letters of "bearer" fold with those of ASCII only.
unfoldable pub bearer_token : List ℕ → Option (List ℕ)
unfolding cut_space trim_left trim_right
bearer_token header = elim (cut_space header) [
  | none ↦ none
  | some (scheme, token) ↦
      if not (codes_eq (map lower scheme) (codes "bearer"))
      then none
      else non_empty (trim_right (trim_left token))
]

-- `authenticated`: the problem that it answers, or the principal.
unfoldable pub authenticated : (List ℕ → Option Principal) → List ℕ → Problem ⊎ Principal
unfolding bearer_token
authenticated verify header = elim (bearer_token header) [
  | none ↦ inl (problem 401 unauthenticated)
  | some token ↦ elim (verify token) [
    | none ↦ inl (problem 401 unauthenticated)
    | some principal ↦ inr principal
  ]
]

-- `internalOnly`, `providerOnly` and `providerOrInternal`
abbrev pub internal_only : Principal → Problem ⊎ Principal
internal_only p = if not (is_internal p) then inl (problem 403 forbidden) else inr p

abbrev pub provider_only : Principal → Problem ⊎ Principal
provider_only p = if not (is_provider p) then inl (problem 403 forbidden) else inr p

abbrev pub provider_or_internal : Principal → Problem ⊎ Principal
provider_or_internal p =
    if not (is_provider p) && not (is_internal p) then inl (problem 403 forbidden) else inr p

-- One guard after another.
abbrev pub then_guard :
    Problem ⊎ Principal → (Principal → Problem ⊎ Principal) → Problem ⊎ Principal
then_guard (inl refused) guard = inl refused
then_guard (inr p) guard = guard p

-- What `limited` meets: a free slot, the end of the wait, or the end of the request.
pub data Admission : Type 0 where
  admitted wait_over request_done : Admission

-- `limited`, before what follows it; the state is what the request leaves unchanged if it is shed.
abbrev pub limited {ℓ κ} :
    {A : Type ℓ} {S : Type κ} → Admission → (S → Response A × S) → S → Response A × S
limited admitted next s = next s
limited wait_over next s = (refuse (problem 503 unavailable), s)
limited request_done next s = (refuse (problem 503 unavailable), s)
