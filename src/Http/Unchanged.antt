-- ===== src/Http/Unchanged.antt =====
-- A request to operate that is refused leaves the database as it was.
use wagering_wallet_service.Base.{
  Sum-cases, Bool-cases, RepositoryError, Failure, Result, Result-cases, of_repository, err, Uuid,
  Instant, ℕ, String, ◌≡◌, refl, sym, ap, ◌∙◌, ◌⊎◌, inl, inr, Option, List, arith, str_eq,
}
use mathlib.Core.Path.{subst}
use wagering_wallet_service.Event.{Envelope}
use wagering_wallet_service.Store.{Session}
use wagering_wallet_service.Store.UnitOfWork.{Fate, Outcome}
use wagering_wallet_service.Usecase.Input.{ProcessWagerInput, ProcessWagerResult}
use wagering_wallet_service.Usecase.Process.{ProcessSettings}
use wagering_wallet_service.Usecase.Process.Execute.{execute_process, execute_process-error}
use wagering_wallet_service.Doors.Request.{WagerRequest, to_wager_input}
use wagering_wallet_service.Http.Problems.{
  Response, refuse, Problem, commit_unknown, fail_processing,
}
use wagering_wallet_service.Http.Access.{
  limited, Principal, authenticated, provider_only, then_guard, Admission, admitted, wait_over,
  request_done,
}
use wagering_wallet_service.Http.Answers.{ResultResponse}
use wagering_wallet_service.Http.Handlers.{
  Body, decode_body, submit_transaction, route_submit, respond_result,
}

-- What a use case promises: an error other than an unknown commit leaves the session as it was.
abbrev pub KeepsOnError : (ProcessWagerInput → Session → Outcome ProcessWagerResult) → Type 0
KeepsOnError process =
    (input : ProcessWagerInput) (s : Session) (e : Failure)
    → (process input s).answer ≡ err e
    → (e ≡ of_repository RepositoryError.commit_outcome_unknown) ⊎ ((process input s).session ≡ s)

-- A refusal is of an unknown commit or leaves the session as it was.
abbrev pub Spared : Session → Response ResultResponse × Session → Type 0
Spared s (answer, after) =
    (p : Problem) → answer ≡ refuse p → (p.code ≡ commit_unknown) ⊎ (after ≡ s)

respond_result-Spared :
    (process : ProcessWagerInput → Session → Outcome ProcessWagerResult) (input : ProcessWagerInput)
    (s : Session)
    → KeepsOnError process
    → Spared s (respond_result (process input s).answer, (process input s).session)
unfolding fail_processing
respond_result-Spared process input s keeps p h = elim (Result-cases (process input s).answer) [
  | inl (r, answered) ↦ absurd (ground (arith, h, answered))
  | inr (e, failed) ↦ elim (keeps input s e failed) [
    | inr same ↦ inr same
    | inl unknown ↦
        let shown : fail_processing e ≡ p = ground (arith, h, failed) in
        inl (
          ap (λ (q : Problem). q.code) (sym shown)
          ∙ ap (λ (x : Failure). (fail_processing x).code) unknown)
  ]
]

module _ (parse_uuid : String → Option Uuid)
    (process : ProcessWagerInput → Session → Outcome ProcessWagerResult)
    (keeps : KeepsOnError process) where
  submit-Spared :
      (body : Body WagerRequest) (key correlation_id : String) (p : Principal) (s : Session)
      → Spared s (submit_transaction parse_uuid process body key correlation_id p s)
  unfolding submit_transaction
  submit-Spared body key correlation_id p s = elim (Sum-cases (decode_body body)) [
    | inl (refused, unread) ↦ rw (submit_transaction, unread) (λ q h. inr refl)
    | inr (request, decoded) ↦ elim (Bool-cases (str_eq request.provider_id p.provider_id)) [
      | inr foreign ↦ rw (submit_transaction, decoded, foreign) (λ q h. inr refl)
      | inl own ↦ elim (Result-cases (to_wager_input parse_uuid request key correlation_id)) [
        | inr (e, invalid) ↦ rw (submit_transaction, decoded, own, invalid) (λ q h. inr refl)
        | inl (input, valid) ↦
            rw (submit_transaction, decoded, own, valid)
              (respond_result-Spared process input s keeps)
      ]
    ]
  ]

  limited-Spared :
      (admission : Admission) (body : Body WagerRequest) (key correlation_id : String)
      (p : Principal) (s : Session)
      → Spared s
          (limited admission (submit_transaction parse_uuid process body key correlation_id p) s)
  limited-Spared admitted body key correlation_id p s = submit-Spared body key correlation_id p s
  limited-Spared wait_over body key correlation_id p s = λ q h. inr refl
  limited-Spared request_done body key correlation_id p s = λ q h. inr refl

  route_submit-Spared :
      (verify : List ℕ → Option Principal) (header : List ℕ) (admission : Admission)
      (body : Body WagerRequest) (key correlation_id : String) (s : Session)
      → Spared s (route_submit parse_uuid verify process header admission body key correlation_id s)
  unfolding route_submit
  route_submit-Spared verify header admission body key correlation_id s =
      elim (Sum-cases (then_guard (authenticated verify header) provider_only)) [
        | inl (refused, turned_away) ↦ rw (route_submit, turned_away) (λ q h. inr refl)
        | inr (p, passed) ↦
            rw (route_submit, passed) (limited-Spared admission body key correlation_id p s)
      ]

module _ (uuid_text : Uuid → String) (marshal : Envelope → Result (List ℕ)) (ids : ℕ → Uuid)
    (settings : ProcessSettings) (tag_problems : ProcessWagerInput → List String)
    (hash : ProcessWagerInput → Result String) (retry_attempts : ℕ) (fates : ℕ → Fate)
    (received_at now : Instant) where
  -- The use case on the database, at given readings of the clock.
  abbrev pub submitted : ProcessWagerInput → Session → Outcome ProcessWagerResult
  submitted input s =
      execute_process uuid_text marshal ids settings tag_problems hash retry_attempts fates input
        received_at now s

  -- A request to operate that is answered with a problem leaves the database as it was, unless the
  -- problem says that the outcome of the commit is unknown; so it is on every way through the guards,
  -- the limiter, the handler and the use case.
  pub submitted-Spared :
      (parse_uuid : String → Option Uuid) (verify : List ℕ → Option Principal) (header : List ℕ)
      (admission : Admission) (body : Body WagerRequest) (key correlation_id : String) (s : Session)
      {p : Problem} {after : Session}
      → route_submit parse_uuid verify submitted header admission body key correlation_id s
        ≡ (refuse p, after)
      → (p.code ≡ commit_unknown) ⊎ (after ≡ s)
  submitted-Spared parse_uuid verify header admission body key correlation_id s {p} {after} h =
      let spared =
        route_submit-Spared parse_uuid submitted
          (λ input s e.
            execute_process-error uuid_text marshal ids settings tag_problems hash retry_attempts
              fates input received_at now s)
          verify header admission body key correlation_id s in
      subst (Spared s) h spared p refl
