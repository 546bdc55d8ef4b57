-- ===== src/Broker/Routes.antt =====
-- Which listeners `NewConsumer` takes.
use wagering_wallet_service.Base.{
  Bool-cases, Option-cases, before, All, is_empty, String, ◌≡◌, refl, sym, ap, ◌∙◌, ◌⊎◌, inl, inr,
  true, false, none, some, List, [], ◌∷◌, ◌++◌, arith, str_eq,
}
use mathlib.Core.Path.{subst}
use mathlib.Core.List.{append_assoc, append-nil}
use wagering_wallet_service.Broker.Consumer.{
  Route, RouteError, watches_nothing, watch_the_same, taken_by, put_route, add_routes, routes_of,
}

-- Each listener watches a queue, and no two the same.
abbrev pub Apart : List Route → Type 0
Apart [] = Unit
Apart (r ∷ rs) =
    (is_empty r.watching ≡ false) × All (λ q. str_eq r.watching q.watching ≡ false) rs × Apart rs

-- Why listeners are refused: one of them watches nothing, or one watches the queue of an earlier one.
pub data Refused (listeners : List Route) : RouteError → Type 0 where
  nothing :
      (before after : List Route) (l : Route)
      → listeners ≡ before ++ l ∷ after
      → is_empty l.watching ≡ true
      → Refused listeners (watches_nothing l.name)
  the_same :
      (before between after : List Route) (first second : Route)
      → listeners ≡ before ++ first ∷ (between ++ second ∷ after)
      → str_eq first.watching second.watching ≡ true
      → Refused listeners (watch_the_same first.name second.name)

taken_by-some :
    (queue : String) (routes : List Route) {r : Route}
    → taken_by queue routes ≡ some r
    → (before after : List Route) × (routes ≡ before ++ r ∷ after)
      × (str_eq r.watching queue ≡ true)
taken_by-some queue [] h = absurd (ground (arith, h))
taken_by-some queue (q ∷ rest) {r} h = elim (Bool-cases (str_eq q.watching queue)) [
  | inl here ↦
      let same : q ≡ r = ground (arith, h, here) in
      (
        [],
        rest,
        ap (λ x. x ∷ rest) same,
        subst (λ (x : Route). str_eq x.watching queue ≡ true) same here,
      )
  | inr other ↦
      let (before, after, split, same) = taken_by-some queue rest (ground (arith, h, other)) in
      (q ∷ before, after, ap (λ l. q ∷ l) split, same)
]

put_route-free :
    (target : Route) (routes : List Route)
    → taken_by target.watching routes ≡ none
    → put_route target routes ≡ routes ++ (target ∷ [])
unfolding put_route
put_route-free target [] h = refl
put_route-free target (r ∷ rest) h = elim (Bool-cases (str_eq r.watching target.watching)) [
  | inl here ↦ absurd (ground (arith, h, here))
  | inr other ↦ rw other (ap (λ l. r ∷ l) (put_route-free target rest (ground (arith, h, other))))
]

All-last {ℓ κ} :
    {A : Type ℓ} (P : A → Type κ) (xs : List A) {x : A} → All P xs → P x → All P (xs ++ (x ∷ []))
All-last P [] hs h = (h, tt)
All-last P (y ∷ ys) (here, there) h = (here, All-last P ys there h)

Apart-last :
    (target : Route) (routes : List Route)
    → is_empty target.watching ≡ false
    → taken_by target.watching routes ≡ none
    → Apart routes
    → Apart (routes ++ (target ∷ []))
Apart-last target [] named h apart = (named, tt, tt)
Apart-last target (r ∷ rest) named h (given, others, apart) =
    elim (Bool-cases (str_eq r.watching target.watching)) [
      | inl here ↦ absurd (ground (arith, h, here))
      | inr other ↦ (
        given,
        All-last (λ q. str_eq r.watching q.watching ≡ false) rest others other,
        Apart-last target rest named (ground (arith, h, other)) apart,
      )
    ]

-- What becomes of `listeners`, when the rest of them gives `result`.
abbrev Judged : RouteError ⊎ List Route → List Route → Type 0
Judged result listeners =
    ((result ≡ inr listeners) × Apart listeners)
    ⊎ ((e : RouteError) × (result ≡ inl e) × Refused listeners e)

add_routes_lem :
    (routes rest : List Route) → Apart routes → Judged (add_routes routes rest) (routes ++ rest)
unfolding add_routes
add_routes_lem routes [] apart =
    subst (Judged (inr routes)) (sym (append-nil routes)) (inl (refl, apart))
add_routes_lem routes (target ∷ rest) apart = elim (Bool-cases (is_empty target.watching)) [
  | inl empty ↦
      inr (watches_nothing target.name, rw empty refl, nothing routes rest target refl empty)
  | inr named ↦ elim (Option-cases (taken_by target.watching routes)) [
    | inr (existing, taken) ↦
        let (before, after, split, same) = taken_by-some target.watching routes taken in
        inr (
          watch_the_same existing.name target.name,
          ground (arith, named, taken),
          the_same before after rest existing target
              (ap (λ l. l ++ target ∷ rest) split
                ∙ append_assoc before (existing ∷ after) (target ∷ rest))
              same,
        )
    | inl free ↦
        let grown : put_route target routes ≡ routes ++ (target ∷ []) =
          put_route-free target routes free in
        let moved : put_route target routes ++ rest ≡ routes ++ target ∷ rest =
          ap (λ l. l ++ rest) grown ∙ append_assoc routes (target ∷ []) rest in
        let on : add_routes routes (target ∷ rest) ≡ add_routes (put_route target routes) rest =
          rw (named, free) refl in
        subst (λ result. Judged result (routes ++ target ∷ rest)) (sym on)
          (subst (Judged (add_routes (put_route target routes) rest)) moved (
            add_routes_lem (put_route target routes) rest
              (subst Apart (sym grown) (Apart-last target routes named free apart))))
  ]
]

-- NewConsumer either takes all its listeners, as they are, when each watches a queue and no two the
-- same; or it refuses them with the error that names one that watches nothing, or two that watch the
-- same queue.
pub routes_of_lem : (listeners : List Route) → Judged (routes_of listeners) listeners
unfolding routes_of
routes_of_lem listeners = add_routes_lem [] listeners tt
