-- ===== src/Store/Triple.antt =====
-- What a body of a unit of work ensures when it succeeds.
use wagering_wallet_service.Base.{
  Failure, Result, Result-cases, err, ok, Uuid, ℕ, ◌≡◌, inl, inr, arith,
}
use mathlib.Core.Path.{subst}
use wagering_wallet_service.Store.{
  pure_result, return, execute, query, fail, new_id, Store, Session, Tx, ◌>>=◌,
}

-- The steps of a sequence that succeeded.
pub bind-ok {ℓ κ} :
    {A : Type ℓ} {B : Type κ} (m : Tx A) (f : A → Tx B) (s : Session) {b : B} {s' : Session}
    → (m >>= f) s ≡ ok (b, s')
    → (a : A) × (t : Session) × (m s ≡ ok (a, t)) × (f a t ≡ ok (b, s'))
bind-ok m f s h = elim (Result-cases (m s)) [
  | inl ((a, t), done) ↦ (a, t, done, ground (arith, h, done))
  | inr (e, failed) ↦ absurd (ground (arith, h, failed))
]

pub pure_result-ok {ℓ} :
    {A : Type ℓ} (m : Result A) (s : Session) {a : A} {s' : Session}
    → pure_result m s ≡ ok (a, s')
    → (m ≡ ok a) × (s ≡ s')
pure_result-ok (ok x) s h = (ground (arith, h), ground (arith, h))
pure_result-ok (err failure) s h = absurd (ground (arith, h))

-- From a session that satisfies `P`, a body that succeeds ends in an answer and a session that
-- satisfy `Q`.
abbrev pub Triple {ℓ} : {A : Type ℓ} → (Session → Type 0) → Tx A → (A → Session → Type 0) → Type ℓ
Triple {A = A} P m Q = (s : Session) → P s → (a : A) (s' : Session) → m s ≡ ok (a, s') → Q a s'

pub bind-Triple {ℓ κ} :
    {A : Type ℓ} {B : Type κ} {P : Session → Type 0} (Q : A → Session → Type 0)
    {R : B → Session → Type 0} (m : Tx A) (f : A → Tx B)
    → Triple P m Q
    → ((a : A) → Triple (Q a) (f a) R)
    → Triple P (m >>= f) R
bind-Triple Q m f first rest s p b s' h =
    let (a, t, done, after) = bind-ok m f s h in rest a t (first s p a t done) b s' after

-- A body that keeps an invariant of the store.
pub record Keeps {ℓ} {A : Type ℓ} (I : Store → Type 0) (m : Tx A) : Type ℓ where
  pub kept : Triple (λ s. I s.store) m (λ _ s. I s.store)

pub bind-Keeps {ℓ κ} :
    {A : Type ℓ} {B : Type κ} {I : Store → Type 0} {m : Tx A} {f : A → Tx B}
    → Keeps I m
    → ((a : A) → Keeps I (f a))
    → Keeps I (m >>= f)
bind-Keeps {I = I} {m = m} {f = f} first rest = record {
  kept = bind-Triple (λ _ s. I s.store) m f first.kept (λ a. (rest a).kept);
}

pub return-Keeps {ℓ} : {A : Type ℓ} {I : Store → Type 0} (x : A) → Keeps I (return x)
return-Keeps {I = I} x = record {
  kept = λ s i a s' h. subst I {x = s.store} {y = s'.store} (ground (arith, h)) i;
}

pub fail-Keeps {ℓ} :
    {A : Type ℓ} {I : Store → Type 0} (failure : Failure) → Keeps I (fail {A = A} failure)
fail-Keeps failure = record { kept = λ s i a s' h. absurd (ground (arith, h)) }

pub pure_result-Keeps {ℓ} :
    {A : Type ℓ} {I : Store → Type 0} (m : Result A) → Keeps I (pure_result m)
pure_result-Keeps (ok x) = return-Keeps x
pure_result-Keeps (err failure) = fail-Keeps failure

pub query-Keeps {ℓ} : {A : Type ℓ} {I : Store → Type 0} (f : Store → Result A) → Keeps I (query f)
query-Keeps f = record { kept = λ s. (pure_result-Keeps (f s.store)).kept s }

pub new_id-Keeps : {I : Store → Type 0} (ids : ℕ → Uuid) → Keeps I (new_id ids)
new_id-Keeps {I} ids = record { kept = λ s i a s' h. subst I {y = s'.store} (ground (arith, h)) i }

-- A statement keeps the invariant when what it does to the store does.
pub execute-Keeps {ℓ} :
    {A : Type ℓ} {I : Store → Type 0} (f : Store → Result (A × Store))
    → ((store : Store) (a : A) (store' : Store) → I store → f store ≡ ok (a, store') → I store')
    → Keeps I (execute f)
execute-Keeps {I = I} f keeps = record {
  kept = λ s i a s' h. elim (Result-cases (f s.store)) [
    | inl ((b, store'), done) ↦
        subst I {y = s'.store} (ground (arith, h, done)) (keeps s.store b store' i done)
    | inr (e, failed) ↦ absurd (ground (arith, h, failed))
  ];
}
