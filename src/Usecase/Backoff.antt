-- ===== src/Usecase/Backoff.antt =====
-- The delay between attempts: internal/application/usecase/backoff.go. A duration is an int64.
use native.Mathlib.Omega.{pow_step}
use wagering_wallet_service.Base.{RepositoryError}
use wagering_wallet_service.Base.{
  ltb, if◌then◌else◌, Bool-cases, RepositoryError, Failure, of_repository, cancelled,
  deadline_exceeded, ℤ, pos, pos_part, ltb_ℤ, +ℤ_parts, eq_of_parts, wrap64_self, parts_apart, ◌+ℤ◌,
  wrap64, ℕ, zero, suc, ◌+◌, ◌*◌, ◌^◌, ◌≤◌, ◌<◌, ◌≡◌, inl, inr, Bool, true, false, not, arith,
}

-- The loop, from the current delay; `delay *= 2` wraps round.
unfoldable pub doubled : ℤ → ℕ → ℤ → ℤ
doubled maximum zero delay = if ltb_ℤ maximum delay then maximum else delay
doubled maximum (suc n) delay =
    let next = wrap64 (delay +ℤ delay) in
    let rest = doubled maximum n next in if not (ltb_ℤ next maximum) then maximum else rest

-- `backoff`; `max(exponent, 0)` rounds.
unfoldable pub backoff : ℤ → ℤ → ℤ → ℤ
unfolding doubled
backoff base maximum exponent = doubled maximum (pos_part exponent) base

-- `recoverable`
abbrev pub recoverable : Failure → Bool
recoverable (of_repository RepositoryError.transient) = true
recoverable (of_repository RepositoryError.aborted) = true
recoverable (of_repository RepositoryError.lock_timeout) = true
recoverable (of_repository RepositoryError.commit_outcome_unknown) = true
recoverable cancelled = true
recoverable deadline_exceeded = true
recoverable _ = false

twice : (d : ℕ) → d < 2 ^ 62 → wrap64 (pos d +ℤ pos d) ≡ pos (d + d)
twice d h = ground (
  arith,
  wrap64_self (pos d +ℤ pos d),
  +ℤ_parts (pos d) (pos d),
  parts_apart (pos d +ℤ pos d),
  eq_of_parts (pos d +ℤ pos d) (pos (d + d)),
)

two_pow : (n d : ℕ) → d * 2 ^ suc n ≡ (d + d) * 2 ^ n
two_pow n d = rw (pow_step 2 n) (omega arith)

pow_grows : (n d : ℕ) → d ≤ d * 2 ^ n
pow_grows zero d = omega arith
pow_grows (suc n) d = omega (arith, two_pow n d, pow_grows n (d + d))

doubled_lem :
    (maximum n delay : ℕ)
    → maximum ≤ 2 ^ 62
    → delay < 2 ^ 62
    → doubled (pos maximum) n (pos delay)
      ≡ pos (if ltb maximum (delay * 2 ^ n) then maximum else delay * 2 ^ n)
unfolding doubled
doubled_lem maximum zero delay hm hd = ground arith
doubled_lem maximum (suc n) delay hm hd = elim (Bool-cases (ltb (delay + delay) maximum)) [
  | inl below ↦
      ground (arith, twice delay hd, doubled_lem maximum n (delay + delay) hm, two_pow n delay)
  | inr over ↦ ground (arith, twice delay hd, pow_grows n (delay + delay), two_pow n delay)
]

-- With a maximum of at most 2 ^ 62 nanoseconds and a base below that, the delay is exactly the base doubled as
-- often as the exponent says, or the maximum when that is more; a negative exponent doubles nothing.
pub backoff_lem :
    (maximum base : ℕ) (exponent : ℤ)
    → maximum ≤ 2 ^ 62
    → base < 2 ^ 62
    → backoff (pos base) (pos maximum) exponent
      ≡ pos (
          if ltb maximum (base * 2 ^ pos_part exponent)
          then maximum
          else base * 2 ^ pos_part exponent)
unfolding backoff
backoff_lem maximum base exponent hm hb = doubled_lem maximum (pos_part exponent) base hm hb
