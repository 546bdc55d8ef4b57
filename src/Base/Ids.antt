-- ===== src/Base/Ids.antt =====
-- Identifiers and instants. Code compares a `uuid.UUID` with others and with `uuid.Nil`, so an
-- identifier is a number and 0 is `uuid.Nil`. An instant is the nanoseconds since the zero
-- `time.Time`, so 0 is the zero value and `UTC()` changes nothing; a `time.Duration` is a number of
-- nanoseconds that is not negative.
use Prim.Native.Nat.{ℕ}
use mathlib.Core.Bool.{Bool}
use wagering_wallet_service.Base.Tests.{◌==◌, ltb}

abbrev pub Uuid : Type 0
Uuid = ℕ

abbrev pub nil_uuid : Uuid
nil_uuid = 0

abbrev pub is_nil : Uuid → Bool
is_nil id = id == 0

abbrev pub Instant : Type 0
Instant = ℕ

-- The zero `time.Time`.
abbrev pub no_time : Instant
no_time = 0

-- `t.IsZero()`
abbrev pub is_unset : Instant → Bool
is_unset t = t == 0

-- `t.Before(u)`
abbrev pub before : Instant → Instant → Bool
before t u = ltb t u

abbrev pub Duration : Type 0
Duration = ℕ
