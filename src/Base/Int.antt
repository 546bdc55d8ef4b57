-- ===== src/Base/Int.antt =====
-- Integers over the native numbers, and the 64-bit signed machine integers inside them.
use Prim.Native.Nat.{ℕ, suc, ◌+◌, ◌-◌, ◌%◌, ◌^◌, ◌≤◌, ◌<◌}
use mathlib.Core.Path.{◌≡◌, refl}
use mathlib.Core.Logic.{◌⊎◌, inl, inr}
use mathlib.Core.Bool.{Bool, ◌&&◌}
use native.Mathlib.Omega.{arith}
use wagering_wallet_service.Base.Tests.{ltb, leb, ◌==◌, if◌then◌else◌}

-- `negsuc n` is -(n + 1).
pub data ℤ : Type 0 where
  pos : ℕ → ℤ
  negsuc : ℕ → ℤ

abbrev pub pos_part : ℤ → ℕ
pos_part (pos n) = n
pos_part (negsuc n) = 0

abbrev pub neg_part : ℤ → ℕ
neg_part (pos n) = 0
neg_part (negsuc n) = suc n

abbrev pub sub_ℕ : ℕ → ℕ → ℤ
sub_ℕ a b = if leb b a then pos (a - b) else negsuc (b - a - 1)

infixl 65 ◌+ℤ◌ ◌-ℤ◌
infix 50 ◌≤ℤ◌ ◌<ℤ◌
unfoldable pub ◌+ℤ◌ : ℤ → ℤ → ℤ
a +ℤ b = sub_ℕ (pos_part a + pos_part b) (neg_part a + neg_part b)

unfoldable pub ◌-ℤ◌ : ℤ → ℤ → ℤ
a -ℤ b = sub_ℕ (pos_part a + neg_part b) (neg_part a + pos_part b)

abbrev pub ◌≤ℤ◌ : ℤ → ℤ → Type 0
a ≤ℤ b = pos_part a + neg_part b ≤ pos_part b + neg_part a

abbrev pub ◌<ℤ◌ : ℤ → ℤ → Type 0
a <ℤ b = pos_part a + neg_part b < pos_part b + neg_part a

abbrev pub ltb_ℤ : ℤ → ℤ → Bool
ltb_ℤ a b = ltb (pos_part a + neg_part b) (pos_part b + neg_part a)

abbrev pub eqb_ℤ : ℤ → ℤ → Bool
eqb_ℤ a b = (pos_part a + neg_part b) == (pos_part b + neg_part a)

-- With these the operations can stay shut.
pub +ℤ_parts :
    (a b : ℤ)
    → pos_part (a +ℤ b) + neg_part a + neg_part b ≡ neg_part (a +ℤ b) + pos_part a + pos_part b
unfolding ◌+ℤ◌
+ℤ_parts a b = ground arith

pub -ℤ_parts :
    (a b : ℤ)
    → pos_part (a -ℤ b) + neg_part a + pos_part b ≡ neg_part (a -ℤ b) + pos_part a + neg_part b
unfolding ◌-ℤ◌
-ℤ_parts a b = ground arith

pub eq_of_parts : (a b : ℤ) → pos_part a + neg_part b ≡ pos_part b + neg_part a → a ≡ b
eq_of_parts a b h = ground arith

pub ruleset int_laws = (arith, +ℤ_parts, -ℤ_parts, eq_of_parts)

-- The range of Go's `int64`.
abbrev pub max_int64 : ℕ
max_int64 = 2 ^ 63 - 1

abbrev pub min_int64 : ℤ
min_int64 = negsuc max_int64

abbrev pub InInt64 : ℤ → Type 0
InInt64 z = (pos_part z ≤ max_int64) × (neg_part z ≤ 2 ^ 63)

abbrev pub in_int64 : ℤ → Bool
in_int64 z = leb (pos_part z) max_int64 && leb (neg_part z) (2 ^ 63)

-- The number that a 64-bit pattern stands for.
abbrev pub signed64 : ℕ → ℤ
signed64 w = if ltb w (2 ^ 63) then pos w else negsuc (2 ^ 64 - 1 - w)

-- Two's complement wrap-around: the value of an `int64` expression whose exact value is `z`.
unfoldable pub wrap64 : ℤ → ℤ
wrap64 (pos n) = signed64 (n % 2 ^ 64)
wrap64 (negsuc n) = signed64 (2 ^ 64 - 1 - n % 2 ^ 64)

pub wrap64_self : (z : ℤ) → InInt64 z → wrap64 z ≡ z
unfolding wrap64
wrap64_self (pos n) h = ground arith
wrap64_self (negsuc n) h = ground arith

pub wrap64-InInt64 : (z : ℤ) → InInt64 (wrap64 z)
unfolding wrap64
wrap64-InInt64 (pos n) = ground arith
wrap64-InInt64 (negsuc n) = ground arith

-- Just above the range the wrap takes 2 ^ 64 off, just below it adds 2 ^ 64.
pub wrap64_above :
    (z : ℤ)
    → 2 ^ 63 ≤ pos_part z
    → pos_part z < 2 ^ 64
    → neg_part (wrap64 z) + pos_part z ≡ 2 ^ 64 + pos_part (wrap64 z)
unfolding wrap64
wrap64_above (pos n) lo hi = ground arith
wrap64_above (negsuc n) lo hi = ground arith

pub wrap64_below :
    (z : ℤ)
    → 2 ^ 63 < neg_part z
    → neg_part z ≤ 2 ^ 64
    → pos_part (wrap64 z) + neg_part z ≡ 2 ^ 64 + neg_part (wrap64 z)
unfolding wrap64
wrap64_below (pos n) lo hi = ground arith
wrap64_below (negsuc n) lo hi = ground arith

pub parts_apart : (z : ℤ) → (pos_part z ≡ 0) ⊎ (neg_part z ≡ 0)
parts_apart (pos n) = inr refl
parts_apart (negsuc n) = inl refl
