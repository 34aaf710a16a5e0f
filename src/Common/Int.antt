-- ===== src/Common/Int.antt =====
-- Signed integers over the native numbers, and the Java integer types: an `Int` or a `Long` is an
-- integer kept in its range by `wrap`, a `UInt` is a number below 2 ^ 32.
use Prim.Native.Nat.{ℕ, suc, ◌+◌, ◌-◌, ◌%◌, ◌^◌, ◌≤◌, ◌<◌}
use mathlib.Core.Path.{◌≡◌}
use mathlib.Core.Bool.{Bool}
use native.Mathlib.Omega.{arith}
use lib_rabbit_job_queue.Common.Tests.{ltb, leb, if◌then◌else◌}

-- `negsuc n` is -(n + 1).
pub data ℤ : Type 0 where
  pos : ℕ → ℤ
  negsuc : ℕ → ℤ

abbrev pub pos_part : ℤ → ℕ
pos_part (pos n) = n
pos_part (negsuc n) = 0

abbrev pub neg_part : ℤ → ℕ
neg_part (pos n) = 0
neg_part (negsuc n) = suc n

abbrev pub sub_ℕ : ℕ → ℕ → ℤ
sub_ℕ a b = if leb b a then pos (a - b) else negsuc (b - a - 1)

infixl 65 ◌+ℤ◌ ◌-ℤ◌
infix 50 ◌≤ℤ◌ ◌<ℤ◌
unfoldable pub ◌+ℤ◌ : ℤ → ℤ → ℤ
a +ℤ b = sub_ℕ (pos_part a + pos_part b) (neg_part a + neg_part b)

unfoldable pub ◌-ℤ◌ : ℤ → ℤ → ℤ
a -ℤ b = sub_ℕ (pos_part a + neg_part b) (neg_part a + pos_part b)

abbrev pub ◌≤ℤ◌ : ℤ → ℤ → Type 0
a ≤ℤ b = pos_part a + neg_part b ≤ pos_part b + neg_part a

abbrev pub ◌<ℤ◌ : ℤ → ℤ → Type 0
a <ℤ b = pos_part a + neg_part b < pos_part b + neg_part a

abbrev pub ltb_ℤ : ℤ → ℤ → Bool
ltb_ℤ a b = ltb (pos_part a + neg_part b) (pos_part b + neg_part a)

pub -ℤ_parts :
    (a b : ℤ)
    → pos_part (a -ℤ b) + neg_part a + pos_part b ≡ neg_part (a -ℤ b) + pos_part a + neg_part b
unfolding ◌-ℤ◌
-ℤ_parts a b = ground arith

pub eq_of_parts : (a b : ℤ) → pos_part a + neg_part b ≡ pos_part b + neg_part a → a ≡ b
eq_of_parts a b h = ground arith

abbrev pub uint_mod : ℕ
uint_mod = 2 ^ 32

-- The residue of an integer modulo m, as a number below m.
unfoldable pub residue : ℕ → ℤ → ℕ
residue m (pos n) = n % m
residue m (negsuc n) = m - suc (n % m)

-- `toUInt()` of an `Int`.
unfoldable pub to_uint : ℤ → ℕ
unfolding residue
to_uint a = residue uint_mod a

-- The signed integer of w bits with a given residue, h = 2 ^ (w - 1).
abbrev signed : ℕ → ℕ → ℤ
signed h r = if ltb r h then pos r else negsuc (h + h - r - 1)

-- The wrap-around of `Int` and `Long` arithmetic.
unfoldable pub wrap_int : ℤ → ℤ
unfolding residue
wrap_int a = signed (2 ^ 31) (residue (2 ^ 32) a)

unfoldable pub wrap_long : ℤ → ℤ
unfolding residue
wrap_long a = signed (2 ^ 63) (residue (2 ^ 64) a)

abbrev pub IsLong : ℤ → Type 0
IsLong a = (pos_part a < 2 ^ 63) × (neg_part a ≤ 2 ^ 63)

abbrev pub IsInt : ℤ → Type 0
IsInt a = (pos_part a < 2 ^ 31) × (neg_part a ≤ 2 ^ 31)

pub wrap_long_of_IsLong : (a : ℤ) → IsLong a → wrap_long a ≡ a
unfolding wrap_long
wrap_long_of_IsLong (pos n) h = ground arith
wrap_long_of_IsLong (negsuc n) h = ground arith

pub wrap_int_of_IsInt : (a : ℤ) → IsInt a → wrap_int a ≡ a
unfolding wrap_int
wrap_int_of_IsInt (pos n) h = ground arith
wrap_int_of_IsInt (negsuc n) h = ground arith

pub to_uint-lt : (a : ℤ) → to_uint a < uint_mod
unfolding to_uint
to_uint-lt (pos n) = ground arith
to_uint-lt (negsuc n) = ground arith

pub -ℤ_bounds :
    (a b : ℤ)
    → (pos_part (a -ℤ b) ≤ pos_part a + neg_part b) × (neg_part (a -ℤ b) ≤ neg_part a + pos_part b)
unfolding ◌-ℤ◌
-ℤ_bounds a b = ground arith
