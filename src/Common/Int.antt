-- ===== src/Common/Int.antt =====
-- Signed integers over the native numbers, and Go's `int64` arithmetic on them: `time.Duration` is
-- an `int64` of nanoseconds, its sums wrap, its quotients round towards zero, and the difference of
-- two `time.Time` saturates.
use preoomkiller_controller.Common.Tests.{ltb, leb, if◌then◌else◌}
use Prim.Native.Nat.{ℕ, suc, ◌+◌, ◌-◌, ◌/◌, ◌%◌, ◌≤◌, ◌<◌}
use mathlib.Core.Path.{◌≡◌}
use mathlib.Core.Bool.{Bool, true}
use native.Mathlib.Omega.{arith}

-- `negsuc n` is -(n + 1).
pub data ℤ : Type 0 where
  pos : ℕ → ℤ
  negsuc : ℕ → ℤ

abbrev pub pos_part : ℤ → ℕ
pos_part (pos n) = n
pos_part (negsuc n) = 0

abbrev pub neg_part : ℤ → ℕ
neg_part (pos n) = 0
neg_part (negsuc n) = suc n

-- a - b, as an integer.
abbrev pub sub_ℕ : ℕ → ℕ → ℤ
sub_ℕ a b = if leb b a then pos (a - b) else negsuc (b - a - 1)

infixl 65 ◌+ℤ◌ ◌-ℤ◌
infix 50 ◌≤ℤ◌ ◌<ℤ◌
unfoldable pub ◌+ℤ◌ : ℤ → ℤ → ℤ
a +ℤ b = sub_ℕ (pos_part a + pos_part b) (neg_part a + neg_part b)

unfoldable pub ◌-ℤ◌ : ℤ → ℤ → ℤ
a -ℤ b = sub_ℕ (pos_part a + neg_part b) (neg_part a + pos_part b)

abbrev pub ◌≤ℤ◌ : ℤ → ℤ → Type 0
a ≤ℤ b = pos_part a + neg_part b ≤ pos_part b + neg_part a

abbrev pub ◌<ℤ◌ : ℤ → ℤ → Type 0
a <ℤ b = pos_part a + neg_part b < pos_part b + neg_part a

abbrev pub ltb_ℤ : ℤ → ℤ → Bool
ltb_ℤ a b = ltb (pos_part a + neg_part b) (pos_part b + neg_part a)

abbrev pub leb_ℤ : ℤ → ℤ → Bool
leb_ℤ a b = leb (pos_part a + neg_part b) (pos_part b + neg_part a)

abbrev pub int64_half : ℕ
int64_half = 9_223_372_036_854_775_808

abbrev pub int64_mod : ℕ
int64_mod = 18_446_744_073_709_551_616

abbrev pub max_int64 : ℤ
max_int64 = pos 9_223_372_036_854_775_807

abbrev pub min_int64 : ℤ
min_int64 = negsuc 9_223_372_036_854_775_807

-- The values of an `int64`.
abbrev pub IsInt64 : ℤ → Type 0
IsInt64 a = (pos_part a < int64_half) × (neg_part a ≤ int64_half)

-- Two's complement: the value with the same residue modulo 2^64.
unfoldable pub wrap64 : ℤ → ℤ
wrap64 (pos n) = let m = n % int64_mod in if ltb m int64_half then pos m else sub_ℕ m int64_mod
wrap64 (negsuc n) =
    let m = n % int64_mod in if ltb m int64_half then negsuc m else pos (int64_mod - 1 - m)

unfoldable pub add64 : ℤ → ℤ → ℤ
add64 a b = wrap64 (a +ℤ b)

-- `time.Time.Sub`: the difference, held to the range of a `Duration`.
unfoldable pub sub_time : ℤ → ℤ → ℤ
sub_time a b =
    let d = a -ℤ b in
    if ltb_ℤ d min_int64 then min_int64 else if ltb_ℤ max_int64 d then max_int64 else d

-- Go's `/` on signed integers, for a divisor that is positive.
unfoldable pub quot_ℤ : ℤ → ℕ → ℤ
quot_ℤ (pos n) d = pos (n / d)
quot_ℤ (negsuc n) d = sub_ℕ 0 (suc n / d)

pub +ℤ_parts :
    (a b : ℤ)
    → pos_part (a +ℤ b) + neg_part a + neg_part b ≡ neg_part (a +ℤ b) + pos_part a + pos_part b
unfolding ◌+ℤ◌
+ℤ_parts a b = ground arith

pub -ℤ_parts :
    (a b : ℤ)
    → pos_part (a -ℤ b) + neg_part a + pos_part b ≡ neg_part (a -ℤ b) + pos_part a + neg_part b
unfolding ◌-ℤ◌
-ℤ_parts a b = ground arith

pub eq_of_parts : (a b : ℤ) → pos_part a + neg_part b ≡ pos_part b + neg_part a → a ≡ b
eq_of_parts a b h = ground arith

-- What `wrap64` returns is an `int64`, and an `int64` it leaves alone.
pub wrap64-IsInt64 : (a : ℤ) → IsInt64 (wrap64 a)
unfolding wrap64
wrap64-IsInt64 a = ground arith

pub wrap64_of_IsInt64 : (a : ℤ) → IsInt64 a → wrap64 a ≡ a
unfolding wrap64
wrap64_of_IsInt64 a h = ground arith

pub sub_time-IsInt64 : (a b : ℤ) → IsInt64 (sub_time a b)
unfolding sub_time ◌-ℤ◌
sub_time-IsInt64 a b = ground arith

pub ltb_ℤ→lt : (a b : ℤ) → ltb_ℤ a b ≡ true → a <ℤ b
ltb_ℤ→lt a b h = ground arith
