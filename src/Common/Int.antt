-- ===== src/Common/Int.antt =====
-- The signed 64-bit integers of the program: integers, with the wrap-around of a release build
-- written out where the program adds, and where it subtracts.
use Prim.Native.Nat.{ℕ, suc, ◌+◌, ◌-◌, ◌%◌, ◌^◌, ◌≤◌, ◌<◌}
use mathlib.Core.Path.{◌≡◌, refl}
use mathlib.Core.Bool.{Bool}
use native.Mathlib.Omega.{arith}
use model2api.Common.Tests.{ltb, leb, if◌then◌else◌}

-- `negsuc n` is -(n + 1).
pub data ℤ : Type 0 where
  pos : ℕ → ℤ
  negsuc : ℕ → ℤ

abbrev pub pos_part : ℤ → ℕ
pos_part (pos n) = n
pos_part (negsuc n) = 0

abbrev pub neg_part : ℤ → ℕ
neg_part (pos n) = 0
neg_part (negsuc n) = suc n

-- a - b, as an integer.
abbrev pub sub_ℕ : ℕ → ℕ → ℤ
sub_ℕ a b = if leb b a then pos (a - b) else negsuc (b - a - 1)

infix 50 ◌≤ℤ◌
abbrev pub ◌≤ℤ◌ : ℤ → ℤ → Type 0
a ≤ℤ b = pos_part a + neg_part b ≤ pos_part b + neg_part a

abbrev pub ltb_ℤ : ℤ → ℤ → Bool
ltb_ℤ a b = ltb (pos_part a + neg_part b) (pos_part b + neg_part a)

abbrev pub max_ℤ : ℤ → ℤ → ℤ
max_ℤ a b = if ltb_ℤ a b then b else a

abbrev pub i64_half : ℕ
i64_half = 2 ^ 63

abbrev pub u64_mod : ℕ
u64_mod = 2 ^ 64

-- The value of the 64-bit pattern of an integer.
abbrev pub wrap_i64 : ℤ → ℤ
wrap_i64 (pos n) = let m = n % u64_mod in if ltb m i64_half then pos m else negsuc (u64_mod - 1 - m)
wrap_i64 (negsuc n) =
    let m = n % u64_mod in if ltb m i64_half then negsuc m else pos (u64_mod - 1 - m)

infixl 65 ◌+ℤ◌ ◌-ℤ◌
unfoldable pub ◌+ℤ◌ : ℤ → ℤ → ℤ
a +ℤ b = wrap_i64 (sub_ℕ (pos_part a + pos_part b) (neg_part a + neg_part b))

unfoldable pub ◌-ℤ◌ : ℤ → ℤ → ℤ
a -ℤ b = wrap_i64 (sub_ℕ (pos_part a + neg_part b) (neg_part a + pos_part b))

-- The integers that an `i64` holds.
abbrev pub IsI64 : ℤ → Type 0
IsI64 (pos n) = n < i64_half
IsI64 (negsuc n) = n < i64_half

pub +ℤ-suc : (n : ℕ) → suc n < i64_half → pos n +ℤ pos 1 ≡ pos (suc n)
unfolding ◌+ℤ◌
+ℤ-suc n h = ground arith

pub -ℤ-pred : (n : ℕ) → suc n < i64_half → pos (suc n) -ℤ pos 1 ≡ pos n
unfolding ◌-ℤ◌
-ℤ-pred n h = ground arith

pub +ℤ-IsI64 : (a b : ℤ) → IsI64 (a +ℤ b)
unfolding ◌+ℤ◌
+ℤ-IsI64 a b = ground arith

int_wraps : pos 9223372036854775807 +ℤ pos 1 ≡ negsuc 9223372036854775807
unfolding ◌+ℤ◌
int_wraps = refl
