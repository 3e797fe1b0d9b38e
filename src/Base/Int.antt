-- ===== src/Base/Int.antt =====
-- Go's signed integers over the native numbers, under the library's names. A value is an exact
-- integer: where the source converts to a narrower type, the conversion is written out.
use Prim.Native.Nat.{ℕ, zero, suc, ◌+◌, ◌-◌, ◌*◌, ◌/◌, ◌%◌, ◌^◌, ◌≤◌, ◌<◌}
use mathlib.Core.Path.{◌≡◌}
use mathlib.Core.Bool.{Bool}
use native.Mathlib.Omega.{arith}
use huma.Base.Tests.{ltb, leb, ◌==◌, if◌then◌else◌}

-- `negsuc n` is -(n + 1).
pub data ℤ : Type 0 where
  pos : ℕ → ℤ
  negsuc : ℕ → ℤ

abbrev pub pos_part : ℤ → ℕ
pos_part (pos n) = n
pos_part (negsuc n) = 0

abbrev pub neg_part : ℤ → ℕ
neg_part (pos n) = 0
neg_part (negsuc n) = suc n

infix 50 ◌≤ℤ◌ ◌<ℤ◌ ◌==ℤ◌
abbrev pub ◌≤ℤ◌ : ℤ → ℤ → Type 0
a ≤ℤ b = pos_part a + neg_part b ≤ pos_part b + neg_part a

abbrev pub ◌<ℤ◌ : ℤ → ℤ → Type 0
a <ℤ b = pos_part a + neg_part b < pos_part b + neg_part a

abbrev pub ltb_ℤ : ℤ → ℤ → Bool
ltb_ℤ a b = ltb (pos_part a + neg_part b) (pos_part b + neg_part a)

abbrev pub leb_ℤ : ℤ → ℤ → Bool
leb_ℤ a b = leb (pos_part a + neg_part b) (pos_part b + neg_part a)

abbrev pub ◌==ℤ◌ : ℤ → ℤ → Bool
a ==ℤ b = (pos_part a + neg_part b) == (pos_part b + neg_part a)

-- a + 1
abbrev pub suc_ℤ : ℤ → ℤ
suc_ℤ (pos n) = pos (suc n)
suc_ℤ (negsuc zero) = pos 0
suc_ℤ (negsuc (suc n)) = negsuc n

-- a - 1
abbrev pub pred_ℤ : ℤ → ℤ
pred_ℤ (pos zero) = negsuc 0
pred_ℤ (pos (suc n)) = pos n
pred_ℤ (negsuc n) = negsuc (suc n)

-- 2 * a
abbrev pub double_ℤ : ℤ → ℤ
double_ℤ (pos n) = pos (2 * n)
double_ℤ (negsuc n) = negsuc (2 * n + 1)

-- a / k for a positive k, towards zero as Go divides.
abbrev pub quot_ℤ : ℤ → ℕ → ℤ
quot_ℤ (pos n) k = pos (n / k)
quot_ℤ (negsuc n) k = let q = suc n / k in if q == 0 then pos 0 else negsuc (q - 1)

-- The conversion `int32(a)` of an integer: its low 32 bits, read as a signed number.
unfoldable pub signed32 : ℕ → ℤ
signed32 r = if ltb r (2 ^ 31) then pos r else negsuc (2 ^ 32 - 1 - r)

unfoldable pub int32_of : ℤ → ℤ
unfolding signed32
int32_of (pos n) = signed32 (n % 2 ^ 32)
int32_of (negsuc n) = signed32 (2 ^ 32 - 1 - n % 2 ^ 32)

-- The same for `int`, of 64 bits.
unfoldable pub signed64 : ℕ → ℤ
signed64 r = if ltb r (2 ^ 63) then pos r else negsuc (2 ^ 64 - 1 - r)

unfoldable pub int64_of : ℤ → ℤ
unfolding signed64
int64_of (pos n) = signed64 (n % 2 ^ 64)
int64_of (negsuc n) = signed64 (2 ^ 64 - 1 - n % 2 ^ 64)

-- A value in the range of int32 is converted to itself.
pub int32_of_small : (n : ℕ) → n < 2 ^ 31 → int32_of (pos n) ≡ pos n
unfolding int32_of
int32_of_small n h = ground arith

pub suc_ℤ-lt : (a b : ℤ) → a <ℤ b → suc_ℤ a ≤ℤ b
suc_ℤ-lt a b h = ground arith
