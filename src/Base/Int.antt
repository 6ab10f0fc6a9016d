-- ===== src/Base/Int.antt =====
-- C's `int` as a signed number, where a parameter may be negative.
use Prim.Native.Nat.{ℕ, ◌+◌, ◌-◌, ◌/◌, ◌%◌, ◌^◌, ◌<◌, ◌≤◌}
use mathlib.Core.Path.{◌≡◌}
use mathlib.Core.Bool.{Bool, true, false}
use native.Mathlib.Omega.{arith}
use dolphin_core.Base.Tests.{ltb, leb, if◌then◌else◌}

-- `negsuc n` is -(n + 1).
pub data ℤ : Type 0 where
  pos : ℕ → ℤ
  negsuc : ℕ → ℤ

-- The number itself if it is at least 0, and 0 otherwise: `n <= 0` is `pos_part n ≡ 0`.
abbrev pub pos_part : ℤ → ℕ
pos_part (pos n) = n
pos_part (negsuc n) = 0

-- The `int` whose bits are the low 32 of a number: a conversion, and what sums and products that
-- leave the range come to on the machines that the code is built for.
unfoldable pub int32 : ℕ → ℤ
int32 n = if ltb (n % 2 ^ 32) (2 ^ 31) then pos (n % 2 ^ 32) else negsuc (2 ^ 32 - 1 - n % 2 ^ 32)

pub int32_small : (n : ℕ) → n < 2 ^ 31 → int32 n ≡ pos n
unfolding int32
int32_small n h = ground arith

-- The difference of two addresses, as a conversion gives it.
pub int32_diff : (a b : ℕ) → b ≤ a → a - b < 2 ^ 31 → int32 (a + 2 ^ 64 - b) ≡ pos (a - b)
unfolding int32
int32_diff a b h k = ground arith

-- The same bits as a number, with which sums and products are made.
abbrev pub bits32 : ℤ → ℕ
bits32 (pos n) = n % 2 ^ 32
bits32 (negsuc n) = 2 ^ 32 - 1 - n % 2 ^ 32

-- `a <= b` and `a < b`
abbrev pub leb_int : ℤ → ℤ → Bool
leb_int (pos a) (pos b) = leb a b
leb_int (pos a) (negsuc b) = false
leb_int (negsuc a) (pos b) = true
leb_int (negsuc a) (negsuc b) = leb b a

abbrev pub ltb_int : ℤ → ℤ → Bool
ltb_int (pos a) (pos b) = ltb a b
ltb_int (pos a) (negsuc b) = false
ltb_int (negsuc a) (pos b) = true
ltb_int (negsuc a) (negsuc b) = ltb b a

-- Division by a positive number, towards 0.
abbrev pub div_int : ℤ → ℕ → ℤ
div_int (pos n) k = pos (n / k)
div_int (negsuc n) k = if ltb (n + 1) k then pos 0 else negsuc ((n + 1) / k - 1)
