-- ===== src/Base/Bits.antt =====
-- The laws of exclusive or, and of the other bit operations at a mask, from the equation for the
-- lowest digit.
use Prim.Native.Nat.{ℕ, zero, suc, ◌+◌, ◌*◌, ◌/◌, ◌%◌, ◌^◌, ◌≤◌, ◌<◌, differ, digits}
use Prim.Native.Nat.{bit_xor, bit_xor-bitwise}
use mathlib.Core.Path.{◌≡◌, refl, sym, ap, ap₂, ◌∙◌}
use native.Mathlib.Nat.{le_refl, pow-suc}
use native.Mathlib.Omega.{arith}

-- The native operation means a recursion on digits with fuel; enough fuel makes no difference.
xor_fuel :
    (a b n m : ℕ) → a ≤ n → a ≤ m → digits (λ y. y) differ n a b ≡ digits (λ y. y) differ m a b
xor_fuel zero b zero zero hn hm = refl
xor_fuel zero b zero (suc m) hn hm = refl
xor_fuel zero b (suc n) zero hn hm = refl
xor_fuel zero b (suc n) (suc m) hn hm = refl
xor_fuel (suc a) b zero m hn hm = absurd (omega arith)
xor_fuel (suc a) b (suc n) zero hn hm = absurd (omega arith)
xor_fuel (suc a) b (suc n) (suc m) hn hm =
    rw (xor_fuel (suc a / 2) (b / 2) n m (omega arith) (omega arith))

-- The bit where two bits differ.
abbrev pub xor_bit : ℕ → ℕ → ℕ
xor_bit a b = (a + b) % 2

differ_bits : (x y : ℕ) → x < 2 → y < 2 → differ x y ≡ xor_bit x y
differ_bits zero y hx hy = omega arith
differ_bits (suc zero) zero hx hy = refl
differ_bits (suc zero) (suc zero) hx hy = refl
differ_bits (suc zero) (suc (suc y)) hx hy = absurd (omega arith)
differ_bits (suc (suc x)) y hx hy = absurd (omega arith)

pub bit_xor_step : (a b : ℕ) → bit_xor a b ≡ bit_xor (a / 2) (b / 2) * 2 + xor_bit a b
bit_xor_step zero b = omega (arith, bit_xor-bitwise 0 b, bit_xor-bitwise 0 (b / 2))
bit_xor_step (suc a) b = omega (
  arith,
  bit_xor-bitwise (suc a) b,
  bit_xor-bitwise (suc a / 2) (b / 2),
  xor_fuel (suc a / 2) (b / 2) a (suc a / 2) (omega arith) (omega arith),
  differ_bits (suc a % 2) (b % 2) (omega arith) (omega arith),
)

pub bit_xor_half : (a b : ℕ) → bit_xor a b / 2 ≡ bit_xor (a / 2) (b / 2)
bit_xor_half a b = omega (arith, bit_xor_step a b)

pub bit_xor_low : (a b : ℕ) → bit_xor a b % 2 ≡ xor_bit a b
bit_xor_low a b = omega (arith, bit_xor_step a b)

pub zero-bit_xor : (b : ℕ) → bit_xor 0 b ≡ b
zero-bit_xor b = bit_xor-bitwise 0 b

-- The laws hold for numbers up to any bound, by recursion on the bound.
xor_zero_upto : (n a : ℕ) → a ≤ n → bit_xor a 0 ≡ a
xor_zero_upto n zero h = zero-bit_xor 0
xor_zero_upto zero (suc a) h = absurd (omega arith)
xor_zero_upto (suc n) (suc a) h =
    omega (arith, bit_xor_step (suc a) 0, xor_zero_upto n (suc a / 2) (omega arith))

pub bit_xor-zero : (a : ℕ) → bit_xor a 0 ≡ a
bit_xor-zero a = xor_zero_upto a a (le_refl a)

xor_comm_upto : (n a b : ℕ) → a ≤ n → bit_xor a b ≡ bit_xor b a
xor_comm_upto n zero b h = rw (zero-bit_xor b, bit_xor-zero b)
xor_comm_upto zero (suc a) b h = absurd (omega arith)
xor_comm_upto (suc n) (suc a) b h = omega (
  arith,
  bit_xor_step (suc a) b,
  bit_xor_step b (suc a),
  xor_comm_upto n (suc a / 2) (b / 2) (omega arith),
)

pub bit_xor_comm : (a b : ℕ) → bit_xor a b ≡ bit_xor b a
bit_xor_comm a b = xor_comm_upto a a b (le_refl a)

xor_assoc_upto : (n a b c : ℕ) → a ≤ n → bit_xor (bit_xor a b) c ≡ bit_xor a (bit_xor b c)
xor_assoc_upto n zero b c h = rw (zero-bit_xor b, zero-bit_xor (bit_xor b c))
xor_assoc_upto zero (suc a) b c h = absurd (omega arith)
xor_assoc_upto (suc n) (suc a) b c h = ground (
  arith,
  bit_xor_step (bit_xor (suc a) b) c,
  bit_xor_step (suc a) (bit_xor b c),
  bit_xor_half (suc a) b,
  bit_xor_half b c,
  bit_xor_low (suc a) b,
  bit_xor_low b c,
  xor_assoc_upto n (suc a / 2) (b / 2) (c / 2) (omega arith),
)

pub bit_xor_assoc : (a b c : ℕ) → bit_xor (bit_xor a b) c ≡ bit_xor a (bit_xor b c)
bit_xor_assoc a b c = xor_assoc_upto a a b c (le_refl a)

xor_self_upto : (n a : ℕ) → a ≤ n → bit_xor a a ≡ 0
xor_self_upto n zero h = zero-bit_xor 0
xor_self_upto zero (suc a) h = absurd (omega arith)
xor_self_upto (suc n) (suc a) h =
    omega (arith, bit_xor_step (suc a) (suc a), xor_self_upto n (suc a / 2) (omega arith))

pub bit_xor_self : (a : ℕ) → bit_xor a a ≡ 0
bit_xor_self a = xor_self_upto a a (le_refl a)

-- A term of the second operand may move to the end, and one that stands twice goes.
pub bit_xor_right : (a b p : ℕ) → bit_xor (bit_xor a p) b ≡ bit_xor (bit_xor a b) p
bit_xor_right a b p =
    bit_xor_assoc a p b ∙ ap (bit_xor a) (bit_xor_comm p b) ∙ sym (bit_xor_assoc a b p)

pub bit_xor_cancel : (a b p : ℕ) → bit_xor (bit_xor a p) (bit_xor b p) ≡ bit_xor a b
bit_xor_cancel a b p =
    bit_xor_right a (bit_xor b p) p
    ∙ bit_xor_assoc a (bit_xor b p) p
    ∙ ap (bit_xor a) (bit_xor_assoc b p p ∙ ap (bit_xor b) (bit_xor_self p) ∙ bit_xor-zero b)

-- `a >> k`, a digit at a time.
abbrev pub halves : ℕ → ℕ → ℕ
halves zero a = a
halves (suc k) a = halves k (a / 2)

pub halves-bit_xor : (k a b : ℕ) → halves k (bit_xor a b) ≡ bit_xor (halves k a) (halves k b)
halves-bit_xor zero a b = refl
halves-bit_xor (suc k) a b = rw (bit_xor_half a b) (halves-bit_xor k (a / 2) (b / 2))

-- What `k` halvings leave is 0 exactly below 2 ^ k, so that a sum without carries keeps the bound.
halves_below : (k a : ℕ) → a < 2 ^ k → halves k a ≡ 0
halves_below zero a h = omega arith
halves_below (suc k) a h = halves_below k (a / 2) (omega (arith, pow-suc 2 k))

below_halves : (k a : ℕ) → halves k a ≡ 0 → a < 2 ^ k
below_halves zero a h = omega arith
below_halves (suc k) a h = omega (arith, below_halves k (a / 2) h, pow-suc 2 k)

pub bit_xor-lt_pow : (k a b : ℕ) → a < 2 ^ k → b < 2 ^ k → bit_xor a b < 2 ^ k
bit_xor-lt_pow k a b ha hb = below_halves k (bit_xor a b) high
  where
    high : halves k (bit_xor a b) ≡ 0
    high =
        halves-bit_xor k a b
        ∙ ap₂ bit_xor (halves_below k a ha) (halves_below k b hb)
        ∙ zero-bit_xor 0

-- A byte stays a byte.
pub bit_xor-lt_byte : (a b : ℕ) → a < 256 → b < 256 → bit_xor a b < 256
bit_xor-lt_byte = bit_xor-lt_pow 8
