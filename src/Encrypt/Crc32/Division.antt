-- ===== src/Encrypt/Crc32/Division.antt =====
-- The division by the polynomial 0xEDB88320, a bit at a time, and the table against it.
use Prim.Native.Nat.{bit_xor}
use dolphin_core.Base.{
  ℕ, zero, suc, ◌+◌, ◌*◌, ◌/◌, ◌%◌, ◌^◌, ◌<◌, ◌≡◌, refl, ap, ap₂, ◌∙◌, sym, arith,
}
use dolphin_core.Base.{List, [], ◌∷◌, get_or, length, Bool, true, ◌&&◌, ◌==◌, if◌then◌else◌, ==_iff}
use dolphin_core.Base.Bits.{bit_xor_half, bit_xor_low, bit_xor_comm, bit_xor_assoc, bit_xor-zero}
use dolphin_core.Base.Bits.{bit_xor-lt_byte, bit_xor_step, bit_xor_right, bit_xor_cancel}
use native.Mathlib.Nat.{pow-suc}
use dolphin_core.Encrypt.Crc32.Table.{crc32tab}
use dolphin_core.Encrypt.Crc32.{crc32_byte}

abbrev pub polynomial : ℕ
polynomial = 0xedb88320

-- One bit of the division: shift right, and subtract the polynomial if a one fell out.
unfoldable pub divide_bit : ℕ → ℕ
divide_bit r = if r % 2 == 1 then bit_xor (r / 2) polynomial else r / 2

unfoldable pub divide : ℕ → ℕ → ℕ
unfolding divide_bit
divide zero r = r
divide (suc n) r = divide n (divide_bit r)

-- The remainder of a message: each byte is added at the low end and divided for eight bits.
unfoldable pub remainder : ℕ → List ℕ → ℕ
unfolding divide
remainder r [] = r
remainder r (x ∷ xs) = remainder (divide 8 (bit_xor r x)) xs

-- The division of a sum is the sum of the divisions.
divide_bit-bit_xor : (a b : ℕ) → divide_bit (bit_xor a b) ≡ bit_xor (divide_bit a) (divide_bit b)
unfolding divide_bit
divide_bit-bit_xor a b = ground (
  arith,
  bit_xor_half a b,
  bit_xor_low a b,
  bit_xor_right (a / 2) (b / 2) polynomial,
  bit_xor_cancel (a / 2) (b / 2) polynomial,
  bit_xor_assoc (a / 2) (b / 2) polynomial,
)

divide-bit_xor : (n a b : ℕ) → divide n (bit_xor a b) ≡ bit_xor (divide n a) (divide n b)
unfolding divide
divide-bit_xor zero a b = refl
divide-bit_xor (suc n) a b =
    ap (divide n) (divide_bit-bit_xor a b) ∙ divide-bit_xor n (divide_bit a) (divide_bit b)

-- Zeros that fall out change nothing else.
divide_shifted : (n q : ℕ) → divide n (q * 2 ^ n) ≡ q
unfolding divide divide_bit
divide_shifted zero q = omega arith
divide_shifted (suc n) q = rw even (divide_shifted n q)
  where
    even : divide_bit (q * 2 ^ suc n) ≡ q * 2 ^ n
    even = ground (arith, ap (λ (t : ℕ). q * t) (pow-suc 2 n))

-- The values of a table from index `i` on are the divisions of their indices.
divides_from : ℕ → List ℕ → Bool
divides_from i [] = true
divides_from i (t ∷ ts) = (t == divide 8 i) && divides_from (suc i) ts

divides_from_lem :
    (i : ℕ) (ts : List ℕ) (x : ℕ)
    → divides_from i ts ≡ true
    → x < length ts
    → get_or ts x 0 ≡ divide 8 (i + x)
unfolding divides_from
divides_from_lem i [] x h lt = absurd (omega arith)
divides_from_lem i (t ∷ ts) zero h lt = grind (arith, ==_iff t (divide 8 i))
divides_from_lem i (t ∷ ts) (suc x) h lt =
    grind (arith, divides_from_lem (suc i) ts x, ap (divide 8) shift)
  where
    shift : suc i + x ≡ i + suc x
    shift = omega arith

table_checked : divides_from 0 crc32tab ≡ true
unfolding divides_from crc32tab divide
table_checked = refl

table_length : length crc32tab ≡ 256
unfolding crc32tab
table_length = refl

table_divides : (x : ℕ) → x < 256 → get_or crc32tab x 0 ≡ divide 8 x
table_divides x h =
    divides_from_lem 0 crc32tab x table_checked (omega (arith, table_length)) ∙ ap (divide 8) first
  where
    first : 0 + x ≡ x
    first = omega arith

-- The bits of a number from the ninth on and the lowest eight.
xor_fields : (k q r : ℕ) → r < 2 ^ k → bit_xor (q * 2 ^ k) r ≡ q * 2 ^ k + r
xor_fields zero q r h = omega (arith, bit_xor-zero (q * 1), ap (bit_xor (q * 1)) r_zero)
  where
    r_zero : r ≡ 0
    r_zero = omega arith
xor_fields (suc k) q r h = ground (
  arith,
  pow-suc 2 k,
  bit_xor_step (q * 2 ^ suc k) r,
  ap (λ (t : ℕ). q * t) (pow-suc 2 k),
  ap (λ (t : ℕ). bit_xor t (r / 2)) even,
  xor_fields k q (r / 2) (omega (arith, pow-suc 2 k)),
)
  where
    even : q * 2 ^ suc k / 2 ≡ q * 2 ^ k
    even = ground (arith, ap (λ (t : ℕ). q * t) (pow-suc 2 k))

two_parts : (c : ℕ) → bit_xor (c / 2 ^ 8 * 2 ^ 8) (c % 2 ^ 8) ≡ c
two_parts c = omega (arith, xor_fields 8 (c / 2 ^ 8) (c % 2 ^ 8) (omega arith))

-- One step of the table's loop is eight steps of the division.
pub crc32_byte_lem : (c x : ℕ) → x < 256 → crc32_byte c x ≡ divide 8 (bit_xor c x)
unfolding crc32_byte
crc32_byte_lem c x h =
    ap₂ bit_xor (sym (divide_shifted 8 high))
      (table_divides (bit_xor x low) (bit_xor-lt_byte x low h (omega arith)))
    ∙ sym (divide-bit_xor 8 (high * 2 ^ 8) (bit_xor x low))
    ∙ ap (divide 8) (
        ap (bit_xor (high * 2 ^ 8)) (bit_xor_comm x low)
        ∙ sym (bit_xor_assoc (high * 2 ^ 8) low x)
        ∙ ap (λ t. bit_xor t x) (two_parts c))
  where
    high : ℕ
    high = c / 2 ^ 8

    low : ℕ
    low = c % 2 ^ 8
