-- ===== src/Encrypt/Crc32/Digest.antt =====
-- The whole digest against the bitwise division, and what `crc32Finish` makes of the 64-bit
-- register.
use Prim.Native.Nat.{bit_xor}
use dolphin_core.Base.{
  ℕ, ◌+◌, ◌-◌, ◌*◌, ◌^◌, ◌<◌, ◌≡◌, refl, ap, ◌∙◌, arith, List, [], ◌∷◌, ◌++◌, IsBytes, zero, suc,
  ◌/◌,
}
use dolphin_core.Base.Bits.{bit_xor-lt_pow}
use dolphin_core.Encrypt.Crc32.{crc32_init, crc32_update, crc32_finish, crc32_byte}
use dolphin_core.Encrypt.Crc32.Division.{polynomial, divide_bit, divide, remainder, crc32_byte_lem}

crc32_update_lem : (c : ℕ) (xs : List ℕ) → IsBytes xs → crc32_update c xs ≡ remainder c xs
unfolding crc32_update remainder
crc32_update_lem c [] h = refl
crc32_update_lem c (x ∷ xs) (hx, h) =
    ap (λ t. crc32_update t xs) (crc32_byte_lem c x hx)
    ∙ crc32_update_lem (divide 8 (bit_xor c x)) xs h

divide_bit-bounded : (r : ℕ) → r < 2 ^ 32 → divide_bit r < 2 ^ 32
unfolding divide_bit
divide_bit-bounded r h = ground (arith, bit_xor-lt_pow 32 (r / 2) polynomial)

divide-bounded : (n r : ℕ) → r < 2 ^ 32 → divide n r < 2 ^ 32
unfolding divide
divide-bounded zero r h = h
divide-bounded (suc n) r h = divide-bounded n (divide_bit r) (divide_bit-bounded r h)

remainder-bounded : (r : ℕ) (xs : List ℕ) → IsBytes xs → r < 2 ^ 32 → remainder r xs < 2 ^ 32
unfolding remainder
remainder-bounded r [] h lt = lt
remainder-bounded r (x ∷ xs) (hx, h) lt =
    remainder-bounded (divide 8 (bit_xor r x)) xs h
      (divide-bounded 8 (bit_xor r x) (bit_xor-lt_pow 32 r x lt (omega arith)))

-- For any bytes, the digest is the 64-bit complement of a register that holds the remainder of
-- the bitwise division from the start value 0xFFFFFFFF: its low 32 bits are the complement of that
-- remainder, which is the CRC-32 of the bytes, and its high 32 bits are all ones.
pub digest_divides :
    (xs : List ℕ)
    → IsBytes xs
    → (remainder 0xffffffff xs < 2 ^ 32)
      × (crc32_finish (crc32_update crc32_init xs)
          ≡ 0xffffffff * 2 ^ 32 + (0xffffffff - remainder 0xffffffff xs))
unfolding crc32_finish crc32_init
digest_divides xs h = (bounded, omega (arith, bounded, crc32_update_lem 0xffffffff xs h))
  where
    bounded : remainder 0xffffffff xs < 2 ^ 32
    bounded = remainder-bounded 0xffffffff xs h (omega arith)

-- The CRC of a message that arrives in parts is that of the whole: for any register and any two
-- parts, updating with one and then with the other is updating with both.
pub update-append :
    (c : ℕ) (xs ys : List ℕ) → crc32_update c (xs ++ ys) ≡ crc32_update (crc32_update c xs) ys
unfolding crc32_update
update-append c [] ys = refl
update-append c (x ∷ xs) ys = update-append (crc32_byte c x) xs ys
