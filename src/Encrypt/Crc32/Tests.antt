-- ===== src/Encrypt/Crc32/Tests.antt =====
-- The published test value of CRC-32, and the theorem at it.
use dolphin_core.Base.{ℕ, ◌+◌, ◌-◌, ◌*◌, ◌^◌, ◌<◌, ◌≡◌, refl, arith, List, [], ◌∷◌, IsBytes}
use dolphin_core.Encrypt.Crc32.{crc32_init, crc32_update, crc32_finish, crc32_byte}
use dolphin_core.Encrypt.Crc32.Table.{crc32tab}
use dolphin_core.Encrypt.Crc32.Division.{remainder}
use dolphin_core.Encrypt.Crc32.Digest.{digest_divides}

-- "123456789"
abbrev digits : List ℕ
digits = 49 ∷ 50 ∷ 51 ∷ 52 ∷ 53 ∷ 54 ∷ 55 ∷ 56 ∷ 57 ∷ []

digits_crc : crc32_finish (crc32_update crc32_init digits) ≡ 0xffffffffcbf43926
unfolding crc32_finish crc32_update crc32_init crc32_byte crc32tab
digits_crc = refl

digits-IsBytes : IsBytes digits
digits-IsBytes = (
  omega arith,
  (
    omega arith,
    (
      omega arith,
      (omega arith, (omega arith, (omega arith, (omega arith, (omega arith, (omega arith, tt)))))),
    ),
  ),
)

digest_divides_example :
    (remainder 0xffffffff digits < 2 ^ 32)
    × (crc32_finish (crc32_update crc32_init digits)
        ≡ 0xffffffff * 2 ^ 32 + (0xffffffff - remainder 0xffffffff digits))
digest_divides_example = digest_divides digits digits-IsBytes
