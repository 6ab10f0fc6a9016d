-- ===== src/Encrypt/Crc32.antt =====
-- src/encrypt/crc/crc32.cpp: CRC-32 by a table. The register is a `uint64_t`.
pub mod Table
pub mod Division
pub mod Digest
mod Tests
use dolphin_core.Base.{ℕ, ◌+◌, ◌-◌, ◌*◌, ◌/◌, ◌%◌, ◌^◌, List, [], ◌∷◌, get_or}
use Prim.Native.Nat.{bit_xor}
use Table.{crc32tab}

-- crc32Init
unfoldable pub crc32_init : ℕ
crc32_init = 0xffffffff

-- The body of the loop; `pData` is an array of bytes, so that the index is below 256.
unfoldable pub crc32_byte : ℕ → ℕ → ℕ
crc32_byte crc x = bit_xor (crc / 2 ^ 8) (get_or crc32tab (bit_xor x (crc % 2 ^ 8)) 0)

-- crc32Update over an array of `uSize` bytes.
unfoldable pub crc32_update : ℕ → List ℕ → ℕ
unfolding crc32_byte
crc32_update crc [] = crc
crc32_update crc (x ∷ xs) = crc32_update (crc32_byte crc x) xs

-- crc32Finish: `~` on 64 bits.
unfoldable pub crc32_finish : ℕ → ℕ
crc32_finish crc = 2 ^ 64 - 1 - crc
