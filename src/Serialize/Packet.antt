-- ===== src/Serialize/Packet.antt =====
-- publish/include/serialize/packet.h: `stPacketBase`, the header in front of a message. A packet
-- is read and written through a pointer into a byte array, so that its fields are bytes of it.
use dolphin_core.Base.{ℕ, ◌+◌, ◌*◌, ◌/◌, ◌%◌, ◌^◌, Bool}
use dolphin_core.Base.{List, [], ◌∷◌, leb, ◌==◌, if◌then◌else◌, get_or, drop}
use dolphin_core.Mem.LoopBuf.{copy_to}

-- _PACK_HDR_SIZE_, sizeof(_cmdlen), MIN_PACKET_SIZE and MINZLIBPACKSIZE
abbrev pub pack_hdr_size : ℕ
pack_hdr_size = 6

abbrev pub cmdlen_size : ℕ
cmdlen_size = 4

abbrev pub min_packet_size : ℕ
min_packet_size = 8

abbrev pub min_zlib_pack_size : ℕ
min_zlib_pack_size = 54

-- A `uint32_t` in memory.
abbrev pub u32_bytes : ℕ → List ℕ
u32_bytes n = n % 2 ^ 8 ∷ n / 2 ^ 8 % 2 ^ 8 ∷ n / 2 ^ 16 % 2 ^ 8 ∷ n / 2 ^ 24 % 2 ^ 8 ∷ []

-- The fields `size` and `flag`.
unfoldable pub size_field : List ℕ → ℕ
size_field d = get_or d 0 0 + 2 ^ 8 * get_or d 1 0 + 2 ^ 16 * get_or d 2 0 + 2 ^ 24 * get_or d 3 0

unfoldable pub is_compress : List ℕ → Bool
is_compress d = get_or d 5 0 / 2 ^ 7 % 2 == 1

-- getpacketsize; the sum is a `size_t`, the result an `unsigned int`.
unfoldable pub get_packet_size : List ℕ → ℕ
unfolding size_field is_compress
get_packet_size d =
    if is_compress d
    then (size_field d + pack_hdr_size + cmdlen_size) % 2 ^ 32
    else (size_field d + pack_hdr_size) % 2 ^ 32

unfoldable pub is_full_packet : List ℕ → ℕ → Bool
is_full_packet d nlen = leb (get_packet_size d) nlen

-- cmd: where the message starts.
unfoldable pub cmd : List ℕ → ℕ
cmd d = if is_compress d then pack_hdr_size + cmdlen_size else pack_hdr_size

-- getcmdsize: the size of the message when it is not compressed.
unfoldable pub get_cmd_size : List ℕ → ℕ
unfolding size_field is_compress
get_cmd_size d = if is_compress d then size_field (drop pack_hdr_size d) else size_field d

-- init: all of the structure is cleared, `_cmdlen` too, and the flag set.
abbrev pub init_flag : Bool → Bool → ℕ
init_flag is_zlib is_split = (if is_zlib then 2 ^ 7 else 0) + (if is_split then 2 ^ 6 else 0)

unfoldable pub init : Bool → Bool → List ℕ → List ℕ
unfolding copy_to
init is_zlib is_split d =
    copy_to 0 (0 ∷ 0 ∷ 0 ∷ 0 ∷ 0 ∷ init_flag is_zlib is_split ∷ 0 ∷ 0 ∷ 0 ∷ 0 ∷ []) d

-- The assignment to `size`, and setcmdsize.
unfoldable pub set_size : ℕ → List ℕ → List ℕ
unfolding copy_to
set_size n d = copy_to 0 (u32_bytes n) d

unfoldable pub set_cmd_size : ℕ → List ℕ → List ℕ
unfolding set_size copy_to
set_cmd_size n d = if is_compress d then copy_to pack_hdr_size (u32_bytes n) d else set_size n d

-- ROUNDNUM2 of an `unsigned int` to a multiple of 8.
unfoldable pub round_packet : ℕ → ℕ
round_packet n = (n + 7) % 2 ^ 32 / 8 * 8
