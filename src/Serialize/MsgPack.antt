-- ===== src/Serialize/MsgPack.antt =====
-- src/serialize/msgpack.cpp: a message is packed into a byte array (`packetbuf`) and read off the
-- beginning of one (`getmsg2buf`). What `CEncrypt` and zlib do to bytes are parameters.
pub mod Frame
pub mod Decode
pub mod Encode
pub mod Body
pub mod RoundTrip
pub mod GetCmd
pub mod Received
pub mod Header
pub mod Whole
pub mod Tests
use dolphin_core.Base.{ℕ, ◌+◌, ◌-◌, ◌*◌, ◌/◌, ◌%◌, ◌^◌, min, Bool, true, false, ◌&&◌, ◌||◌, not}
use dolphin_core.Base.{List, [], ◌∷◌, Option, none, some, ltb, leb, ◌==◌, if◌then◌else◌}
use dolphin_core.Base.{ℤ, pos, negsuc, pos_part, length, take, drop}
use dolphin_core.Mem.LoopBuf.{copy_to}
use dolphin_core.Serialize.Packet.{
  cmdlen_size, min_packet_size, min_zlib_pack_size, size_field, is_compress,
}
use dolphin_core.Serialize.Packet.{
  get_packet_size, is_full_packet, cmd, init, set_size, set_cmd_size, round_packet,
}

-- `encdec` on a region (true encrypts); `none` if `enc` is NULL or its method is ENCDEC_NONE.
abbrev pub Cipher : Type 0
Cipher = Option (Bool → List ℕ → List ℕ)

-- compresszlib and uncompresszlib: whether they return Z_OK, and the bytes that they write, of
-- which there may be as many as the last argument says.
pub record Zlib : Type 0 where
  pub compress : ℤ → List ℕ → ℕ → Bool × List ℕ
  pub uncompress : List ℕ → ℕ → Bool × List ℕ

unfoldable pub encdec_at : Cipher → Bool → ℕ → ℕ → List ℕ → List ℕ
unfolding copy_to
encdec_at none enc at n d = d
encdec_at (some f) enc at n d = copy_to at (f enc (take n (drop at d))) d

-- Z_BEST_SPEED is 1, Z_DEFAULT_COMPRESSION -1 and Z_BEST_COMPRESSION 9.
abbrev pub is_zlib_level : ℤ → Bool
is_zlib_level (pos n) = leb 1 n
is_zlib_level (negsuc n) = n == 0

abbrev pub zlib_level : ℤ → ℤ
zlib_level (pos n) = pos (min n 9)
zlib_level (negsuc n) = negsuc n

-- The packet behind the header that `init` wrote, and whether compressing succeeded.
unfoldable pub fill : Zlib → ℤ → List ℕ → ℕ → List ℕ → Bool × List ℕ
unfolding copy_to
fill zip level pin nmaxlen d =
    let out = zip.compress (zlib_level level) pin nmaxlen in
    let packed = copy_to (cmd d) out.1 d in
    if is_compress d
    then (
      out.0 && leb (length out.1) nmaxlen,
      set_cmd_size (length pin) (set_size (length out.1) packed),
    )
    else (true, set_size (length pin) (copy_to (cmd d) pin d))

-- The end of `packetbuf`.
unfoldable pub seal : Cipher → ℕ → List ℕ → ℤ × List ℕ
unfolding encdec_at
seal enc nmaxlen d =
    let nretsize = round_packet (get_packet_size d) in
    if ltb nmaxlen nretsize then (negsuc 3, d) else (pos nretsize, encdec_at enc true 0 nretsize d)

-- `pout` is the array of `nmaxlen` bytes; `pin` and `pout` are `none` for NULL. The result comes
-- with the array afterwards; where zlib fails the sizes of the packet are not written.
unfoldable pub packetbuf : Zlib → Cipher → Option (List ℕ) → Option (List ℕ) → ℤ → Bool → ℤ × List ℕ
unfolding fill seal
packetbuf zip enc none none level split = (pos 0, [])
packetbuf zip enc none (some pout) level split = (pos 0, pout)
packetbuf zip enc (some pin) none level split = (pos 0, [])
packetbuf zip enc (some pin) (some pout) level split =
    let nmaxlen = length pout in
    let d = init (is_zlib_level level && ltb min_zlib_pack_size (length pin)) split pout in
    let filled = fill zip level pin nmaxlen d in
    if length pin == 0
    then (pos 0, pout)
    else if ltb nmaxlen (length pin)
    then (negsuc 0, pout)
    else if ltb nmaxlen (length pin + min_packet_size)
    then (negsuc 1, pout)
    else if not filled.0
    then (negsuc 2, copy_to (cmd d) (zip.compress (zlib_level level) pin nmaxlen).1 d)
    else seal enc nmaxlen filled.1

-- What `getmsg2buf` returns and leaves: the bytes at the old `pbuf`, decrypted as far as
-- `de_size` said on the way, how far `pbuf` moved, `nbuflen`, `_de_size`, and what it copied to `pmsg`.
pub record Got : Type 0 where
  pub code : ℤ
  pub buf : List ℕ
  pub moved : ℕ
  pub nbuflen : ℕ
  pub de_size : ℕ
  pub msg : List ℕ

abbrev pub stopped : ℤ → List ℕ → ℕ → Got
stopped code buf de_size = record {
  code = code;
  buf = buf;
  moved = 0;
  nbuflen = length buf;
  de_size = de_size;
  msg = [];
}

abbrev pub moved_on : List ℕ → ℕ → ℤ → List ℕ → Got
moved_on buf de_size code msg =
    let nlen = round_packet (get_packet_size buf) in
    record {
      code = code;
      buf = buf;
      moved = nlen;
      nbuflen = (length buf + 2 ^ 32 - nlen) % 2 ^ 32;
      de_size = (de_size + 2 ^ 32 - nlen) % 2 ^ 32;
      msg = msg;
    }

-- The end of `getmsg2buf`, when the whole packet is decrypted.
unfoldable pub take_packet : Zlib → List ℕ → ℕ → ℕ → Got
take_packet zip buf de_size nmsgmaxlen =
    let body = take (size_field buf) (drop (cmd buf) buf) in
    let out = zip.uncompress body nmsgmaxlen in
    if is_compress buf
    then (if not out.0 || ltb nmsgmaxlen (length out.1)
        then moved_on buf de_size (negsuc 2) out.1
        else moved_on buf de_size (pos (length out.1)) out.1)
    else moved_on buf de_size (pos (size_field buf)) body

-- What follows when the whole blocks that have arrived of the packet are decrypted.
unfoldable pub check_packet : Zlib → List ℕ → ℕ → ℕ → Got
unfolding take_packet
check_packet zip buf de_size nmsgmaxlen =
    if ltb nmsgmaxlen (size_field buf)
    then stopped (negsuc 1) buf de_size
    else if not (is_full_packet buf de_size)
    then stopped (pos 0) buf de_size
    else take_packet zip buf de_size nmsgmaxlen

-- The decryption of what has arrived of the packet behind its first `de_size` bytes; `size` bytes
-- have.
unfoldable pub decrypt_blocks : Zlib → Cipher → List ℕ → ℕ → ℕ → ℕ → Got
unfolding check_packet encdec_at
decrypt_blocks zip enc buf de_size size nmsgmaxlen =
    let wanted = min size ((round_packet (get_packet_size buf) + 2 ^ 32 - de_size) % 2 ^ 32) in
    let blocks = if ltb 8 wanted then wanted / 8 * 8 else wanted in
    if leb 8 wanted
    then check_packet zip (encdec_at enc false de_size blocks buf) (de_size + blocks) nmsgmaxlen
    else check_packet zip buf de_size nmsgmaxlen

unfoldable pub getmsg2buf : Zlib → Cipher → List ℕ → ℕ → ℤ → Got
unfolding decrypt_blocks take_packet encdec_at
getmsg2buf zip enc buf de_size nmsgmaxlen =
    let size = length buf - de_size in
    if length buf == 0
    then stopped (pos 0) buf de_size
    else if ltb (length buf) de_size || ltb (pos_part nmsgmaxlen) 2
    then stopped (negsuc 0) buf de_size
    else if ltb de_size 8 || not (is_full_packet buf de_size)
    then (if ltb size 8
        then stopped (pos 0) buf de_size
        else if de_size == 0
        then decrypt_blocks zip enc (encdec_at enc false 0 8 buf) 8 (size - 8) (pos_part nmsgmaxlen)
        else decrypt_blocks zip enc buf de_size size (pos_part nmsgmaxlen))
    else take_packet zip buf de_size (pos_part nmsgmaxlen)
