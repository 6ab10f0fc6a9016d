-- ===== src/Serialize/MsgPack/Received.antt =====
-- src/serialize/msgpack.cpp: what `packetbuf` packs, `packet_getcmd` takes off the front of a LoopBuf.
use dolphin_core.Base.{
  ℕ, ◌+◌, ◌^◌, ◌≤◌, ◌<◌, ◌≡◌, ap, ◌∙◌, arith, Bool, true, false, ◌&&◌, List, ◌++◌, some, length,
  take, ltb, ℤ, pos, pos_part,
}
use dolphin_core.Mem.LoopBuf.{LoopBuf}
use dolphin_core.Mem.LoopBuf.Bounds.{IsValid}
use dolphin_core.Mem.LoopBuf.Stream.{stream}
use dolphin_core.Serialize.Packet.{round_packet, min_zlib_pack_size}
use dolphin_core.Serialize.MsgPack.{Cipher, Zlib, packetbuf, zlib_level, is_zlib_level}
use dolphin_core.Serialize.MsgPack.Frame.{IsCipher}
use dolphin_core.Serialize.MsgPack.Body.{IsZlib}
use dolphin_core.Serialize.MsgPack.RoundTrip.{raw_round_trip, zipped_round_trip}
use dolphin_core.Serialize.MsgPack.GetCmd.{packet_getcmd, packet_getcmd_lem}

-- The array has room for the message as it is packed, and the reader for what it unpacks.
pub data IsPackable (zip : Zlib) (pin pout : List ℕ) (level : ℤ) (nmax : ℕ) : Type 0 where
  raw :
      (is_zlib_level level && ltb min_zlib_pack_size (length pin)) ≡ false
      → length pin + 13 ≤ length pout
      → IsPackable zip pin pout level nmax
  zipped :
      (z : List ℕ)
      → (is_zlib_level level && ltb min_zlib_pack_size (length pin)) ≡ true
      → zip.compress (zlib_level level) pin (length pout) ≡ (true, z)
      → length pin + 8 ≤ length pout
      → length z + 17 ≤ length pout
      → length z ≤ nmax
      → IsPackable zip pin pout level nmax

-- The bytes that packetbuf gives, of which its result is the number, with `ys` behind them.
abbrev pub packed_before : Zlib → Cipher → List ℕ → List ℕ → List ℕ → ℤ → Bool → List ℕ
packed_before zip enc pin pout ys level split =
    let (code, out) = packetbuf zip enc (some pin) (some pout) level split in
    take (pos_part code) out ++ ys

module _ (zip : Zlib) (enc : Cipher) (pin pout ys : List ℕ) (level : ℤ) (split : Bool) where
  sized :
      {n : ℕ}
      → (packetbuf zip enc (some pin) (some pout) level split).0 ≡ pos n
      → packed_before zip enc pin pout ys level split
        ≡ take n (packetbuf zip enc (some pin) (some pout) level split).1 ++ ys
  sized q =
      ap
        (λ code.
          take (pos_part code) (packetbuf zip enc (some pin) (some pout) level split).1 ++ ys)
        q

  -- If the unread bytes of a valid LoopBuf are what packetbuf made of a message, compressed or not,
  -- with a block cipher or none, and any others behind that, packet_getcmd gives this message, and
  -- the LoopBuf is valid afterwards and its unread bytes are the others. The message is not empty;
  -- the array of packetbuf has 13 bytes more than the message as it is, or 8 more than the message
  -- and 17 more than its compressed bytes; the reader has room for the message and for these.
  pub packet_getcmd-packetbuf :
      (b : LoopBuf) (nmax : ℕ)
      → IsValid b
      → IsCipher enc
      → IsZlib zip
      → IsPackable zip pin pout level nmax
      → 1 ≤ length pin
      → length pout + length ys < 2 ^ 32
      → length pin ≤ nmax
      → 2 ≤ nmax
      → stream b ≡ packed_before zip enc pin pout ys level split
      → let r = packet_getcmd zip enc b 0 (pos nmax) in
        (r.code ≡ pos (length pin))
        × (r.msg ≡ pin)
        × (r.de_size ≡ 0)
        × IsValid r.loop_buf
        × (stream r.loop_buf ≡ ys)
  packet_getcmd-packetbuf b nmax v c law (raw ez room) some_in small fits two e =
      let (code, back) =
        raw_round_trip zip enc pin pout ys level split nmax c ez some_in room small fits two in
      packet_getcmd_lem zip enc b pin (packetbuf zip enc (some pin) (some pout) level split).1 ys
        (round_packet (length pin + 6)) nmax v back (e ∙ sized code) some_in
        (unfold round_packet in omega arith)
  packet_getcmd-packetbuf b nmax v c law (zipped z ez zips room_in room fits_z) some_in small fits
        two e =
      let (code, back) =
        zipped_round_trip zip enc pin pout ys level split nmax z c law ez zips room_in room small
          fits fits_z in
      packet_getcmd_lem zip enc b pin (packetbuf zip enc (some pin) (some pout) level split).1 ys
        (round_packet (length z + 10)) nmax v back (e ∙ sized code) some_in
        (unfold round_packet in omega arith)
