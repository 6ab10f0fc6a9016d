-- ===== src/Serialize/MsgPack/RoundTrip.antt =====
-- `packetbuf` and `getmsg2buf` together.
use dolphin_core.Base.{
  ℕ, ◌+◌, ◌-◌, ◌^◌, ◌≤◌, ◌<◌, ◌≡◌, ap, ap₂, ◌∙◌, sym, arith, Bool, true, false, ◌&&◌,
}
use dolphin_core.Base.{List, ◌++◌, some, length, take, drop, ltb}
use dolphin_core.Base.{take-append_eq, length-append, append_assoc, ℤ, pos}
use dolphin_core.Base.{length-take, length-drop}
use dolphin_core.Serialize.Packet.{
  u32_bytes, size_field, get_packet_size, round_packet, init_flag, min_zlib_pack_size,
}
use dolphin_core.Serialize.MsgPack.{
  Cipher, Zlib, fill, seal, packetbuf, zlib_level, is_zlib_level, getmsg2buf, take_packet, moved_on,
}
use dolphin_core.Serialize.MsgPack.Frame.{IsCipher, apply, frame, size_field-frame}
use dolphin_core.Serialize.MsgPack.Decode.{
  IsPadded, getmsg2buf-encrypted, check_packet-plain, moved_on-plain,
}
use dolphin_core.Serialize.MsgPack.Encode.{
  cleared, fill-raw, fill-zipped, fill-zipped_ok, packetbuf-seal, zipped_frame, seal_lem,
}
use dolphin_core.Serialize.MsgPack.Body.{
  IsZlib, frame-take, frame-raw, frame-zipped, take_packet-raw, take_packet-zipped,
}

-- The message `pin` is read off the front of the `n` packed bytes of `out` and `ys` behind them.
pub record ReadsBack (zip : Zlib) (enc : Cipher) (pin out ys : List ℕ) (n nmax : ℕ) : Type 0 where
  pub plain : List ℕ
  pub plain_size : length plain ≡ n
  pub packed_size : length (take n out) ≡ n
  pub got : getmsg2buf zip enc (take n out ++ ys) 0 (pos nmax) ≡ record {
    code = pos (length pin);
    buf = plain ++ ys;
    moved = n;
    nbuflen = length ys;
    de_size = 0;
    msg = pin;
  }

-- A packet that `seal` finishes is read back if taking the message out of the plain packet is.
seal-ReadsBack :
    (zip : Zlib) (enc : Cipher) (pin ys d : List ℕ) (nmaxlen nmax : ℕ)
    → IsCipher enc
    → nmaxlen ≤ length d
    → 6 ≤ get_packet_size d
    → get_packet_size d + 7 < 2 ^ 32
    → round_packet (get_packet_size d) ≤ nmaxlen
    → nmaxlen + length ys < 2 ^ 32
    → 2 ≤ nmax
    → (b : List ℕ) → take (round_packet (get_packet_size d)) d ++ ys ≡ b
    → size_field b ≤ nmax
    → ((de_size : ℕ) → take_packet zip b de_size nmax ≡ moved_on b de_size (pos (length pin)) pin)
    → ((seal enc nmaxlen d).0 ≡ pos (round_packet (get_packet_size d)))
      × ReadsBack zip enc pin (seal enc nmaxlen d).1 ys (round_packet (get_packet_size d)) nmax
seal-ReadsBack zip enc pin ys d nmaxlen nmax c room six nowrap fits small two b eb le taken = (
  ap (λ r. r.0) sealed.1,
  record { plain = p; plain_size = p_size; packed_size = out_size; got = read },
)
  where
    n : ℕ
    n = round_packet (get_packet_size d)

    p : List ℕ
    p = take n d

    sealed : IsPadded p × (seal enc nmaxlen d ≡ (pos n, apply enc true p ++ drop n d))
    sealed = seal_lem enc nmaxlen d c room six nowrap fits

    p_size : length p ≡ n
    p_size = omega (arith, length-take n d)

    front : take n (seal enc nmaxlen d).1 ≡ apply enc true p
    front =
        ap (λ r. take n r.1) sealed.1
        ∙ take-append_eq n (apply enc true p) (drop n d) (c.length-apply true p ∙ p_size)

    out_size : length (take n (seal enc nmaxlen d).1) ≡ n
    out_size = ap length front ∙ c.length-apply true p ∙ p_size

    packed : take n (seal enc nmaxlen d).1 ++ ys ≡ apply enc true p ++ ys
    packed = ap (λ u. u ++ ys) front

    read : getmsg2buf zip enc (take n (seal enc nmaxlen d).1 ++ ys) 0 (pos nmax) ≡ record {
      code = pos (length pin);
      buf = p ++ ys;
      moved = n;
      nbuflen = length ys;
      de_size = 0;
      msg = pin;
    }
    read =
        ap (λ u. getmsg2buf zip enc u 0 (pos nmax)) packed
        ∙ getmsg2buf-encrypted zip enc p ys nmax c sealed.0 two
        ∙ check_packet-plain zip p ys nmax sealed.0 (omega (arith, ap size_field eb))
        ∙ ap (λ u. take_packet zip u (length p) nmax) eb
        ∙ taken (length p)
        ∙ ap (λ u. moved_on u (length p) (pos (length pin)) pin) (sym eb)
        ∙ moved_on-plain p ys pin (length pin) sealed.0 (omega (arith, length-append p ys, p_size))
        ∙ ap
            (λ m. record {
              code = pos (length pin);
              buf = p ++ ys;
              moved = m;
              nbuflen = length ys;
              de_size = 0;
              msg = pin;
            })
            p_size

-- A message that is not to be compressed (zlib is off, or it has at most 54 bytes), packed with a
-- block cipher or none into an array that holds it and 13 bytes more, is packed into its length
-- and 6 rounded up to a multiple of 8, and read back as it was by a caller whose buffer holds it,
-- whatever bytes stand behind it: those are neither touched nor counted.
pub raw_round_trip :
    (zip : Zlib) (enc : Cipher) (pin pout ys : List ℕ) (level : ℤ) (split : Bool) (nmax : ℕ)
    → IsCipher enc
    → (is_zlib_level level && ltb min_zlib_pack_size (length pin)) ≡ false
    → 1 ≤ length pin
    → length pin + 13 ≤ length pout
    → length pout + length ys < 2 ^ 32
    → length pin ≤ nmax
    → 2 ≤ nmax
    → ((packetbuf zip enc (some pin) (some pout) level split).0
        ≡ pos (round_packet (length pin + 6)))
      × ReadsBack zip enc pin
          (packetbuf zip enc (some pin) (some pout) level split).1
          ys
          (round_packet (length pin + 6))
          nmax
raw_round_trip zip enc pin pout ys level split nmax c ez some_in room small fits two =
    rw (packed, sym size)
      (seal-ReadsBack zip enc pin ys d (length pout) nmax c d_size (omega (arith, size))
        (omega (arith, size)) rounded small two b eb
        (omega (arith, size_field-frame (length pin) flag (pin ++ (pad ++ ys))))
        (λ de_size. take_packet-raw zip pin (pad ++ ys) split de_size nmax (omega arith)))
  where
    flag : ℕ
    flag = init_flag false split

    rest : List ℕ
    rest = drop (length pin) (cleared pout)

    d : List ℕ
    d = frame (length pin) flag (pin ++ rest)

    packed : packetbuf zip enc (some pin) (some pout) level split ≡ seal enc (length pout) d
    packed =
        packetbuf-seal zip enc pin pout level split false d ez
          (fill-raw zip level pin (length pout) split (cleared pout)) some_in (omega arith)

    size : get_packet_size d ≡ length pin + 6
    size = (frame-raw (length pin) split (pin ++ rest) (omega arith)).0 ∙ omega arith

    rounded : round_packet (get_packet_size d) ≤ length pout
    rounded = unfold round_packet in omega (arith, size)

    six : 6 + length pin ≤ round_packet (get_packet_size d)
    six = unfold round_packet in omega (arith, size)

    d_size : length pout ≤ length d
    d_size = omega (
      arith,
      length-append pin rest,
      length-drop (length pin) (cleared pout),
      length-drop 10 pout,
    )

    pad : List ℕ
    pad = take (round_packet (get_packet_size d) - 6 - length pin) rest

    b : List ℕ
    b = frame (length pin) flag (pin ++ (pad ++ ys))

    eb : take (round_packet (get_packet_size d)) d ++ ys ≡ b
    eb =
        ap (λ u. u ++ ys)
          (frame-take (length pin) flag (round_packet (get_packet_size d)) pin rest six)
        ∙ ap (frame (length pin) flag) (append_assoc pin pad ys)

-- A message of more than 54 bytes with zlib on, which compresses to `z`, is packed, with a block
-- cipher or none, into the length of `z` and 10 rounded up to a multiple of 8, if the array has 8
-- bytes more than the message and 17 more than `z`, and read back as it was by a caller whose
-- buffer holds the message and `z`, whatever bytes stand behind it: those are neither touched nor
-- counted.
pub zipped_round_trip :
    (zip : Zlib) (enc : Cipher) (pin pout ys : List ℕ) (level : ℤ) (split : Bool) (nmax : ℕ)
    (z : List ℕ)
    → IsCipher enc
    → IsZlib zip
    → (is_zlib_level level && ltb min_zlib_pack_size (length pin)) ≡ true
    → zip.compress (zlib_level level) pin (length pout) ≡ (true, z)
    → length pin + 8 ≤ length pout
    → length z + 17 ≤ length pout
    → length pout + length ys < 2 ^ 32
    → length pin ≤ nmax
    → length z ≤ nmax
    → ((packetbuf zip enc (some pin) (some pout) level split).0
        ≡ pos (round_packet (length z + 10)))
      × ReadsBack zip enc pin
          (packetbuf zip enc (some pin) (some pout) level split).1
          ys
          (round_packet (length z + 10))
          nmax
zipped_round_trip zip enc pin pout ys level split nmax z c law ez zips room_in room small fits
      fits_z =
    rw (packed, sym size)
      (seal-ReadsBack zip enc pin ys d (length pout) nmax c d_size (omega (arith, size))
        (omega (arith, size)) rounded small (omega (arith, more)) b eb
        (omega
          (arith, size_field-frame (length z) flag (u32_bytes (length pin) ++ (z ++ (pad ++ ys)))))
        (λ de_size.
          take_packet-zipped zip pin z (pad ++ ys) split de_size nmax (omega arith) fits unzips))
  where
    flag : ℕ
    flag = init_flag true split

    more : 55 ≤ length pin
    more = ground arith

    rest : List ℕ
    rest = drop (length z) (drop 10 pout)

    d : List ℕ
    d = zipped_frame z pin split rest

    unzips : zip.uncompress z nmax ≡ (true, pin)
    unzips =
        rw (ap (λ r. r.1) (sym zips))
          (law.inverse (zlib_level level) pin (length pout) nmax (ap (λ r. r.0) zips) fits)

    filled : fill zip level pin (length pout) (frame 0 flag (cleared pout)) ≡ (true, d)
    filled =
        ap₂ (λ a l. (a, l))
          (fill-zipped_ok zip level pin (length pout) split (cleared pout) (ap (λ r. r.0) zips)
            (omega (arith, ap (λ r. length r.1) zips)))
          (fill-zipped zip level pin (length pout) split (drop 10 pout)
            ∙ ap (λ r. zipped_frame r.1 pin split (drop (length r.1) (drop 10 pout))) zips)

    packed : packetbuf zip enc (some pin) (some pout) level split ≡ seal enc (length pout) d
    packed =
        packetbuf-seal zip enc pin pout level split true d ez filled (omega (arith, more)) room_in

    size : get_packet_size d ≡ length z + 10
    size =
        (frame-zipped (length z) split (u32_bytes (length pin) ++ (z ++ rest)) (omega arith)).0
        ∙ omega arith

    rounded : round_packet (get_packet_size d) ≤ length pout
    rounded = unfold round_packet in omega (arith, size)

    ten : 10 + length z ≤ round_packet (get_packet_size d)
    ten = unfold round_packet in omega (arith, size)

    d_size : length pout ≤ length d
    d_size =
        omega
          (arith, length-append z rest, length-drop (length z) (drop 10 pout), length-drop 10 pout)

    pad : List ℕ
    pad = take (round_packet (get_packet_size d) - 6 - length (u32_bytes (length pin) ++ z)) rest

    b : List ℕ
    b = zipped_frame z pin split (pad ++ ys)

    eb : take (round_packet (get_packet_size d)) d ++ ys ≡ b
    eb =
        ap (λ u. u ++ ys)
          (frame-take (length z) flag (round_packet (get_packet_size d))
            (u32_bytes (length pin) ++ z) rest (omega (arith, ten)))
        ∙ ap (λ u. frame (length z) flag (u32_bytes (length pin) ++ u)) (append_assoc z pad ys)
