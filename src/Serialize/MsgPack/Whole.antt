-- ===== src/Serialize/MsgPack/Whole.antt =====
-- The packet that `packetbuf` writes without a cipher, as who takes it off a stream sees it.
use dolphin_core.Base.{
  ℕ, ◌+◌, ◌-◌, ◌^◌, ◌≤◌, ◌<◌, ◌≡◌, refl, ap, ap₂, ◌∙◌, sym, arith, Bool, true, false, ◌&&◌,
}
use dolphin_core.Base.{List, ◌++◌, none, some, length, take, drop, ltb, ℤ, pos}
use dolphin_core.Base.{
  take-append_eq, length-append, length-take, length-drop, if_true, if_false, take-append-drop,
}
use dolphin_core.Serialize.Packet.{
  u32_bytes, size_field, is_compress, get_packet_size, get_cmd_size, round_packet, init_flag,
  min_zlib_pack_size,
}
use dolphin_core.Serialize.MsgPack.{
  Zlib, fill, seal, packetbuf, zlib_level, is_zlib_level, take_packet, moved_on,
}
use dolphin_core.Serialize.MsgPack.Frame.{IsCipher, apply, frame, size_field-frame}
use dolphin_core.Serialize.MsgPack.Decode.{IsPadded}
use dolphin_core.Serialize.MsgPack.Encode.{
  cleared, fill-raw, fill-zipped, fill-zipped_ok, packetbuf-seal, zipped_frame, seal_lem,
  is_compress-frame,
}
use dolphin_core.Serialize.MsgPack.Body.{
  IsZlib, frame-take, frame-raw, frame-zipped, take_packet-raw, take_packet-zipped,
}
use dolphin_core.Serialize.MsgPack.Header.{too_large}

pub none-IsCipher : IsCipher none
unfolding apply
none-IsCipher = record {
  length-apply = λ b xs. refl;
  apply-append = λ b xs ys h. refl;
  inverse = λ xs h. refl;
}

-- A packet in plain that carries the message `pin`, of a size that every reader admits.
pub record Carries (zip : Zlib) (p pin : List ℕ) : Type 0 where
  pub padded : IsPadded p
  pub cmd_size : get_cmd_size p ≡ length pin
  pub least : 2 ≤ size_field p
  pub most : size_field p < too_large
  pub near : size_field p ≤ length pin + 64
  pub taken :
      (de_size nmax : ℕ)
      → length pin ≤ nmax
      → take_packet zip p de_size nmax ≡ moved_on p de_size (pos (length pin)) pin

-- What `packetbuf` returned and left in the array is such a packet and an array as long as before.
pub record IsPacked (zip : Zlib) (pin pout : List ℕ) (r : ℤ × List ℕ) : Type 0 where
  pub packet : List ℕ
  pub carries : Carries zip packet pin
  pub code : r.0 ≡ pos (length packet)
  pub front : take (length packet) r.1 ≡ packet
  pub room : length r.1 ≡ length pout

seal-IsPacked :
    (zip : Zlib) (pin pout d p : List ℕ)
    → length d ≡ length pout
    → 6 ≤ get_packet_size d
    → get_packet_size d + 7 < 2 ^ 32
    → round_packet (get_packet_size d) ≤ length pout
    → take (round_packet (get_packet_size d)) d ≡ p
    → (IsPadded p → Carries zip p pin)
    → IsPacked zip pin pout (seal none (length pout) d)
unfolding apply
seal-IsPacked zip pin pout d p room six nowrap fits e carries = record {
  packet = p;
  carries = carries (rw (← e) sealed.0);
  code = ap (λ r. r.0) sealed.1 ∙ ap pos (sym p_size);
  front =
      ap (λ r. take (length p) r.1) sealed.1
      ∙ ap (λ u. take (length p) (u ++ drop n d)) e
      ∙ take-append_eq (length p) p (drop n d) refl;
  room = ap (λ r. length r.1) sealed.1 ∙ ap length (take-append-drop n d) ∙ room;
}
  where
    n : ℕ
    n = round_packet (get_packet_size d)

    sealed : IsPadded (take n d) × (seal none (length pout) d ≡ (pos n, take n d ++ drop n d))
    sealed = seal_lem none (length pout) d none-IsCipher (omega (arith, room)) six nowrap fits

    p_size : length p ≡ n
    p_size = omega (arith, ap length e, length-take n d, room)

get_cmd_size-raw :
    (pin : List ℕ) (split : Bool) (rest : List ℕ)
    → length pin < 2 ^ 32
    → get_cmd_size (frame (length pin) (init_flag false split) rest) ≡ length pin
unfolding get_cmd_size
get_cmd_size-raw pin split rest h =
    if_false {b = is_compress (frame (length pin) (init_flag false split) rest)} _ _
      (is_compress-frame false split (length pin) rest)
    ∙ size_field-frame (length pin) (init_flag false split) rest h

get_cmd_size-zipped :
    (z pin : List ℕ) (split : Bool) (rest : List ℕ)
    → length pin < 2 ^ 32
    → get_cmd_size (zipped_frame z pin split rest) ≡ length pin
unfolding get_cmd_size size_field
get_cmd_size-zipped z pin split rest h =
    if_true {b = is_compress (zipped_frame z pin split rest)} _ _
      (is_compress-frame true split (length z) (u32_bytes (length pin) ++ (z ++ rest)))
    ∙ omega arith

-- The message is not compressed.
pub packetbuf-raw_IsPacked :
    (zip : Zlib) (pin pout : List ℕ) (level : ℤ) (split : Bool)
    → (is_zlib_level level && ltb min_zlib_pack_size (length pin)) ≡ false
    → 2 ≤ length pin
    → length pin + 13 ≤ length pout
    → length pout < too_large
    → IsPacked zip pin pout (packetbuf zip none (some pin) (some pout) level split)
packetbuf-raw_IsPacked zip pin pout level split ez two room small = rw packed (
    seal-IsPacked zip pin pout d p d_size (omega (arith, size)) (omega (arith, size)) rounded
      (frame-take (length pin) flag n pin rest six)
      (λ k. record {
        padded = k;
        cmd_size = get_cmd_size-raw pin split _ (omega arith);
        least = omega (arith, size_p);
        most = omega (arith, size_p);
        near = omega (arith, size_p);
        taken = λ de_size nmax h.
            take_packet-raw zip pin (take (n - 6 - length pin) rest) split de_size nmax
              (omega arith);
      }))
  where
    flag : ℕ
    flag = init_flag false split

    rest : List ℕ
    rest = drop (length pin) (cleared pout)

    d : List ℕ
    d = frame (length pin) flag (pin ++ rest)

    n : ℕ
    n = round_packet (get_packet_size d)

    p : List ℕ
    p = frame (length pin) flag (pin ++ take (n - 6 - length pin) rest)

    size_p : size_field p ≡ length pin
    size_p = size_field-frame (length pin) flag _ (omega arith)

    packed : packetbuf zip none (some pin) (some pout) level split ≡ seal none (length pout) d
    packed =
        packetbuf-seal zip none pin pout level split false d ez
          (fill-raw zip level pin (length pout) split (cleared pout)) (omega arith) (omega arith)

    size : get_packet_size d ≡ length pin + 6
    size = (frame-raw (length pin) split (pin ++ rest) (omega arith)).0 ∙ omega arith

    rounded : n ≤ length pout
    rounded = unfold round_packet in omega (arith, size)

    six : 6 + length pin ≤ n
    six = unfold round_packet in omega (arith, size)

    d_size : length d ≡ length pout
    d_size = omega (
      arith,
      length-append pin rest,
      length-drop (length pin) (cleared pout),
      length-drop 10 pout,
    )

-- The message is compressed to `z`.
pub packetbuf-zipped_IsPacked :
    (zip : Zlib) (pin pout z : List ℕ) (level : ℤ) (split : Bool)
    → IsZlib zip
    → (is_zlib_level level && ltb min_zlib_pack_size (length pin)) ≡ true
    → zip.compress (zlib_level level) pin (length pout) ≡ (true, z)
    → 2 ≤ length z
    → length z ≤ length pin + 64
    → length pin + 8 ≤ length pout
    → length z + 17 ≤ length pout
    → length pout < too_large
    → IsPacked zip pin pout (packetbuf zip none (some pin) (some pout) level split)
packetbuf-zipped_IsPacked zip pin pout z level split law ez zips two near room_in room small =
    rw packed (
      seal-IsPacked zip pin pout d p d_size (omega (arith, size)) (omega (arith, size)) rounded
        (frame-take (length z) flag n (u32_bytes (length pin) ++ z) rest (omega (arith, ten)))
        (λ k. record {
          padded = k;
          cmd_size = get_cmd_size-zipped z pin split pad (omega (arith, some_in));
          least = omega (arith, size_p);
          most = omega (arith, size_p);
          near = omega (arith, size_p);
          taken = λ de_size nmax h.
              take_packet-zipped zip pin z pad split de_size nmax (omega arith) h (unzips nmax h);
        }))
  where
    flag : ℕ
    flag = init_flag true split

    rest : List ℕ
    rest = drop (length z) (drop 10 pout)

    d : List ℕ
    d = zipped_frame z pin split rest

    n : ℕ
    n = round_packet (get_packet_size d)

    pad : List ℕ
    pad = take (n - 6 - length (u32_bytes (length pin) ++ z)) rest

    p : List ℕ
    p = zipped_frame z pin split pad

    size_p : size_field p ≡ length z
    size_p = size_field-frame (length z) flag _ (omega arith)

    unzips : (nmax : ℕ) → length pin ≤ nmax → zip.uncompress z nmax ≡ (true, pin)
    unzips nmax h =
        rw (ap (λ r. r.1) (sym zips))
          (law.inverse (zlib_level level) pin (length pout) nmax (ap (λ r. r.0) zips) h)

    filled : fill zip level pin (length pout) (frame 0 flag (cleared pout)) ≡ (true, d)
    filled =
        ap₂ (λ a l. (a, l))
          (fill-zipped_ok zip level pin (length pout) split (cleared pout) (ap (λ r. r.0) zips)
            (omega (arith, ap (λ r. length r.1) zips)))
          (fill-zipped zip level pin (length pout) split (drop 10 pout)
            ∙ ap (λ r. zipped_frame r.1 pin split (drop (length r.1) (drop 10 pout))) zips)

    some_in : 55 ≤ length pin
    some_in = ground arith

    packed : packetbuf zip none (some pin) (some pout) level split ≡ seal none (length pout) d
    packed =
        packetbuf-seal zip none pin pout level split true d ez filled (omega (arith, some_in))
          room_in

    size : get_packet_size d ≡ length z + 10
    size =
        (frame-zipped (length z) split (u32_bytes (length pin) ++ (z ++ rest)) (omega arith)).0
        ∙ omega arith

    rounded : n ≤ length pout
    rounded = unfold round_packet in omega (arith, size)

    ten : 10 + length z ≤ n
    ten = unfold round_packet in omega (arith, size)

    d_size : length d ≡ length pout
    d_size =
        omega
          (arith, length-append z rest, length-drop (length z) (drop 10 pout), length-drop 10 pout)
