-- ===== src/Serialize/MsgPack/Encode.antt =====
-- `packetbuf`: the packet that it writes, before and after encryption.
use dolphin_core.Base.{
  ℕ, ◌+◌, ◌-◌, ◌^◌, ◌≤◌, ◌<◌, ◌≡◌, refl, ap, ap₂, ◌∙◌, sym, arith, Bool, true, false, not, ◌&&◌,
}
use dolphin_core.Base.{List, [], ◌∷◌, ◌++◌, some, ◌==◌, length, take, drop, ltb}
use dolphin_core.Base.{drop-append_add, ℤ, pos}
use dolphin_core.Base.{take-append-drop, length-take, if_false}
use dolphin_core.Mem.LoopBuf.{copy_to}
use dolphin_core.Serialize.Packet.{
  u32_bytes, is_compress, get_packet_size, round_packet, init, init_flag, cmd, set_size,
  set_cmd_size, min_packet_size, min_zlib_pack_size,
}
use dolphin_core.Serialize.MsgPack.{
  Cipher, Zlib, fill, seal, packetbuf, zlib_level, is_zlib_level, encdec_at,
}
use dolphin_core.Serialize.MsgPack.Frame.{
  IsCipher, apply, encdec_at-append, get_packet_size-append, frame,
}
use dolphin_core.Serialize.MsgPack.Decode.{IsPadded}

pub is_compress-frame :
    (z split : Bool) (size : ℕ) (rest : List ℕ)
    → is_compress (frame size (init_flag z split) rest) ≡ z
unfolding is_compress
is_compress-frame true true size rest = refl
is_compress-frame true false size rest = refl
is_compress-frame false true size rest = refl
is_compress-frame false false size rest = refl

-- What `init` leaves of the array.
abbrev pub cleared : List ℕ → List ℕ
cleared pout = 0 ∷ 0 ∷ 0 ∷ 0 ∷ drop 10 pout

pub init-frame :
    (z split : Bool) (pout : List ℕ)
    → init z split pout ≡ frame 0 (init_flag z split) (cleared pout)
unfolding init copy_to
init-frame z split pout = refl

drop_past : (ws rest : List ℕ) (k : ℕ) → drop (length ws + k) (ws ++ rest) ≡ drop k rest
drop_past ws rest k =
    drop-append_add (length ws + k) ws rest (omega arith) ∙ ap (λ n. drop n rest) behind
  where
    behind : length ws + k - length ws ≡ k
    behind = omega arith

-- A message that is not compressed stands behind the header of 6 bytes.
pub fill-raw :
    (zip : Zlib) (level : ℤ) (pin : List ℕ) (nmaxlen : ℕ) (split : Bool) (rest : List ℕ)
    → fill zip level pin nmaxlen (frame 0 (init_flag false split) rest)
      ≡ (true, frame (length pin) (init_flag false split) (pin ++ drop (length pin) rest))
unfolding fill cmd set_size copy_to is_compress
fill-raw zip level pin nmaxlen true rest =
    ap (λ t. (true, frame (length pin) (init_flag false true) (pin ++ t)))
      (drop_past (frame 0 (init_flag false true) []) rest (length pin))
fill-raw zip level pin nmaxlen false rest =
    ap (λ t. (true, frame (length pin) (init_flag false false) (pin ++ t)))
      (drop_past (frame 0 (init_flag false false) []) rest (length pin))

-- One that is compressed to `z` stands behind that header and its own size.
abbrev pub zipped_frame : List ℕ → List ℕ → Bool → List ℕ → List ℕ
zipped_frame z pin split t =
    frame (length z) (init_flag true split) (u32_bytes (length pin) ++ (z ++ t))

pub fill-zipped :
    (zip : Zlib) (level : ℤ) (pin : List ℕ) (nmaxlen : ℕ) (split : Bool) (rest : List ℕ)
    → let z = (zip.compress (zlib_level level) pin nmaxlen).1 in
      (fill zip level pin nmaxlen (frame 0 (init_flag true split) (u32_bytes 0 ++ rest))).1
      ≡ zipped_frame z pin split (drop (length z) rest)
unfolding fill cmd set_size set_cmd_size copy_to is_compress
fill-zipped zip level pin nmaxlen true rest =
    ap (zipped_frame _ pin true) (drop_past (frame 0 (init_flag true true) (u32_bytes 0)) rest _)
fill-zipped zip level pin nmaxlen false rest =
    ap (zipped_frame _ pin false) (drop_past (frame 0 (init_flag true false) (u32_bytes 0)) rest _)

pub fill-zipped_ok :
    (zip : Zlib) (level : ℤ) (pin : List ℕ) (nmaxlen : ℕ) (split : Bool) (rest : List ℕ)
    → (zip.compress (zlib_level level) pin nmaxlen).0 ≡ true
    → length (zip.compress (zlib_level level) pin nmaxlen).1 ≤ nmaxlen
    → (fill zip level pin nmaxlen (frame 0 (init_flag true split) rest)).0 ≡ true
unfolding fill is_compress
fill-zipped_ok zip level pin nmaxlen true rest e h = ap₂ ◌&&◌ e (ground arith)
fill-zipped_ok zip level pin nmaxlen false rest e h = ap₂ ◌&&◌ e (ground arith)

-- `packetbuf` writes the packet of `fill` and encrypts it if there is room for the message.
pub packetbuf-seal :
    (zip : Zlib) (enc : Cipher) (pin pout : List ℕ) (level : ℤ) (split z : Bool) (d : List ℕ)
    → (is_zlib_level level && ltb min_zlib_pack_size (length pin)) ≡ z
    → fill zip level pin (length pout) (frame 0 (init_flag z split) (cleared pout)) ≡ (true, d)
    → 1 ≤ length pin
    → length pin + 8 ≤ length pout
    → packetbuf zip enc (some pin) (some pout) level split ≡ seal enc (length pout) d
unfolding packetbuf
packetbuf-seal zip enc pin pout level split z d ez ed some_in room =
    if_false {b = length pin == 0} _ _ (ground arith)
    ∙ if_false {b = ltb (length pout) (length pin)} _ _ (ground arith)
    ∙ if_false {b = ltb (length pout) (length pin + min_packet_size)} _ _ (ground arith)
    ∙ if_false {b = not filled.0} _ _ (ap (λ f. not f.0) filled_lem)
    ∙ ap (λ f. seal enc (length pout) f.1) filled_lem
  where
    filled : Bool × List ℕ
    filled =
        fill zip level pin (length pout)
          (init (is_zlib_level level && ltb min_zlib_pack_size (length pin)) split pout)

    filled_lem : filled ≡ (true, d)
    filled_lem =
        ap (λ b. fill zip level pin (length pout) (init b split pout)) ez
        ∙ ap (fill zip level pin (length pout)) (init-frame z split pout)
        ∙ ed

pub seal_lem :
    (enc : Cipher) (nmaxlen : ℕ) (d : List ℕ)
    → IsCipher enc
    → nmaxlen ≤ length d
    → 6 ≤ get_packet_size d
    → get_packet_size d + 7 < 2 ^ 32
    → round_packet (get_packet_size d) ≤ nmaxlen
    → IsPadded (take (round_packet (get_packet_size d)) d)
      × (seal enc nmaxlen d ≡ (
        pos (round_packet (get_packet_size d)),
        apply enc true (take (round_packet (get_packet_size d)) d)
            ++ drop (round_packet (get_packet_size d)) d,
      ))
unfolding seal
seal_lem enc nmaxlen d c room six nowrap fits = (
  record {
    header = omega (arith, n_size, size);
    whole = n_size ∙ ap round_packet (sym same);
    no_wrap = rw same nowrap;
  },
  if_false {b = ltb nmaxlen n} _ _ (ground arith)
      ∙ ap (λ u. (pos n, u))
          (ap (encdec_at enc true 0 n) (sym (take-append-drop n d))
            ∙ encdec_at-append enc true [] (take n d) (drop n d) 0 n c refl n_size),
)
  where
    n : ℕ
    n = round_packet (get_packet_size d)

    size : 6 ≤ n
    size = unfold round_packet in omega arith

    n_size : length (take n d) ≡ n
    n_size = omega (arith, length-take n d)

    same : get_packet_size (take n d) ≡ get_packet_size d
    same =
        sym (get_packet_size-append (take n d) (drop n d) (omega (arith, size, n_size)))
        ∙ ap get_packet_size (take-append-drop n d)
