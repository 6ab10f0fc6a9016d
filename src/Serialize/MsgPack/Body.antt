-- ===== src/Serialize/MsgPack/Body.antt =====
-- The message in a packet: where it stands, and what `getmsg2buf` makes of it.
use dolphin_core.Base.{
  ℕ, ◌+◌, ◌-◌, ◌%◌, ◌^◌, ◌≤◌, ◌<◌, ◌≡◌, refl, ap, ap₂, ◌∙◌, arith, Bool, true, false, ◌||◌, not,
}
use dolphin_core.Base.{List, [], ◌++◌, if◌then◌else◌, length, take, drop, ltb}
use dolphin_core.Base.{take-append_eq, take-append_add, ℤ, pos, negsuc}
use dolphin_core.Base.{if_true, if_false}
use dolphin_core.Serialize.Packet.{
  u32_bytes, size_field, is_compress, get_packet_size, init_flag, cmd,
}
use dolphin_core.Serialize.MsgPack.{Zlib, take_packet, moved_on, Got}
use dolphin_core.Serialize.MsgPack.Frame.{frame, size_field-frame}
use dolphin_core.Serialize.MsgPack.Encode.{is_compress-frame, zipped_frame}

-- The documented behaviour of zlib: what was compressed is uncompressed again if it fits.
pub record IsZlib (zip : Zlib) : Type 0 where
  pub inverse :
      (level : ℤ) (xs : List ℕ) (nmaxlen nmax : ℕ)
      → (zip.compress level xs nmaxlen).0 ≡ true
      → length xs ≤ nmax
      → zip.uncompress (zip.compress level xs nmaxlen).1 nmax ≡ (true, xs)

pub frame-take :
    (s f n : ℕ) (body t : List ℕ)
    → 6 + length body ≤ n
    → take n (frame s f (body ++ t)) ≡ frame s f (body ++ take (n - 6 - length body) t)
frame-take s f n body t h =
    take-append_add n (frame s f []) (body ++ t) (omega arith)
    ∙ ap (frame s f) (take-append_add (n - 6) body t (omega arith))

-- The sizes and the start of the message, by the flag.
pub frame-raw :
    (s : ℕ) (split : Bool) (rest : List ℕ)
    → s < 2 ^ 32
    → (get_packet_size (frame s (init_flag false split) rest) ≡ (s + 6) % 2 ^ 32)
      × (cmd (frame s (init_flag false split) rest) ≡ 6)
unfolding get_packet_size cmd
frame-raw s split rest h = (
  if_false {b = is_compress (frame s (init_flag false split) rest)} _ _
        (is_compress-frame false split s rest)
      ∙ ap (λ n. (n + 6) % 2 ^ 32) (size_field-frame s (init_flag false split) rest h),
  if_false {b = is_compress (frame s (init_flag false split) rest)} _ _
      (is_compress-frame false split s rest),
)

pub frame-zipped :
    (s : ℕ) (split : Bool) (rest : List ℕ)
    → s < 2 ^ 32
    → (get_packet_size (frame s (init_flag true split) rest) ≡ (s + 10) % 2 ^ 32)
      × (cmd (frame s (init_flag true split) rest) ≡ 10)
unfolding get_packet_size cmd
frame-zipped s split rest h = (
  if_true {b = is_compress (frame s (init_flag true split) rest)} _ _
        (is_compress-frame true split s rest)
      ∙ ap (λ n. (n + 6 + 4) % 2 ^ 32) (size_field-frame s (init_flag true split) rest h)
      ∙ omega arith,
  if_true {b = is_compress (frame s (init_flag true split) rest)} _ _
      (is_compress-frame true split s rest),
)

pub take_packet-raw :
    (zip : Zlib) (pin rest : List ℕ) (split : Bool) (de_size nmax : ℕ)
    → length pin < 2 ^ 32
    → take_packet zip (frame (length pin) (init_flag false split) (pin ++ rest)) de_size nmax
      ≡ moved_on
          (frame (length pin) (init_flag false split) (pin ++ rest))
          de_size
          (pos (length pin))
          pin
unfolding take_packet
take_packet-raw zip pin rest split de_size nmax h =
    if_false {b = is_compress b} _ _ (is_compress-frame false split (length pin) (pin ++ rest))
    ∙ ap₂ (λ n msg. moved_on b de_size (pos n) msg) size body
  where
    b : List ℕ
    b = frame (length pin) (init_flag false split) (pin ++ rest)

    size : size_field b ≡ length pin
    size = size_field-frame (length pin) (init_flag false split) (pin ++ rest) h

    body : take (size_field b) (drop (cmd b) b) ≡ pin
    body =
        ap₂ (λ n m. take n (drop m b)) size (frame-raw (length pin) split (pin ++ rest) h).1
        ∙ take-append_eq (length pin) pin rest refl

pub take_packet-zipped :
    (zip : Zlib) (pin z rest : List ℕ) (split : Bool) (de_size nmax : ℕ)
    → length z < 2 ^ 32
    → length pin ≤ nmax
    → zip.uncompress z nmax ≡ (true, pin)
    → take_packet zip (zipped_frame z pin split rest) de_size nmax
      ≡ moved_on (zipped_frame z pin split rest) de_size (pos (length pin)) pin
unfolding take_packet
take_packet-zipped zip pin z rest split de_size nmax h fits e =
    if_true {b = is_compress b} _ _
      (is_compress-frame true split (length z) (u32_bytes (length pin) ++ (z ++ rest)))
    ∙ ap result out
    ∙ if_false {b = ltb nmax (length pin)} _ _ (ground arith)
  where
    b : List ℕ
    b = zipped_frame z pin split rest

    result : Bool × List ℕ → Got
    result (ok, msg) =
        if not ok || ltb nmax (length msg)
        then moved_on b de_size (negsuc 2) msg
        else moved_on b de_size (pos (length msg)) msg

    out : zip.uncompress (take (size_field b) (drop (cmd b) b)) nmax ≡ (true, pin)
    out =
        ap (λ u. zip.uncompress u nmax)
          (ap₂ (λ n m. take n (drop m b)) (size_field-frame (length z) (init_flag true split) _ h)
              (frame-zipped (length z) split _ h).1
            ∙ take-append_eq (length z) z rest refl)
        ∙ e
