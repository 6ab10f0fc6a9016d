-- ===== src/Encrypt/Base64/Sizes.antt =====
-- The sizes of src/encrypt/base64/base64.cpp, and that what is written fits.
use dolphin_core.Base.{ℕ, ◌+◌, ◌*◌, ◌/◌, ◌%◌, ◌<◌, ◌≤◌, ◌≡◌, refl, ap, ◌∙◌, arith}
use dolphin_core.Base.{
  List, [], ◌∷◌, leb, ltb, if◌then◌else◌, if_elim, if_false, Bool-cases, inl, inr, length,
  length-append, pos, negsuc, int32, int32_small, ◌-◌, ◌^◌,
}
use dolphin_core.Encrypt.Base64.{
  Setup, strip, encode_loop, decode_loop, base64_encode_size, base64_decode_size, base64_encode,
  base64_decode, Written, written,
}

encode_loop-length :
    (s : Setup) (src : List ℕ) → length (encode_loop s src) ≡ 4 * ((length src + 2) / 3)
unfolding encode_loop
encode_loop-length s [] = omega arith
encode_loop-length s (a ∷ []) = omega arith
encode_loop-length s (a ∷ b ∷ []) = omega arith
encode_loop-length s (a ∷ b ∷ c ∷ src) = omega (arith, encode_loop-length s src)

decode_loop-length : (s : Setup) (src : List ℕ) → length (decode_loop s src) ≡ length src * 3 / 4
unfolding decode_loop
decode_loop-length s [] = omega arith
decode_loop-length s (a ∷ []) = omega arith
decode_loop-length s (a ∷ b ∷ []) = omega arith
decode_loop-length s (a ∷ b ∷ c ∷ []) = omega arith
decode_loop-length s (a ∷ b ∷ c ∷ d ∷ src) = omega (arith, decode_loop-length s src)

-- Without wrap-around, the sizes are what they are meant to be.
pub encode_size_small : (n : ℕ) → n < 1610612734 → base64_encode_size n ≡ pos (4 * ((n + 2) / 3))
unfolding base64_encode_size
encode_size_small n h =
    rw (int32_small (n + 2) (omega arith))
      (int32_small (4 * ((n + 2) / 3 % 2 ^ 32)) (omega arith) ∙ ap pos (omega arith))

pub decode_size_small :
    (s : Setup) (src : List ℕ)
    → length (strip s.base64_mod src) * 3 < 2 ^ 31
    → base64_decode_size s src ≡ pos (length (strip s.base64_mod src) * 3 / 4)
unfolding base64_decode_size
decode_size_small s src h = rw (int32_small (length (strip s.base64_mod src) * 3) h) refl

encode_size_wraps :
    (n : ℕ)
    → 1610612734 ≤ n
    → n < 2 ^ 31 - 2
    → (r : ℕ) × (base64_encode_size n ≡ negsuc r) × (2 ^ 31 ≤ 4 * ((n + 2) / 3))
unfolding base64_encode_size
encode_size_wraps n h k = (
  2 ^ 32 - 1 - 4 * ((n + 2) / 3 % 2 ^ 32) % 2 ^ 32,
  rw (int32_small (n + 2) (omega arith)) (
      unfold int32 in
      if_false {b = ltb (4 * ((n + 2) / 3 % 2 ^ 32) % 2 ^ 32) (2 ^ 31)} _ _ (ground arith)),
  omega arith,
)

-- Nothing is written behind the end of the destination.
Fits : ℕ → ℕ → Written → Type 0
Fits len dst_len w = (length w.dst ≤ dst_len) × (w.count ≡ (if leb len dst_len then len else 0))

written-Fits :
    (len dst_len : ℕ) (out : List ℕ)
    → length out ≡ len
    → Fits len dst_len (written (pos len) dst_len out)
unfolding written Fits
written-Fits len dst_len out e = elim (Bool-cases (leb len dst_len)) [
  | inl t ↦ rw t (
    if_elim (λ (ys : List ℕ). length ys ≤ dst_len) (ltb len dst_len) _ _
        (λ l.
          let lt : len < dst_len = ground (arith, l) in
          omega (arith, length-append out (0 ∷ []), e))
        (λ _. let le : len ≤ dst_len = ground (arith, t) in omega (arith, e)),
    e,
  )
  | inr f ↦ rw f (omega arith, refl)
]

-- Of fewer than 1610612734 bytes, encoding writes at most dst_len, the end of the string included,
-- and returns 4 for each 3 bytes begun, which base64_encode_size gives, or 0 if that is more than
-- dst_len.
pub base64_encode_bounds :
    (s : Setup) (src : List ℕ) (dst_len : ℕ)
    → length src < 1610612734
    → (length (base64_encode s src dst_len).dst ≤ dst_len)
      × (base64_encode_size (length src) ≡ pos (4 * ((length src + 2) / 3)))
      × ((base64_encode s src dst_len).count
          ≡ (if leb (4 * ((length src + 2) / 3)) dst_len then 4 * ((length src + 2) / 3) else 0))
unfolding base64_encode Fits
base64_encode_bounds s src dst_len short =
    let e : base64_encode_size (length src) ≡ pos (4 * ((length src + 2) / 3)) =
      encode_size_small (length src) short in
    let f : Fits (4 * ((length src + 2) / 3)) dst_len
        (written (base64_encode_size (length src)) dst_len (encode_loop s src)) =
      rw e (
        written-Fits (4 * ((length src + 2) / 3)) dst_len (encode_loop s src)
          (encode_loop-length s src)) in
    (f.0, e, f.1)

-- From 1610612734 bytes on, but for the last two lengths that an `int` has, the size is negative,
-- the test lets every destination pass, and more is written than one can hold.
pub base64_encode_overruns :
    (s : Setup) (src : List ℕ) (dst_len : ℕ)
    → 1610612734 ≤ length src
    → length src < 2 ^ 31 - 2
    → dst_len < 2 ^ 31
    → dst_len < length (base64_encode s src dst_len).dst
unfolding base64_encode written
base64_encode_overruns s src dst_len long int_len int_dst =
    let (r, e, big) = encode_size_wraps (length src) long int_len in
    rw e (omega (arith, length-append (encode_loop s src) (0 ∷ []), encode_loop-length s src, big))

-- Decoding writes at most dst_len, of a text of which a third of 2 ^ 31 characters are no pads.
pub base64_decode_bounds :
    (s : Setup) (src : List ℕ) (dst_len : ℕ)
    → length (strip s.base64_mod src) * 3 < 2 ^ 31
    → (length (base64_decode s src dst_len).dst ≤ dst_len)
      × ((base64_decode s src dst_len).count ≡ (
          if leb (length (strip s.base64_mod src) * 3 / 4) dst_len
          then length (strip s.base64_mod src) * 3 / 4
          else 0))
unfolding base64_decode Fits
base64_decode_bounds s src dst_len short = rw (decode_size_small s src short) (
    written-Fits (length (strip s.base64_mod src) * 3 / 4) dst_len
      (decode_loop s (strip s.base64_mod src)) (decode_loop-length s (strip s.base64_mod src)))
