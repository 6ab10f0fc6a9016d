-- ===== src/Encrypt/Base64/RoundTrip.antt =====
-- Decoding undoes encoding.
use dolphin_core.Base.{ℕ, ◌+◌, ◌*◌, ◌/◌, ◌%◌, ◌<◌, ◌≤◌, ◌≡◌, ◌≢◌, refl, ap, ap₂, ◌∙◌, arith, Bool}
use dolphin_core.Base.{
  List, [], ◌∷◌, ◌++◌, ◌==◌, ==_iff, if◌then◌else◌, if_elim, if_true, if_false, below-all, length,
  take, take_all, take-append_eq, ℤ, pos, leb_int, ltb_int, ◌^◌, true,
}
use Prim.Native.Nat.{bit_or}
use dolphin_core.Encrypt.Base64.Sizes.{decode_size_small}
use dolphin_core.Encrypt.Base64.{
  Setup, strip, encode_digit, decode_digit, encode_loop, decode_loop, base64_encode_size,
  base64_decode_size, base64_encode, base64_decode, Written, written,
}

-- The digits are told apart from each other and from the pad.
pub record IsSetup (s : Setup) : Type 0 where
  pub digit : (v : ℕ) → v < 64 → decode_digit s (encode_digit s v) ≡ v
  pub other : (v : ℕ) → v < 64 → encode_digit s v ≢ s.base64_mod

abbrev pub AllBytes : List ℕ → Type 0
AllBytes [] = Unit
AllBytes (x ∷ xs) = (x < 256) × AllBytes xs

strip-cons : (m x : ℕ) (xs : List ℕ) → x ≢ m → strip m (x ∷ xs) ≡ x ∷ strip m xs
unfolding strip
strip-cons m x xs h = go (strip m xs)
  where
    go :
        (q : List ℕ) → elim q [ [] ↦ (if x == m then [] else x ∷ []) | y ∷ ys ↦ x ∷ y ∷ ys ] ≡ x ∷ q
    go [] = if_false {b = x == m} _ _ (ground (arith, h))
    go (y ∷ ys) = refl

strip-pad : (m : ℕ) (xs : List ℕ) → strip m xs ≡ [] → strip m (m ∷ xs) ≡ []
unfolding strip
strip-pad m xs e = go (strip m xs) e
  where
    go :
        (q : List ℕ)
        → q ≡ []
        → elim q [ [] ↦ (if m == m then [] else m ∷ []) | y ∷ ys ↦ m ∷ y ∷ ys ] ≡ []
    go [] e = if_true {b = m == m} _ _ ((==_iff m m).1 refl)
    go (y ∷ ys) e = absurd (ground (arith, e))

strip-nil : (m : ℕ) → strip m [] ≡ []
unfolding strip
strip-nil m = refl

-- The last of three bytes from its two parts, for each byte.
join_test : ℕ → Bool
join_test c = bit_or (c / 64 * 64) (c % 64) == c

joined : (b c : ℕ) → c < 256 → bit_or ((b * 4 + c / 64 % 4) % 64 * 64 % 256) (c % 64) ≡ c
unfolding join_test
joined b c h =
    let high : (b * 4 + c / 64 % 4) % 64 * 64 % 256 ≡ c / 64 * 64 = omega arith in
    rw high ((==_iff (bit_or (c / 64 * 64) (c % 64)) c).0 (below-all join_test 256 c refl h))

-- The digits without the pads.
digits : Setup → List ℕ → List ℕ
digits s (a ∷ b ∷ c ∷ src) =
    encode_digit s (a / 4 % 64)
    ∷ encode_digit s ((a * 16 + b / 16 % 16) % 64)
    ∷ encode_digit s ((b * 4 + c / 64 % 4) % 64)
    ∷ encode_digit s (c % 64)
    ∷ digits s src
digits s (a ∷ b ∷ []) =
    encode_digit s (a / 4 % 64)
    ∷ encode_digit s ((a * 16 + b / 16 % 16) % 64)
    ∷ encode_digit s (b * 4 % 64)
    ∷ []
digits s (a ∷ []) = encode_digit s (a / 4 % 64) ∷ encode_digit s (a * 16 % 64) ∷ []
digits s [] = []

module _ (s : Setup) (v : IsSetup s) where
  -- One digit in front.
  digit-strip :
      (x : ℕ) (xs ys : List ℕ)
      → x < 64
      → strip s.base64_mod xs ≡ ys
      → strip s.base64_mod (encode_digit s x ∷ xs) ≡ encode_digit s x ∷ ys
  digit-strip x xs ys h e =
      strip-cons s.base64_mod (encode_digit s x) xs (v.other x h) ∙ ap (◌∷◌ (encode_digit s x)) e

  strip-encode_loop : (src : List ℕ) → strip s.base64_mod (encode_loop s src) ≡ digits s src
  unfolding encode_loop digits
  strip-encode_loop [] = strip-nil s.base64_mod
  strip-encode_loop (a ∷ []) = digit-strip _ _ _ (omega arith) (
      digit-strip _ _ _ (omega arith)
        (strip-pad s.base64_mod _ (strip-pad s.base64_mod [] (strip-nil s.base64_mod))))
  strip-encode_loop (a ∷ b ∷ []) = digit-strip _ _ _ (omega arith) (
      digit-strip _ _ _ (omega arith)
        (digit-strip _ _ _ (omega arith) (strip-pad s.base64_mod [] (strip-nil s.base64_mod))))
  strip-encode_loop (a ∷ b ∷ c ∷ src) = digit-strip _ _ _ (omega arith) (
      digit-strip _ _ _ (omega arith)
        (digit-strip _ _ _ (omega arith) (digit-strip _ _ _ (omega arith) (strip-encode_loop src))))

  decode-digits : (src : List ℕ) → AllBytes src → decode_loop s (digits s src) ≡ src
  unfolding decode_loop digits
  decode-digits [] h = refl
  decode-digits (a ∷ []) (ha, h) =
      rw (v.digit (a / 4 % 64) (omega arith), v.digit (a * 16 % 64) (omega arith))
        (ap (λ x. x ∷ []) (omega arith))
  decode-digits (a ∷ b ∷ []) (ha, (hb, h)) =
      rw
        (
          v.digit (a / 4 % 64) (omega arith),
          v.digit ((a * 16 + b / 16 % 16) % 64) (omega arith),
          v.digit (b * 4 % 64) (omega arith),
        )
        (ap₂ (λ x y. x ∷ y ∷ []) (omega arith) (omega arith))
  decode-digits (a ∷ b ∷ c ∷ src) (ha, (hb, (hc, h))) =
      rw
        (
          v.digit (a / 4 % 64) (omega arith),
          v.digit ((a * 16 + b / 16 % 16) % 64) (omega arith),
          v.digit ((b * 4 + c / 64 % 4) % 64) (omega arith),
          v.digit (c % 64) (omega arith),
          decode-digits src h,
        )
        (ap₂ (λ x (r : List ℕ). x ∷ r) (omega arith)
          (ap₂ (λ x (r : List ℕ). x ∷ r) (omega arith) (ap (λ x. x ∷ src) (joined b c hc))))

-- What a call writes, without the end of the string.
abbrev pub text : Written → List ℕ
text w = take w.count w.dst

take-end : (b : Bool) (xs : List ℕ) → take (length xs) (if b then xs ++ (0 ∷ []) else xs) ≡ xs
take-end b xs =
    if_elim (λ ys. take (length xs) ys ≡ xs) b _ _
      (λ _. take-append_eq (length xs) xs (0 ∷ []) refl)
      (λ _. take_all (length xs) xs (omega arith))

text-written :
    (len : ℤ) (dst_len : ℕ) (out : List ℕ)
    → leb_int len (pos dst_len) ≡ true
    → text (written len dst_len out) ≡ out
unfolding written
text-written len dst_len out h =
    rw (if_true {b = leb_int len (pos dst_len)} _ _ h) (take-end (ltb_int len (pos dst_len)) out)

digits-length : (s : Setup) (src : List ℕ) → length (digits s src) * 3 / 4 ≡ length src
unfolding digits
digits-length s [] = omega arith
digits-length s (a ∷ []) = omega arith
digits-length s (a ∷ b ∷ []) = omega arith
digits-length s (a ∷ b ∷ c ∷ src) = omega (arith, digits-length s src)

-- Bytes, fewer than 2 ^ 29 - 2, that are encoded and decoded come back, if the destination of the
-- text has the room that base64_encode_size names and that of the bytes holds them, under any map whose digits differ from each other and from the pad.
pub base64_round_trip :
    (s : Setup) (src : List ℕ) (n m : ℕ)
    → IsSetup s
    → AllBytes src
    → length src + 2 < 2 ^ 29
    → leb_int (base64_encode_size (length src)) (pos n) ≡ true
    → length src ≤ m
    → text (base64_decode s (text (base64_encode s src n)) m) ≡ src
unfolding base64_decode_size base64_encode base64_decode
base64_round_trip s src n m v h short hn hm =
    let e : text (base64_encode s src n) ≡ encode_loop s src =
      text-written (base64_encode_size (length src)) n (encode_loop s src) hn in
    let t : strip s.base64_mod (encode_loop s src) ≡ digits s src = strip-encode_loop s v src in
    let d : length (strip s.base64_mod (encode_loop s src)) * 3 / 4 ≡ length src =
      rw t (digits-length s src) in
    let fits : leb_int (base64_decode_size s (encode_loop s src)) (pos m) ≡ true =
      rw (decode_size_small s (encode_loop s src) (omega (arith, d))) (ground (arith, d, hm)) in
    ap (λ x. text (base64_decode s x m)) e
    ∙ text-written (base64_decode_size s (encode_loop s src)) m _ fits
    ∙ ap (decode_loop s) t
    ∙ decode-digits s v src h
