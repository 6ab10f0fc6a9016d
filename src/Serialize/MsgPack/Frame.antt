-- ===== src/Serialize/MsgPack/Frame.antt =====
-- A packet in plain: its fields read back, and a cipher on a part of an array.
use dolphin_core.Base.{
  ℕ, ◌+◌, ◌%◌, ◌^◌, ◌≤◌, ◌<◌, ◌≡◌, refl, ap, ap₂, ◌∙◌, sym, arith, Bool, true, false,
}
use dolphin_core.Base.{List, [], ◌∷◌, ◌++◌, none, some, length, take, drop}
use dolphin_core.Base.{take-append_eq, drop-append_eq, length-append, append_assoc}
use dolphin_core.Serialize.Packet.{u32_bytes, size_field, get_packet_size}
use dolphin_core.Serialize.MsgPack.{Cipher, encdec_at}

-- The bytes of a packet behind which `rest` stands.
abbrev pub frame : ℕ → ℕ → List ℕ → List ℕ
frame size flag rest = u32_bytes size ++ (0 ∷ flag ∷ rest)

pub size_field-frame :
    (size flag : ℕ) (rest : List ℕ) → size < 2 ^ 32 → size_field (frame size flag rest) ≡ size
unfolding size_field
size_field-frame size flag rest h = omega arith

-- The header decides, whatever follows it.
pub get_packet_size-append :
    (xs ys : List ℕ) → 6 ≤ length xs → get_packet_size (xs ++ ys) ≡ get_packet_size xs
get_packet_size-append [] ys h = absurd (omega arith)
get_packet_size-append (_ ∷ []) ys h = absurd (omega arith)
get_packet_size-append (_ ∷ _ ∷ []) ys h = absurd (omega arith)
get_packet_size-append (_ ∷ _ ∷ _ ∷ []) ys h = absurd (omega arith)
get_packet_size-append (_ ∷ _ ∷ _ ∷ _ ∷ []) ys h = absurd (omega arith)
get_packet_size-append (_ ∷ _ ∷ _ ∷ _ ∷ _ ∷ []) ys h = absurd (omega arith)
get_packet_size-append (_ ∷ _ ∷ _ ∷ _ ∷ _ ∷ _ ∷ xs) ys h = unfold get_packet_size in refl

-- What `encdec` makes of the bytes of a region.
unfoldable pub apply : Cipher → Bool → List ℕ → List ℕ
apply none enc xs = xs
apply (some f) enc xs = f enc xs

-- The documented behaviour of a cipher in blocks of 8 bytes: it keeps the length, treats the
-- blocks one by one, and decrypts what it encrypted.
pub record IsCipher (enc : Cipher) : Type 0 where
  pub length-apply : (b : Bool) (xs : List ℕ) → length (apply enc b xs) ≡ length xs
  pub apply-append :
      (b : Bool) (xs ys : List ℕ)
      → length xs % 8 ≡ 0
      → apply enc b (xs ++ ys) ≡ apply enc b xs ++ apply enc b ys
  pub inverse : (xs : List ℕ) → length xs % 8 ≡ 0 → apply enc false (apply enc true xs) ≡ xs

-- `encdec` on the middle of three parts.
pub encdec_at-append :
    (enc : Cipher) (b : Bool) (ws xs ys : List ℕ) (at n : ℕ)
    → IsCipher enc
    → length ws ≡ at
    → length xs ≡ n
    → encdec_at enc b at n (ws ++ (xs ++ ys)) ≡ ws ++ (apply enc b xs ++ ys)
unfolding encdec_at apply
encdec_at-append none b ws xs ys at n c hw hx = refl
encdec_at-append (some f) b ws xs ys at n c hw hx =
    ap₂ ◌++◌ (take-append_eq at ws (xs ++ ys) hw) (ap₂ ◌++◌ (ap (f b) middle) last)
  where
    middle : take n (drop at (ws ++ (xs ++ ys))) ≡ xs
    middle = ap (take n) (drop-append_eq at ws (xs ++ ys) hw) ∙ take-append_eq n xs ys hx

    last : drop (at + length (f b (take n (drop at (ws ++ (xs ++ ys)))))) (ws ++ (xs ++ ys)) ≡ ys
    last =
        ap₂ drop
          (omega (arith, ap length middle, c.length-apply b (take n (drop at (ws ++ (xs ++ ys))))))
          (sym (append_assoc ws xs ys))
        ∙ drop-append_eq (at + n) (ws ++ xs) ys (omega (arith, length-append ws xs))
