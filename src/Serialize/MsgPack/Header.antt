-- ===== src/Serialize/MsgPack/Header.antt =====
-- src/serialize/msgpack.cpp: `getpackethdr` looks at the header of a packet that has arrived.
use dolphin_core.Base.{
  ℕ, ◌+◌, ◌-◌, ◌*◌, ◌^◌, ◌≤◌, ◌<◌, ◌≡◌, ap, ap₂, ◌∙◌, sym, arith, Bool, true, false, ◌&&◌, ◌||◌,
  not,
}
use dolphin_core.Base.{List, ◌++◌, none, length, take, drop, ltb, leb, ◌==◌}
use dolphin_core.Base.{if◌then◌else◌, if_true, if_false, if_either, length-append, length-take}
use dolphin_core.Base.{take-append-drop, append_assoc, pos}
use dolphin_core.Serialize.Packet.{size_field, get_packet_size, round_packet, is_full_packet}
use dolphin_core.Serialize.MsgPack.{
  Cipher, Zlib, encdec_at, getmsg2buf, decrypt_blocks, check_packet, take_packet, stopped,
}
use dolphin_core.Serialize.MsgPack.Frame.{IsCipher, apply, get_packet_size-append}
use dolphin_core.Serialize.MsgPack.Decode.{
  IsPadded, padded_blocks, decrypt_blocks-packet, check_packet-plain,
}

-- What `getpackethdr` returns and leaves: whether the pointer is not NULL, the bytes that it points
-- to, `_de_size`, `isfullpacket` and `iserror`.
pub record PacketHdr : Type 0 where
  pub found : Bool
  pub buf : List ℕ
  pub de_size : ℕ
  pub is_full : Bool
  pub is_error : Bool

-- 1024 * 1024 * 10
abbrev pub too_large : ℕ
too_large = 10 * 2 ^ 20

-- The end of `getpackethdr`, behind the decryption.
abbrev pub header_at : List ℕ → ℕ → PacketHdr
header_at buf de_size =
    let there = leb 8 de_size && leb 8 (length buf) in
    record {
      found = there;
      buf = buf;
      de_size = de_size;
      is_full = there && is_full_packet buf (length buf);
      is_error = false;
    }

unfoldable pub getpackethdr : Cipher → List ℕ → ℕ → PacketHdr
unfolding size_field is_full_packet encdec_at
getpackethdr enc buf de_size =
    if leb 8 (length buf) && (leb too_large (size_field buf) || ltb (size_field buf) 2)
    then record { found = false; buf = buf; de_size = de_size; is_full = false; is_error = true }
    else if de_size == 0 && leb 8 (length buf)
    then header_at (encdec_at enc false 0 8 buf) 8
    else header_at buf de_size

-- A packet that has arrived whole and whose size is admissible.
pub getpackethdr-whole :
    (p : List ℕ)
    → IsPadded p
    → 2 ≤ size_field p
    → size_field p < too_large
    → getpackethdr none p 0
      ≡ record { found = true; buf = p; de_size = 8; is_full = true; is_error = false }
unfolding getpackethdr encdec_at is_full_packet
getpackethdr-whole p k two small =
    if_false {b = leb 8 (length p) && (leb too_large (size_field p) || ltb (size_field p) 2)} _ _
      (ground (arith, two, small))
    ∙ if_true {b = leb 8 (length p)} _ _ eight
    ∙ ap₂
        (λ there full. record {
          found = there;
          buf = p;
          de_size = 8;
          is_full = there && full;
          is_error = false;
        })
        eight (ground (arith, (padded_blocks p k).2))
  where
    eight : leb 8 (length p) ≡ true
    eight = ground (arith, (padded_blocks p k).1)

-- `getmsg2buf` behind `getpackethdr`, in plain: whatever follows the packet.
pub getmsg2buf-started :
    (zip : Zlib) (p ys : List ℕ) (nmax : ℕ)
    → IsCipher none
    → IsPadded p
    → size_field (p ++ ys) ≤ nmax
    → 2 ≤ nmax
    → getmsg2buf zip none (p ++ ys) 8 (pos nmax) ≡ take_packet zip (p ++ ys) (length p) nmax
unfolding getmsg2buf is_full_packet apply
getmsg2buf-started zip p ys nmax c k fits two =
    if_false {b = length (p ++ ys) == 0} _ _ (ground (arith, sizes, total))
    ∙ if_false {b = ltb (length (p ++ ys)) 8 || ltb nmax 2} _ _ (ground (arith, sizes, total))
    ∙ if_either (not (leb (get_packet_size (p ++ ys)) 8)) more one_block
  where
    total : length (p ++ ys) ≡ length p + length ys
    total = length-append p ys

    sizes : 8 ≤ length p
    sizes = (padded_blocks p k).1

    same : get_packet_size (p ++ ys) ≡ get_packet_size p
    same = get_packet_size-append p ys k.header

    one_block :
        not (leb (get_packet_size (p ++ ys)) 8) ≡ false
        → take_packet zip (p ++ ys) 8 nmax ≡ take_packet zip (p ++ ys) (length p) nmax
    one_block e = ap (λ n. take_packet zip (p ++ ys) n nmax) short
      where
        short : 8 ≡ length p
        short = unfold round_packet in ground (arith, k.whole, sizes, same)

    eight : length (take 8 p) ≡ 8
    eight = omega (arith, length-take 8 p, sizes)

    whole : take 8 p ++ drop 8 p ≡ p
    whole = take-append-drop 8 p

    rest : length (p ++ ys) - 8 ≡ length (drop 8 p) + length ys
    rest = omega (arith, total, eight, ap length whole, length-append (take 8 p) (drop 8 p))

    split : p ++ ys ≡ take 8 p ++ (apply none true (drop 8 p) ++ ys)
    split = ap (λ u. u ++ ys) (sym whole) ∙ append_assoc (take 8 p) (drop 8 p) ys

    decrypted :
        decrypt_blocks zip none (p ++ ys) 8 (length (p ++ ys) - 8) nmax
        ≡ take_packet zip (p ++ ys) (length p) nmax
    decrypted =
        ap₂ (λ b n. decrypt_blocks zip none b 8 n nmax) split rest
        ∙ decrypt_blocks-packet zip none (take 8 p) (drop 8 p) ys nmax c (rw whole k) eight
        ∙ ap₂ (λ b n. check_packet zip b n nmax)
            (sym (append_assoc (take 8 p) (drop 8 p) ys) ∙ ap (λ u. u ++ ys) whole)
            (ap length whole)
        ∙ check_packet-plain zip p ys nmax k fits

    more :
        not (leb (get_packet_size (p ++ ys)) 8) ≡ true
        → (if ltb (length (p ++ ys) - 8) 8
            then stopped (pos 0) (p ++ ys) 8
            else decrypt_blocks zip none (p ++ ys) 8 (length (p ++ ys) - 8) nmax)
          ≡ take_packet zip (p ++ ys) (length p) nmax
    more e = if_false {b = ltb (length (p ++ ys) - 8) 8} _ _ long ∙ decrypted
      where
        long : ltb (length (p ++ ys) - 8) 8 ≡ false
        long = unfold round_packet in ground (arith, k.whole, same, total)
