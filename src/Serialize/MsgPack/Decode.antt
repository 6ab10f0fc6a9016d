-- ===== src/Serialize/MsgPack/Decode.antt =====
-- `getmsg2buf` on a packet that has arrived whole, encrypted or not.
use dolphin_core.Base.{
  ℕ, ◌+◌, ◌-◌, ◌*◌, ◌/◌, ◌%◌, ◌^◌, ◌≤◌, ◌<◌, ◌≡◌, refl, ap, ap₂, ◌∙◌, sym, arith, Bool, true, false,
  ◌||◌, not,
}
use dolphin_core.Base.{List, [], ◌∷◌, ◌++◌, leb, ◌==◌, if◌then◌else◌, length, take, drop, ltb}
use dolphin_core.Base.{length-append, append_assoc, pos, min}
use dolphin_core.Base.{take-append-drop, length-take, if_either, if_false}
use dolphin_core.Serialize.Packet.{size_field, get_packet_size, round_packet, is_full_packet}
use dolphin_core.Serialize.MsgPack.{
  Cipher, Zlib, Got, encdec_at, getmsg2buf, decrypt_blocks, check_packet, take_packet, moved_on,
}
use dolphin_core.Serialize.MsgPack.Frame.{IsCipher, apply, encdec_at-append, get_packet_size-append}

-- A packet in plain, filled up to whole blocks.
pub record IsPadded (p : List ℕ) : Type 0 where
  pub header : 6 ≤ length p
  pub whole : length p ≡ round_packet (get_packet_size p)
  pub no_wrap : get_packet_size p + 7 < 2 ^ 32

pub padded_blocks :
    (p : List ℕ)
    → IsPadded p
    → (length p % 8 ≡ 0) × (8 ≤ length p) × (get_packet_size p ≤ length p) × (length p < 2 ^ 32)
unfolding round_packet
padded_blocks p k = (
  omega (arith, k.whole),
  omega (arith, k.header, k.whole),
  omega (arith, k.whole, k.no_wrap),
  omega (arith, k.whole, k.no_wrap),
)

-- Nothing is cut off if a whole number of blocks is wanted.
decrypt_blocks-whole :
    (zip : Zlib) (enc : Cipher) (buf : List ℕ) (de_size size nmax n : ℕ)
    → min size ((round_packet (get_packet_size buf) + 2 ^ 32 - de_size) % 2 ^ 32) ≡ n
    → n % 8 ≡ 0
    → decrypt_blocks zip enc buf de_size size nmax ≡ (
        if leb 8 n
        then check_packet zip (encdec_at enc false de_size n buf) (de_size + n) nmax
        else check_packet zip buf de_size nmax)
unfolding decrypt_blocks
decrypt_blocks-whole zip enc buf de_size size nmax n e m =
    ap (λ w. step w (if ltb 8 w then w / 8 * 8 else w)) e ∙ ap (step n) rounded
  where
    step : ℕ → ℕ → Got
    step w b =
        if leb 8 w
        then check_packet zip (encdec_at enc false de_size b buf) (de_size + b) nmax
        else check_packet zip buf de_size nmax

    rounded : (if ltb 8 n then n / 8 * 8 else n) ≡ n
    rounded = ground arith

apply_nil :
    (enc : Cipher) (b : Bool) (t : List ℕ)
    → IsCipher enc
    → length t ≡ 0
    → (apply enc b t ≡ []) × (t ≡ [])
apply_nil enc b t c h = (empty (apply enc b t) (c.length-apply b t ∙ h), empty t h)
  where
    empty : (xs : List ℕ) → length xs ≡ 0 → xs ≡ []
    empty [] e = refl
    empty (x ∷ xs) e = absurd (omega arith)

-- The first 8 bytes are in plain: the rest of the packet is decrypted, and nothing behind it.
pub decrypt_blocks-packet :
    (zip : Zlib) (enc : Cipher) (h t ys : List ℕ) (nmax : ℕ)
    → IsCipher enc
    → IsPadded (h ++ t)
    → length h ≡ 8
    → decrypt_blocks zip enc (h ++ (apply enc true t ++ ys)) 8 (length t + length ys) nmax
      ≡ check_packet zip (h ++ (t ++ ys)) (length (h ++ t)) nmax
decrypt_blocks-packet zip enc h t ys nmax c k eh =
    decrypt_blocks-whole zip enc (h ++ (apply enc true t ++ ys)) 8 (length t + length ys) nmax
      (length t) wanted blocks
    ∙ if_either (leb 8 (length t)) (λ _. ap₂ arrive plain (sym total))
        (λ short. ap₂ arrive (no_more short) (alone short))
  where
    arrive : List ℕ → ℕ → Got
    arrive b n = check_packet zip b n nmax

    same_size : get_packet_size (h ++ (apply enc true t ++ ys)) ≡ get_packet_size (h ++ t)
    same_size =
        get_packet_size-append h _ (omega arith) ∙ sym (get_packet_size-append h t (omega arith))

    total : length (h ++ t) ≡ 8 + length t
    total = length-append h t ∙ ap (λ n. n + length t) eh

    bounded : length (h ++ t) < 2 ^ 32
    bounded = (padded_blocks (h ++ t) k).3

    wanted :
        min
          (length t + length ys)
          ((round_packet (get_packet_size (h ++ (apply enc true t ++ ys))) + 2 ^ 32 - 8) % 2 ^ 32)
        ≡ length t
    wanted = omega (arith, ap round_packet same_size, k.whole, total, bounded)

    blocks : length t % 8 ≡ 0
    blocks = omega (arith, (padded_blocks (h ++ t) k).0, total)

    plain : encdec_at enc false 8 (length t) (h ++ (apply enc true t ++ ys)) ≡ h ++ (t ++ ys)
    plain =
        encdec_at-append enc false h (apply enc true t) ys 8 (length t) c eh (c.length-apply true t)
        ∙ ap (λ u. h ++ (u ++ ys)) (c.inverse t blocks)

    no_more : leb 8 (length t) ≡ false → h ++ (apply enc true t ++ ys) ≡ h ++ (t ++ ys)
    no_more short = ap (λ u. h ++ (u ++ ys)) (nils.0 ∙ sym nils.1)
      where
        nils : (apply enc true t ≡ []) × (t ≡ [])
        nils = apply_nil enc true t c (ground (arith, blocks))

    alone : leb 8 (length t) ≡ false → 8 ≡ length (h ++ t)
    alone short = ground (arith, blocks, total)

-- A packet that was encrypted whole is decrypted whole, and nothing behind it.
getmsg2buf-parts :
    (zip : Zlib) (enc : Cipher) (h t ys : List ℕ) (nmax : ℕ)
    → IsCipher enc
    → IsPadded (h ++ t)
    → length h ≡ 8
    → 2 ≤ nmax
    → getmsg2buf zip enc (apply enc true h ++ (apply enc true t ++ ys)) 0 (pos nmax)
      ≡ check_packet zip (h ++ (t ++ ys)) (length (h ++ t)) nmax
unfolding getmsg2buf
getmsg2buf-parts zip enc h t ys nmax c k eh le =
    if_false {b = length buf == 0} _ _ (ground (arith, total))
    ∙ if_false {b = ltb (length buf) 0 || ltb nmax 2} _ _ (ground arith)
    ∙ if_false {b = ltb (length buf - 0) 8} _ _ (ground (arith, total))
    ∙ ap₂ (λ b n. decrypt_blocks zip enc b 8 n nmax) plain behind
    ∙ decrypt_blocks-packet zip enc h t ys nmax c k eh
  where
    buf : List ℕ
    buf = apply enc true h ++ (apply enc true t ++ ys)

    total : length (apply enc true h ++ (apply enc true t ++ ys)) ≡ 8 + (length t + length ys)
    total = omega (
      arith,
      length-append (apply enc true h) (apply enc true t ++ ys),
      length-append (apply enc true t) ys,
      c.length-apply true h,
      c.length-apply true t,
      eh,
    )

    behind : length buf - 0 - 8 ≡ length t + length ys
    behind = omega (arith, total)

    plain :
        encdec_at enc false 0 8 (apply enc true h ++ (apply enc true t ++ ys))
        ≡ h ++ (apply enc true t ++ ys)
    plain =
        encdec_at-append enc false [] (apply enc true h) (apply enc true t ++ ys) 0 8 c refl
          (c.length-apply true h ∙ eh)
        ∙ ap (λ u. u ++ (apply enc true t ++ ys)) (c.inverse h (ap (λ n. n % 8) eh))

pub getmsg2buf-encrypted :
    (zip : Zlib) (enc : Cipher) (p ys : List ℕ) (nmax : ℕ)
    → IsCipher enc
    → IsPadded p
    → 2 ≤ nmax
    → getmsg2buf zip enc (apply enc true p ++ ys) 0 (pos nmax)
      ≡ check_packet zip (p ++ ys) (length p) nmax
getmsg2buf-encrypted zip enc p ys nmax c k le =
    ap (λ b. getmsg2buf zip enc b 0 (pos nmax)) split
    ∙ getmsg2buf-parts zip enc (take 8 p) (drop 8 p) ys nmax c (rw whole k) eight le
    ∙ ap₂ (λ b n. check_packet zip b n nmax)
        (sym (append_assoc (take 8 p) (drop 8 p) ys) ∙ ap (λ u. u ++ ys) whole) (ap length whole)
  where
    whole : take 8 p ++ drop 8 p ≡ p
    whole = take-append-drop 8 p

    eight : length (take 8 p) ≡ 8
    eight = omega (arith, length-take 8 p, (padded_blocks p k).1)

    split : apply enc true p ++ ys ≡ apply enc true (take 8 p) ++ (apply enc true (drop 8 p) ++ ys)
    split =
        ap (λ u. apply enc true u ++ ys) (sym whole)
        ∙ ap (λ u. u ++ ys) (c.apply-append true (take 8 p) (drop 8 p) (ap (λ n. n % 8) eight))
        ∙ append_assoc (apply enc true (take 8 p)) (apply enc true (drop 8 p)) ys

-- The end of `getmsg2buf` at a packet that is decrypted and fits the buffer of the caller.
pub check_packet-plain :
    (zip : Zlib) (p ys : List ℕ) (nmax : ℕ)
    → IsPadded p
    → size_field (p ++ ys) ≤ nmax
    → check_packet zip (p ++ ys) (length p) nmax ≡ take_packet zip (p ++ ys) (length p) nmax
unfolding check_packet is_full_packet
check_packet-plain zip p ys nmax k fits =
    if_false {b = ltb nmax (size_field (p ++ ys))} _ _ (ground arith)
    ∙ if_false {b = not (leb (get_packet_size (p ++ ys)) (length p))} _ _
        (ground (arith, get_packet_size-append p ys k.header, (padded_blocks p k).2))

-- Such a packet is skipped with its padding, and the counters are those of what is behind it.
pub moved_on-plain :
    (p ys msg : List ℕ) (n : ℕ)
    → IsPadded p
    → length (p ++ ys) < 2 ^ 32
    → moved_on (p ++ ys) (length p) (pos n) msg ≡ record {
      code = pos n;
      buf = p ++ ys;
      moved = length p;
      nbuflen = length ys;
      de_size = 0;
      msg = msg;
    }
moved_on-plain p ys msg n k lt =
    ap₂
      (λ (f : ℕ × ℕ) d. record {
        code = pos n;
        buf = p ++ ys;
        moved = f.0;
        nbuflen = f.1;
        de_size = d;
        msg = msg;
      })
      (ap₂ (λ a b. (a, b)) skipped left) none_left
  where
    skipped : round_packet (get_packet_size (p ++ ys)) ≡ length p
    skipped = ap round_packet (get_packet_size-append p ys k.header) ∙ sym k.whole

    left :
        (length (p ++ ys) + 2 ^ 32 - round_packet (get_packet_size (p ++ ys))) % 2 ^ 32 ≡ length ys
    left = omega (arith, skipped, lt, length-append p ys)

    none_left : (length p + 2 ^ 32 - round_packet (get_packet_size (p ++ ys))) % 2 ^ 32 ≡ 0
    none_left = omega (arith, skipped)
