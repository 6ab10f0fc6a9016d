-- ===== src/Serialize/MsgPack/Tests.antt =====
-- Runs of packetbuf and getmsg2buf, and the theorems about them with a toy cipher and a toy codec.
use Prim.Native.Nat.{bit_xor}
use dolphin_core.Base.{ℕ, zero, suc, ◌≡◌, refl, ap, ap₂, ◌∙◌, arith, true, false}
use dolphin_core.Base.{List, [], ◌∷◌, ◌++◌, none, some, leb, length, drop, pos}
use dolphin_core.Base.Bits.{bit_xor_assoc, bit_xor_self, bit_xor-zero}
use dolphin_core.Mem.LoopBuf.{LoopBuf}
use dolphin_core.Mem.LoopBuf.Bounds.{IsValid}
use dolphin_core.Mem.LoopBuf.Stream.{stream}
use dolphin_core.Serialize.MsgPack.GetCmd.{packet_getcmd}
use dolphin_core.Serialize.MsgPack.Received.{raw, packed_before, packet_getcmd-packetbuf}
use dolphin_core.Serialize.Packet.{round_packet, is_compress, init, get_packet_size, set_size, cmd}
use dolphin_core.Serialize.MsgPack.{Cipher, Zlib, packetbuf}
use dolphin_core.Serialize.MsgPack.Frame.{IsCipher, apply}
use dolphin_core.Serialize.MsgPack.Body.{IsZlib}
use dolphin_core.Serialize.MsgPack.RoundTrip.{ReadsBack, raw_round_trip, zipped_round_trip}

abbrev masked : List ℕ → List ℕ
masked [] = []
masked (x ∷ xs) = bit_xor x 90 ∷ masked xs

abbrev toy : Cipher
toy = some (λ b xs. masked xs)

length-masked : (xs : List ℕ) → length (masked xs) ≡ length xs
length-masked [] = refl
length-masked (x ∷ xs) = ap suc (length-masked xs)

masked-append : (xs ys : List ℕ) → masked (xs ++ ys) ≡ masked xs ++ masked ys
masked-append [] ys = refl
masked-append (x ∷ xs) ys = ap (◌∷◌ (bit_xor x 90)) (masked-append xs ys)

masked-masked : (xs : List ℕ) → masked (masked xs) ≡ xs
masked-masked [] = refl
masked-masked (x ∷ xs) =
    ap₂ ◌∷◌ (bit_xor_assoc x 90 90 ∙ ap (bit_xor x) (bit_xor_self 90) ∙ bit_xor-zero x)
      (masked-masked xs)

toy-IsCipher : IsCipher toy
unfolding apply
toy-IsCipher = record {
  length-apply = λ b xs. length-masked xs;
  apply-append = λ b xs ys h. masked-append xs ys;
  inverse = λ xs h. masked-masked xs;
}

-- A codec that stores, behind a mark.
abbrev pub stored : Zlib
stored = record {
  compress = λ level xs n. (leb (suc (length xs)) n, 120 ∷ xs);
  uncompress = λ z n. (leb (length (drop 1 z)) n, drop 1 z);
}

pub stored-IsZlib : IsZlib stored
stored-IsZlib = record { inverse = λ level xs n m h fits. ap (λ b. (b, xs)) (ground arith) }

abbrev pub filled : ℕ → List ℕ
filled zero = []
filled (suc n) = 7 ∷ filled n

abbrev pub message : List ℕ
message = 10 ∷ 20 ∷ 30 ∷ []

message_packed :
    packetbuf stored none (some message) (some (filled 16)) (pos 0) true
    ≡ (pos 16, 3 ∷ 0 ∷ 0 ∷ 0 ∷ 0 ∷ 64 ∷ 10 ∷ 20 ∷ 30 ∷ 0 ∷ filled 6)
unfolding packetbuf round_packet is_compress init get_packet_size set_size cmd
message_packed = refl

-- An array of 9 bytes, which is large enough for the check, is written at its tenth.
overrun : length (packetbuf stored none (some (5 ∷ [])) (some (filled 9)) (pos 0) false).1 ≡ 10
unfolding packetbuf round_packet is_compress init get_packet_size set_size cmd
overrun = refl

raw_round_trip_example :
    ((packetbuf stored toy (some message) (some (filled 16)) (pos 0) true).0 ≡ pos (round_packet 9))
    × ReadsBack stored toy message
        (packetbuf stored toy (some message) (some (filled 16)) (pos 0) true).1
        (1 ∷ 2 ∷ [])
        (round_packet 9)
        100
raw_round_trip_example =
    raw_round_trip stored toy message (filled 16) (1 ∷ 2 ∷ []) (pos 0) true 100 toy-IsCipher refl
      (omega arith) (omega arith) (omega arith) (omega arith) (omega arith)

zipped_round_trip_example :
    ((packetbuf stored toy (some (filled 60)) (some (filled 80)) (pos 6) false).0
      ≡ pos (round_packet 71))
    × ReadsBack stored toy
        (filled 60)
        (packetbuf stored toy (some (filled 60)) (some (filled 80)) (pos 6) false).1
        (1 ∷ 2 ∷ [])
        (round_packet 71)
        100
zipped_round_trip_example =
    zipped_round_trip stored toy (filled 60) (filled 80) (1 ∷ 2 ∷ []) (pos 6) false 100
      (120 ∷ filled 60) toy-IsCipher stored-IsZlib refl refl (omega arith) (omega arith)
      (omega arith) (omega arith) (omega arith)

none-IsCipher : IsCipher none
unfolding apply
none-IsCipher = record {
  length-apply = λ b xs. refl;
  apply-append = λ b xs ys h. refl;
  inverse = λ xs h. refl;
}

-- The packed message and two bytes more in a buffer that is full.
abbrev arrived : LoopBuf
arrived = record {
  buf = 3 ∷ 0 ∷ 0 ∷ 0 ∷ 0 ∷ 64 ∷ 10 ∷ 20 ∷ 30 ∷ 0 ∷ (filled 6 ++ (1 ∷ 2 ∷ []));
  all_size = 18;
  perpend_left = 0;
  read_left = 18;
  writ_left = 0;
  ptr_read = 0;
  ptr_write = 18;
}

arrived-IsValid : IsValid arrived
arrived-IsValid = omega arith

arrived-stream :
    stream arrived ≡ packed_before stored none message (filled 16) (1 ∷ 2 ∷ []) (pos 0) true
unfolding packetbuf round_packet is_compress init get_packet_size set_size cmd
arrived-stream = refl

packet_getcmd-packetbuf_example :
    let r = packet_getcmd stored none arrived 0 (pos 100) in
    (r.code ≡ pos 3)
    × (r.msg ≡ message)
    × (r.de_size ≡ 0)
    × IsValid r.loop_buf
    × (stream r.loop_buf ≡ 1 ∷ 2 ∷ [])
packet_getcmd-packetbuf_example =
    packet_getcmd-packetbuf stored none message (filled 16) (1 ∷ 2 ∷ []) (pos 0) true arrived 100
      arrived-IsValid none-IsCipher stored-IsZlib (raw refl (omega arith)) (omega arith)
      (omega arith) (omega arith) (omega arith) arrived-stream
