-- ===== src/Serialize/MsgPack/GetCmd.antt =====
-- src/serialize/msgpack.cpp: `packet_getcmd` takes a message off the front of a LoopBuf, in whose
-- array it is decrypted.
use dolphin_core.Base.{ℕ, ◌+◌, ◌≤◌, ◌≡◌, refl, ap, ◌∙◌, arith}
use dolphin_core.Base.{
  List, [], ◌++◌, ◌==◌, if◌then◌else◌, ltb, length, take, drop, ℤ, pos, pos_part,
}
use dolphin_core.Base.{
  take-append_eq, drop-append_eq, length-append, length-take, if_true, if_false,
}
use dolphin_core.Mem.LoopBuf.{LoopBuf, copy_to, set_read_ptr}
use dolphin_core.Mem.LoopBuf.Fifo
use dolphin_core.Mem.LoopBuf.Bounds.{IsValid, length-copy_to, length-readable, set_read_ptr-IsValid}
use dolphin_core.Mem.LoopBuf.Stream.{stream, set_read_ptr_refines}
use dolphin_core.Serialize.MsgPack.{Cipher, Zlib, Got, getmsg2buf}
use dolphin_core.Serialize.MsgPack.RoundTrip.{ReadsBack}

pub record Cmd : Type 0 where
  pub code : ℤ
  pub loop_buf : LoopBuf
  pub de_size : ℕ
  pub msg : List ℕ

-- What `getmsg2buf` writes into the readable bytes.
abbrev pub overwritten : LoopBuf → List ℕ → LoopBuf
overwritten b bytes = record b { buf = copy_to b.ptr_read bytes b.buf }

abbrev pub after_get : LoopBuf → Got → Cmd
after_get b g =
    if ltb 0 (pos_part g.code)
    then record {
      code = g.code;
      loop_buf = (set_read_ptr (overwritten b g.buf) (pos g.moved)).1;
      de_size = g.de_size;
      msg = g.msg;
    }
    else record { code = g.code; loop_buf = overwritten b g.buf; de_size = g.de_size; msg = g.msg }

unfoldable pub packet_getcmd : Zlib → Cipher → LoopBuf → ℕ → ℤ → Cmd
packet_getcmd zip enc b de_size nmsgmaxlen =
    if b.read_left == 0
    then record { code = pos 0; loop_buf = b; de_size = de_size; msg = [] }
    else after_get b
        (getmsg2buf zip enc (take b.read_left (drop b.ptr_read b.buf)) de_size nmsgmaxlen)

overwritten-IsValid :
    {b : LoopBuf} (bytes : List ℕ)
    → IsValid b
    → length bytes ≡ b.read_left
    → IsValid (overwritten b bytes)
overwritten-IsValid {b} bytes v e = omega (arith, length-copy_to b.ptr_read bytes b.buf)

stream-overwritten :
    {b : LoopBuf} (bytes : List ℕ)
    → IsValid b
    → length bytes ≡ b.read_left
    → stream (overwritten b bytes) ≡ bytes
unfolding copy_to
stream-overwritten {b} bytes v e =
    ap (take b.read_left) (
      drop-append_eq b.ptr_read (take b.ptr_read b.buf)
        (bytes ++ drop (b.ptr_read + length bytes) b.buf)
        (omega (arith, length-take b.ptr_read b.buf)))
    ∙ take-append_eq b.read_left bytes (drop (b.ptr_read + length bytes) b.buf) e

advanced : (n : ℕ) (q : List ℕ) → (Fifo.advance_by q (pos n)).1 ≡ drop n q
unfolding Fifo.advance_by
advanced n q = refl

-- If the unread bytes of a valid LoopBuf start with a packed message, packet_getcmd gives this
-- message, and the LoopBuf is valid afterwards and its unread bytes are those behind the packet.
pub packet_getcmd_lem :
    (zip : Zlib) (enc : Cipher) (b : LoopBuf) (pin out ys : List ℕ) (n nmax : ℕ)
    → IsValid b
    → ReadsBack zip enc pin out ys n nmax
    → stream b ≡ take n out ++ ys
    → 1 ≤ length pin
    → 1 ≤ n
    → let r = packet_getcmd zip enc b 0 (pos nmax) in
      (r.code ≡ pos (length pin))
      × (r.msg ≡ pin)
      × (r.de_size ≡ 0)
      × IsValid r.loop_buf
      × (stream r.loop_buf ≡ ys)
packet_getcmd_lem zip enc b pin out ys n nmax v k e some_in some_out = rw result (
  refl,
  refl,
  refl,
  set_read_ptr-IsValid (pos n) valid,
  (set_read_ptr_refines (pos n) valid).1
      ∙ advanced n (stream (overwritten b all))
      ∙ ap (drop n) (stream-overwritten all v size)
      ∙ drop-append_eq n k.plain ys k.plain_size,
)
  where
    all : List ℕ
    all = k.plain ++ ys

    size : length all ≡ b.read_left
    size = omega (
      arith,
      length-append k.plain ys,
      k.plain_size,
      k.packed_size,
      length-append (take n out) ys,
      ap length e,
      length-readable v,
    )

    valid : IsValid (overwritten b all)
    valid = overwritten-IsValid all v size

    result : packet_getcmd zip enc b 0 (pos nmax) ≡ record {
      code = pos (length pin);
      loop_buf = (set_read_ptr (overwritten b all) (pos n)).1;
      de_size = 0;
      msg = pin;
    }
    result =
        unfold packet_getcmd in
        (if_false {b = b.read_left == 0} _ _
            (ground (arith, size, length-append k.plain ys, k.plain_size))
          ∙ ap (λ s. after_get b (getmsg2buf zip enc s 0 (pos nmax))) e
          ∙ ap (after_get b) k.got
          ∙ if_true {b = ltb 0 (length pin)} _ _ (ground arith))
