-- ===== src/Mem/LoopBuf/Stream.antt =====
-- What a client of LoopBuf sees: the bytes that were put and not yet read, in order.
use dolphin_core.Base.{refl, ℕ, ◌+◌, ◌-◌, ◌≤◌, ◌<◌, ◌≡◌, arith}
use dolphin_core.Base.{some, List, ◌++◌, ℤ, pos_part, length, take, drop}
use dolphin_core.Base.{length-append, length-take, length-drop, drop-append_le, take-append_eq}
use dolphin_core.Base.{drop-take, drop-drop, append_assoc}
use dolphin_core.Base.{drop_all, ltb, ◌*◌, ◌^◌, int32_small}
use dolphin_core.Mem.LoopBuf.{LoopBuf, max_resize, copy_to, new_array, new_size}
use dolphin_core.Mem.LoopBuf.{put_right_data, restructuring_data, resize_new_all_data, make_room}
use dolphin_core.Mem.LoopBuf.{put_data, set_read_ptr, moves_data}
use dolphin_core.Mem.LoopBuf.Fifo
use dolphin_core.Mem.LoopBuf.Bounds.{IsValid, length-readable, make_room-IsValid, new_size_bounds}

-- The block between `m_ptrRead` and `m_ptrWrite`.
abbrev pub stream : LoopBuf → List ℕ
stream b = take b.read_left (drop b.ptr_read b.buf)

-- A copy to the front is what stands there afterwards.
copy_to_front : (src xs : List ℕ) (n : ℕ) → length src ≡ n → take n (copy_to 0 src xs) ≡ src
unfolding copy_to
copy_to_front src xs n h = take-append_eq n src (drop (0 + length src) xs) h

-- A copy just behind a block extends the block.
copy_to_behind :
    (at n : ℕ) (src xs : List ℕ)
    → at + n + length src ≤ length xs
    → take (n + length src) (drop at (copy_to (at + n) src xs)) ≡ take n (drop at xs) ++ src
unfolding copy_to
copy_to_behind at n src xs h =
    rw
      (
        drop-append_le at (take (at + n) xs) (src ++ drop (at + n + length src) xs)
            (omega (arith, length-take (at + n) xs)),
        drop-take n at xs,
        ← append_assoc (take n (drop at xs)) src (drop (at + n + length src) xs),
      )
      (take-append_eq (n + length src) (take n (drop at xs) ++ src) (drop (at + n + length src) xs)
        count)
  where
    count : length (take n (drop at xs) ++ src) ≡ n + length src
    count = omega (
      arith,
      length-append (take n (drop at xs)) src,
      length-take n (drop at xs),
      length-drop at xs,
    )

-- Making room moves the readable bytes and loses none of them.
pub stream-make_room :
    (junk : ℕ → ℕ) {b : LoopBuf} (n : ℕ) → IsValid b → stream (make_room junk b n) ≡ stream b
unfolding make_room restructuring_data resize_new_all_data
stream-make_room junk {b} n v = ground (
  arith,
  copy_to_front (stream b) b.buf b.read_left (length-readable v),
  copy_to_front (stream b) (new_array junk (new_size b.all_size n)) b.read_left (length-readable v),
)

moves_data_small :
    (b : LoopBuf) (n : ℕ) → n < 2 ^ 30 → moves_data b n ≡ ltb (n * 2) (b.writ_left + b.perpend_left)
unfolding moves_data
moves_data_small b n h = rw (int32_small (n * 2) (omega arith)) refl

-- There is room for `n` bytes afterwards exactly if they fit the largest buffer.
pub make_room-fits :
    (junk : ℕ → ℕ) {b : LoopBuf} (n : ℕ)
    → IsValid b
    → (b.read_left + n ≤ max_resize → n ≤ (make_room junk b n).writ_left)
      × (n ≤ (make_room junk b n).writ_left → b.read_left + n ≤ max_resize)
unfolding make_room restructuring_data resize_new_all_data
make_room-fits junk {b} n v =
    ground (arith, new_size_bounds b.all_size n v.limited, moves_data_small b n)

pub read_left-make_room :
    (junk : ℕ → ℕ) (b : LoopBuf) (n : ℕ) → (make_room junk b n).read_left ≡ b.read_left
unfolding make_room restructuring_data resize_new_all_data
read_left-make_room junk b n = ground arith

put_right_data-stream :
    {b : LoopBuf} (p : List ℕ) (len : ℤ)
    → pos_part len ≤ length p
    → IsValid b
    → 0 < pos_part len
    → pos_part len ≤ b.writ_left
    → let (n, b') = put_right_data b (some p) len in
      (n ≡ pos_part len) × (stream b' ≡ stream b ++ take (pos_part len) p)
unfolding put_right_data
put_right_data-stream {b} p len h v pos room = ground (
  arith,
  length-take (pos_part len) p,
  copy_to_behind b.ptr_read b.read_left (take (pos_part len) p) b.buf,
)

put_right_data_full :
    (b : LoopBuf) (p : List ℕ) (len : ℤ)
    → b.writ_left < pos_part len
    → put_right_data b (some p) len ≡ (0, b)
unfolding put_right_data
put_right_data_full b p len h = ground arith

-- `putData` is the append of the bounded queue: it takes all `len` bytes and returns `len` if that
-- is positive and the unread bytes and the new ones fit the 20 MB limit together; otherwise it
-- returns 0 and the unread bytes stay as they were. `p` can be read for `len` bytes.
pub put_data_refines :
    (junk : ℕ → ℕ) {b : LoopBuf} (p : List ℕ) (len : ℤ)
    → pos_part len ≤ length p
    → IsValid b
    → let (n, b') = put_data junk b (some p) len in
      (n ≡ (Fifo.append max_resize (stream b) (take (pos_part len) p)).0)
      × (stream b' ≡ (Fifo.append max_resize (stream b) (take (pos_part len) p)).1)
unfolding put_data Fifo.append
put_data_refines junk {b} p len h v = ground (
  arith,
  length-readable v,
  length-take (pos_part len) p,
  stream-make_room junk (pos_part len) v,
  make_room-fits junk (pos_part len) v,
  put_right_data-stream p len h (make_room-IsValid junk (pos_part len) v),
  put_right_data_full (make_room junk b (pos_part len)) p len,
)

-- `setReadPtr` drops as many of the oldest bytes as it is told, and all if it is told more. It
-- returns the count, but 0 when no byte is left over.
pub set_read_ptr_refines :
    {b : LoopBuf} (len : ℤ)
    → IsValid b
    → let (n, b') = set_read_ptr b len in
      (n ≡ (Fifo.advance_by (stream b) len).0) × (stream b' ≡ (Fifo.advance_by (stream b) len).1)
unfolding set_read_ptr Fifo.advance_by
set_read_ptr_refines {b} len v = ground (
  arith,
  length-readable v,
  drop_all (pos_part len) (stream b),
  drop-take (b.read_left - pos_part len) (pos_part len) (drop b.ptr_read b.buf),
  drop-drop (pos_part len) b.ptr_read b.buf,
)
