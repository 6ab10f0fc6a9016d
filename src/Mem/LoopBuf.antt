-- ===== src/Mem/LoopBuf.antt =====
-- src/mem/loopBuf.cpp and the class LoopBuf of publish/include/mem/loopBuf.h: a growing byte
-- buffer whose readable bytes are contiguous. A pointer is its offset from `m_ptrBegin`.
pub mod Bounds
pub mod Stream
pub mod Client
pub mod Fifo
mod Tests
use dolphin_core.Base.{ℕ, zero, suc, ◌+◌, ◌-◌, ◌*◌, ◌/◌, ◌||◌}
use dolphin_core.Base.{Option, none, some, List, [], ◌∷◌, ◌++◌, ltb, leb, if◌then◌else◌}
use dolphin_core.Base.{ℤ, pos, pos_part, int32, ltb_int, Bool, length, take, drop}

-- `buf` is the array at `m_ptrBegin`.
pub record LoopBuf : Type 0 where
  pub buf : List ℕ
  pub all_size : ℕ
  pub perpend_left : ℕ
  pub read_left : ℕ
  pub writ_left : ℕ
  pub ptr_read : ℕ
  pub ptr_write : ℕ

-- DEF_LOOPBUF_MAX_RESIZE
abbrev pub max_resize : ℕ
max_resize = 1024 * 1024 * 20

-- ROUNDNUM2 at a power of two, on a number that is not negative.
pub round_num2 : ℕ → ℕ → ℕ
round_num2 value num = (value + (num - 1)) / num * num

-- `memcpy` or `memmove` of `src` to offset `at` of an array.
unfoldable pub copy_to : ℕ → List ℕ → List ℕ → List ℕ
copy_to at src xs = take at xs ++ (src ++ drop (at + length src) xs)

-- A new array of `n` bytes whose contents are whatever stood there: `junk i` at offset `i`.
pub new_array : (ℕ → ℕ) → ℕ → List ℕ
new_array junk zero = []
new_array junk (suc n) = junk n ∷ new_array junk n

-- The constructor clears the array.
pub create : ℕ → LoopBuf
unfolding new_array
create size = record {
  buf = new_array (λ _. 0) size;
  all_size = size;
  perpend_left = 0;
  read_left = 0;
  writ_left = size;
  ptr_read = 0;
  ptr_write = 0;
}

-- `p` is `none` for NULL, and else the bytes that may be read through it.
pub put_right_data : LoopBuf → Option (List ℕ) → ℤ → ℕ × LoopBuf
unfolding copy_to
put_right_data b none len = (0, b)
put_right_data b (some p) len =
    let n = pos_part len in
    if ltb b.writ_left n then (0, b) else if leb n 0 then (0, b) else (
      n,
      record b {
        buf = copy_to b.ptr_write (take n p) b.buf;
        ptr_write = b.ptr_write + n;
        writ_left = b.writ_left - n;
        read_left = b.read_left + n;
      },
    )

-- RestructuringData
pub restructuring_data : LoopBuf → LoopBuf
unfolding copy_to
restructuring_data b = record b {
  buf = copy_to 0 (take b.read_left (drop b.ptr_read b.buf)) b.buf;
  ptr_read = 0;
  ptr_write = b.read_left;
  perpend_left = 0;
  writ_left = b.all_size - b.read_left;
}

-- The size that `resizeNewAllData` asks for.
pub new_size : ℕ → ℕ → ℕ
unfolding round_num2
new_size all_size in_len =
    let all = round_num2 (all_size + in_len + all_size) 1024 in
    if ltb max_resize all then max_resize else all

pub resize_new_all_data : (ℕ → ℕ) → LoopBuf → ℕ → LoopBuf
unfolding copy_to new_size
resize_new_all_data junk b in_len =
    let all = new_size b.all_size in_len in
    record {
      buf = copy_to 0 (take b.read_left (drop b.ptr_read b.buf)) (new_array junk all);
      all_size = all;
      perpend_left = 0;
      read_left = b.read_left;
      writ_left = all - b.read_left;
      ptr_read = 0;
      ptr_write = b.read_left;
    }

-- The test of putData for moving the unread bytes to the front; `nLen*2` is an `int`.
pub moves_data : LoopBuf → ℕ → Bool
unfolding int32
moves_data b n = ltb_int (int32 (n * 2)) (pos (b.writ_left + b.perpend_left))

-- What `putData` does to make room for `n` bytes.
pub make_room : (ℕ → ℕ) → LoopBuf → ℕ → LoopBuf
unfolding moves_data
make_room junk b n =
    if ltb b.writ_left n
    then (if moves_data b n then restructuring_data b else resize_new_all_data junk b n)
    else b

pub put_data : (ℕ → ℕ) → LoopBuf → Option (List ℕ) → ℤ → ℕ × LoopBuf
unfolding make_room
put_data junk b none len = (0, b)
put_data junk b (some p) len =
    if leb (pos_part len) 0
    then (0, b)
    else put_right_data (make_room junk b (pos_part len)) (some p) len

pub get_read_data_len : LoopBuf → ℕ
get_read_data_len b = b.read_left

-- `none` is NULL, and else the offset of `m_ptrRead`.
pub get_read_ptr : LoopBuf → Option ℕ
get_read_ptr b = if leb b.read_left 0 then none else some b.ptr_read

pub set_read_ptr : LoopBuf → ℤ → ℕ × LoopBuf
set_read_ptr b len =
    let n = pos_part len in
    if leb n 0 || leb b.read_left 0
    then (0, b)
    else if leb b.read_left n
    then (
      0,
      record b {
        ptr_read = 0;
        ptr_write = 0;
        read_left = 0;
        writ_left = b.all_size;
        perpend_left = 0;
      },
    )
    else (
      n,
      record b {
        ptr_read = b.ptr_read + n;
        perpend_left = b.perpend_left + n;
        read_left = b.read_left - n;
      },
    )
