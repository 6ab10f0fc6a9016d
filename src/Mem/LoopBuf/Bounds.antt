-- ===== src/Mem/LoopBuf/Bounds.antt =====
-- The counters of LoopBuf and its pointers agree, and every copy stays inside its array.
use dolphin_core.Base.{ℕ, zero, suc, ◌+◌, ◌≤◌, min, ◌≡◌, refl, ap, arith}
use dolphin_core.Base.{some, List, ◌++◌, ℤ, pos_part, length, take, drop}
use dolphin_core.Base.{length-append, length-take, length-drop}
use dolphin_core.Mem.LoopBuf.{LoopBuf, max_resize, copy_to, new_array, create, new_size}
use dolphin_core.Mem.LoopBuf.{put_right_data, restructuring_data, resize_new_all_data, make_room}
use dolphin_core.Mem.LoopBuf.{put_data, set_read_ptr}

-- The three blocks of the header's picture fill the array, and the pointers stand between them.
pub record IsValid (b : LoopBuf) : Type 0 where
  pub storage : length b.buf ≡ b.all_size
  pub blocks : b.perpend_left + b.read_left + b.writ_left ≡ b.all_size
  pub at_read : b.ptr_read ≡ b.perpend_left
  pub at_write : b.ptr_write ≡ b.ptr_read + b.read_left
  pub limited : b.all_size ≤ max_resize

pub length-copy_to :
    (at : ℕ) (src xs : List ℕ)
    → at + length src ≤ length xs
    → length (copy_to at src xs) ≡ length xs
unfolding copy_to
length-copy_to at src xs h = omega (
  arith,
  length-append (take at xs) (src ++ drop (at + length src) xs),
  length-append src (drop (at + length src) xs),
  length-take at xs,
  length-drop (at + length src) xs,
)

pub length-new_array : (junk : ℕ → ℕ) (n : ℕ) → length (new_array junk n) ≡ n
unfolding new_array
length-new_array junk zero = refl
length-new_array junk (suc n) = ap suc (length-new_array junk n)

pub new_size_bounds :
    (all_size n : ℕ)
    → all_size ≤ max_resize
    → (new_size all_size n ≤ max_resize)
      × (min max_resize (all_size + n) ≤ new_size all_size n)
      × (all_size ≤ new_size all_size n)
unfolding new_size
new_size_bounds all_size n h = ground arith

-- The bytes that `memmove` and `memcpy` move to the front.
pub length-readable :
    {b : LoopBuf} → IsValid b → length (take b.read_left (drop b.ptr_read b.buf)) ≡ b.read_left
length-readable {b} v =
    omega (arith, length-take b.read_left (drop b.ptr_read b.buf), length-drop b.ptr_read b.buf)

-- A constructor call within the limit gives a valid buffer.
pub create-IsValid : (size : ℕ) → size ≤ max_resize → IsValid (create size)
unfolding create
create-IsValid size h = omega (arith, length-new_array (λ _. 0) size)

pub restructuring_data-IsValid : {b : LoopBuf} → IsValid b → IsValid (restructuring_data b)
unfolding restructuring_data
restructuring_data-IsValid {b} v =
    omega
      (arith, length-readable v, length-copy_to 0 (take b.read_left (drop b.ptr_read b.buf)) b.buf)

pub resize-IsValid :
    (junk : ℕ → ℕ) {b : LoopBuf} (n : ℕ) → IsValid b → IsValid (resize_new_all_data junk b n)
unfolding resize_new_all_data
resize-IsValid junk {b} n v = omega (
  arith,
  length-readable v,
  new_size_bounds b.all_size n v.limited,
  length-new_array junk (new_size b.all_size n),
  length-copy_to 0 (take b.read_left (drop b.ptr_read b.buf))
      (new_array junk (new_size b.all_size n)),
)

pub make_room-IsValid :
    (junk : ℕ → ℕ) {b : LoopBuf} (n : ℕ) → IsValid b → IsValid (make_room junk b n)
unfolding make_room
make_room-IsValid junk n v = ground (arith, restructuring_data-IsValid v, resize-IsValid junk n v)

pub put_right_data-IsValid :
    {b : LoopBuf} (p : List ℕ) (len : ℤ)
    → pos_part len ≤ length p
    → IsValid b
    → IsValid (put_right_data b (some p) len).1
unfolding put_right_data
put_right_data-IsValid {b} p len h v =
    ground (
      arith,
      length-take (pos_part len) p,
      length-copy_to b.ptr_write (take (pos_part len) p) b.buf,
    )

-- `putData` keeps the invariant, also where it refuses.
pub put_data-IsValid :
    (junk : ℕ → ℕ) {b : LoopBuf} (p : List ℕ) (len : ℤ)
    → pos_part len ≤ length p
    → IsValid b
    → IsValid (put_data junk b (some p) len).1
unfolding put_data
put_data-IsValid junk p len h v =
    ground (arith, put_right_data-IsValid p len h (make_room-IsValid junk (pos_part len) v))

-- `setReadPtr` keeps the invariant for every argument.
pub set_read_ptr-IsValid : {b : LoopBuf} (len : ℤ) → IsValid b → IsValid (set_read_ptr b len).1
unfolding set_read_ptr
set_read_ptr-IsValid len v = ground arith
