-- ===== src/Mem/MallocState.antt =====
-- src/mem/frameallocator.cpp: mallocState, which hands out a region of memory from its beginning to
-- its end, and takes from the system what does not fit. Addresses are numbers, NULL is 0.
pub mod Blocks
mod Tests
use dolphin_core.Base.{ℕ, ◌+◌, ◌-◌, ◌%◌, ◌^◌, Bool, true, false, not, ◌&&◌, List, [], ◌∷◌, ◌++◌}
use dolphin_core.Base.{ltb, leb, ◌==◌, if◌then◌else◌, ℤ, pos, negsuc, int32, ltb_int}

pub record MallocState : Type 0 where
  pub beg : ℕ
  pub stop : ℕ
  pub cur : ℕ
  pub last : ℕ
  pub max_size : ℤ
  pub max_frame_allocation : ℤ

-- A pointer and an `int`; the difference of two pointers as an `int`.
abbrev pub moved_by : ℕ → ℤ → ℕ
moved_by p (pos n) = (p + n) % 2 ^ 64
moved_by p (negsuc n) = (p + 2 ^ 64 - n - 1) % 2 ^ 64

abbrev pub distance : ℕ → ℕ → ℤ
distance p q = int32 (p + 2 ^ 64 - q)

-- Init with a beginning and an end, with a size, and from another.
unfoldable pub init_range : ℕ → ℕ → MallocState
unfolding int32
init_range beg stop = record {
  beg = beg;
  stop = stop;
  cur = beg;
  last = 0;
  max_size = distance stop beg;
  max_frame_allocation = pos 0;
}

unfoldable pub init_size : ℕ → ℤ → MallocState
init_size beg size = record {
  beg = beg;
  stop = moved_by beg size;
  cur = beg;
  last = 0;
  max_size = size;
  max_frame_allocation = pos 0;
}

unfoldable pub get_cur_size : MallocState → ℤ
unfolding int32
get_cur_size s = distance s.cur s.beg

unfoldable pub init_from : MallocState → MallocState
unfolding get_cur_size
init_from other = record {
  beg = other.beg;
  stop = moved_by other.beg other.max_size;
  cur = moved_by other.beg (get_cur_size other);
  last = other.last;
  max_size = other.max_size;
  max_frame_allocation = other.max_frame_allocation;
}

-- Uninit, which the constructor without arguments calls.
unfoldable pub uninit : MallocState
uninit = record {
  beg = 0;
  stop = 0;
  cur = 0;
  last = 0;
  max_size = pos 0;
  max_frame_allocation = pos 0;
}

unfoldable pub reset : MallocState → MallocState
reset s = record s { cur = s.beg; last = 0; max_frame_allocation = pos 0 }

-- The largest use so far.
abbrev pub most_used : ℤ → MallocState → ℤ
most_used size s = if ltb_int s.max_frame_allocation size then size else s.max_frame_allocation

-- `alloc`; `malloc` is the system's answer.
unfoldable pub alloc : (ℕ → ℕ) → ℕ → MallocState → ℕ × MallocState
unfolding int32
alloc malloc size s =
    let next = (s.cur + size) % 2 ^ 64 in
    if not (s.beg == 0) && ltb next s.stop
    then (
      s.cur,
      record s {
        last = s.cur;
        cur = next;
        max_frame_allocation = most_used (distance next s.beg) s;
      },
    )
    else (malloc size, s)

unfoldable pub issysmalloc : ℕ → MallocState → Bool
issysmalloc p s = not (leb s.beg p && ltb p s.stop)

-- `_free`: what it gives back to the system.
unfoldable pub free_block : ℕ → MallocState → List ℕ
free_block p s = if leb s.beg p && ltb p s.stop then [] else if p == 0 then [] else p ∷ []

-- setCurSize; a negative mark is not taken.
unfoldable pub set_cur_size : ℤ → MallocState → MallocState
set_cur_size (pos n) s =
    if ltb_int (pos n) s.max_size then record s { cur = moved_by s.beg (pos n) } else s
set_cur_size (negsuc n) s = s
