-- ===== src/Mem/LoopList.antt =====
-- The class template CLoopList of publish/include/mem/loopBuf.h: a ring of fixed capacity, which
-- src/sql/connPool.cpp uses for its caches. Its counters are `uint32_t`.
pub mod Queue
pub mod Merge
mod Tests
use dolphin_core.Base.{ℕ, zero, suc, ◌+◌, ◌-◌, ◌%◌, ◌^◌, Bool, true, false, ◌&&◌, not}
use dolphin_core.Base.{Option, none, some, List, [], ◌∷◌, ◌==◌, ltb, leb, if◌then◌else◌}
use dolphin_core.Base.{get_elem?, set}

module _ (A : Type 0) where
  pub record LoopList : Type 0 where
    pub head : ℕ
    pub tail : ℕ
    pub size : ℕ
    pub capacity : ℕ
    pub buf : List A

-- `uint32_t` arithmetic
abbrev pub u32 : ℕ → ℕ
u32 n = n % 2 ^ 32

-- _Default_Len_
abbrev pub default_len : ℕ
default_len = 1024

module _ {A : Type 0} where
  -- `storage n` stands for `new _Type[n]`.
  pub create : (ℕ → List A) → ℕ → LoopList A
  create storage bufsize =
      let n = if ltb bufsize 1 then default_len else bufsize in
      record { head = 0; tail = 0; size = 0; capacity = n; buf = storage n }

  abbrev pub is_full : LoopList A → Bool
  is_full l = leb l.capacity l.size

  abbrev pub is_empty : LoopList A → Bool
  is_empty l = l.size == 0

  -- The pointer that is returned is read at once by the callers: `none` is NULL.
  pub pop_front : LoopList A → Option A × LoopList A
  pop_front l = if is_empty l then (none, l) else (
    get_elem? l.buf l.head,
    record l { head = u32 (l.head + 1) % l.capacity; size = l.size - 1 },
  )

  pub push_back : LoopList A → A → Bool × LoopList A
  push_back l item = if is_full l then (false, l) else (
    true,
    record l {
      buf = set l.buf l.tail item;
      tail = u32 (l.tail + 1) % l.capacity;
      size = u32 (l.size + 1);
    },
  )

  pub clear : LoopList A → LoopList A
  clear l = record l { head = 0; tail = 0; size = 0 }

  -- `push_back(*p)`; NULL is not read, since the loop pops from a list that is not empty.
  pub push_popped : LoopList A → Option A → LoopList A
  unfolding push_back
  push_popped l none = l
  push_popped l (some item) = (push_back l item).1

  -- The rounds of `do … while` in `merge`: at most one for each element of `from`.
  pub merge_loop : ℕ → LoopList A → LoopList A → LoopList A × LoopList A
  unfolding push_popped pop_front
  merge_loop zero l from = (l, from)
  merge_loop (suc rounds) l from =
      let (item, from') = pop_front from in
      let l' = push_popped l item in
      let rest = merge_loop rounds l' from' in
      if not (is_full l') && not (is_empty from') then rest else (l', from')

  pub merge : LoopList A → LoopList A → Bool × (LoopList A × LoopList A)
  unfolding merge_loop
  merge l from =
      if is_full l
      then (false, (l, from))
      else if is_empty from
      then (false, (l, from))
      else (true, merge_loop from.size l from)
