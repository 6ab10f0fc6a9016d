-- ===== src/Mem/LoopBuf/Fifo.antt =====
-- What LoopBuf promises its clients: a bounded queue of bytes, oldest first.
use dolphin_core.Base.{ℕ, ◌+◌, List, [], ◌∷◌, ◌++◌, Option, none, some, ℤ, pos_part, length, drop}
use dolphin_core.Base.{ltb, leb, ◌&&◌, if◌then◌else◌}

-- The calls of a client. `put` hands over a whole array, `peek` reads all that is readable.
pub data Op : Type 0 where
  put : List ℕ → Op
  peek : Op
  advance : ℤ → Op

pub data Reply : Type 0 where
  count : ℕ → Reply
  bytes : Option (List ℕ) → Reply

module _ (limit : ℕ) where
  unfoldable pub append : List ℕ → List ℕ → ℕ × List ℕ
  append q xs =
      if ltb 0 (length xs) && leb (length q + length xs) limit then (length xs, q ++ xs) else (0, q)

-- The reply of `advance` is the count only if bytes are left over.
unfoldable pub advance_by : List ℕ → ℤ → ℕ × List ℕ
advance_by q len = let n = pos_part len in (if ltb n (length q) then n else 0, drop n q)

unfoldable pub front : List ℕ → Option (List ℕ)
front [] = none
front (x ∷ q) = some (x ∷ q)

unfoldable pub run : ℕ → List ℕ → List Op → List Reply
unfolding append advance_by front
run limit q [] = []
run limit q (put xs ∷ ops) = let (n, q') = append limit q xs in count n ∷ run limit q' ops
run limit q (peek ∷ ops) = bytes (front q) ∷ run limit q ops
run limit q (advance len ∷ ops) = let (n, q') = advance_by q len in count n ∷ run limit q' ops
