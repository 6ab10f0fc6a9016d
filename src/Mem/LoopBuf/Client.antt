-- ===== src/Mem/LoopBuf/Client.antt =====
-- A client's calls of LoopBuf in order.
use dolphin_core.Base.{ℕ, ◌≡◌, refl, arith, pos, take}
use dolphin_core.Base.{List, [], ◌∷◌, Option, none, some, length, drop, take_all}
use dolphin_core.Mem.LoopBuf.{LoopBuf, max_resize, put_data, set_read_ptr, get_read_ptr}
use dolphin_core.Mem.LoopBuf.Fifo
use dolphin_core.Mem.LoopBuf.Fifo.{Op, put, peek, advance, Reply, count, bytes}
use dolphin_core.Mem.LoopBuf.Bounds.{
  IsValid, put_data-IsValid, set_read_ptr-IsValid, length-readable,
}
use dolphin_core.Mem.LoopBuf.Stream.{stream, put_data_refines, set_read_ptr_refines}

-- The bytes behind `getReadPtr`, `getReadDataLen` of them.
pub readable : LoopBuf → Option (List ℕ)
readable b = elim (get_read_ptr b) [
  | none ↦ none
  | some at ↦ some (take b.read_left (drop at b.buf))
]

pub run : (ℕ → ℕ) → LoopBuf → List Op → List Reply
run junk b [] = []
run junk b (put xs ∷ ops) =
    let (n, b') = put_data junk b (some xs) (pos (length xs)) in count n ∷ run junk b' ops
run junk b (peek ∷ ops) = bytes (readable b) ∷ run junk b ops
run junk b (advance len ∷ ops) = let (n, b') = set_read_ptr b len in count n ∷ run junk b' ops

readable-eq-front : {b : LoopBuf} → IsValid b → readable b ≡ Fifo.front (stream b)
unfolding readable get_read_ptr Fifo.front
readable-eq-front {b} v = ground (arith, length-readable v)

-- No sequence of calls tells a valid LoopBuf from the queue of its unread bytes, bounded by
-- 20 MB, whatever uninitialised memory holds.
pub run_refines :
    (junk : ℕ → ℕ) (ops : List Op) {b : LoopBuf}
    → IsValid b
    → run junk b ops ≡ Fifo.run max_resize (stream b) ops
unfolding run Fifo.run
run_refines junk [] v = refl
run_refines junk (put xs ∷ ops) {b} v = ground (
  arith,
  take_all (length xs) xs,
  put_data_refines junk xs (pos (length xs)) (omega arith) v,
  run_refines junk ops (put_data-IsValid junk xs (pos (length xs)) (omega arith) v),
)
run_refines junk (peek ∷ ops) {b} v = ground (arith, readable-eq-front v, run_refines junk ops v)
run_refines junk (advance len ∷ ops) v =
    ground (arith, set_read_ptr_refines len v, run_refines junk ops (set_read_ptr-IsValid len v))
