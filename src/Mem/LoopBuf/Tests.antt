-- ===== src/Mem/LoopBuf/Tests.antt =====
-- Runs of LoopBuf, and the theorems about it at concrete inputs.
use dolphin_core.Base.{ℕ, ◌+◌, ◌≡◌, refl, arith, List, [], ◌∷◌, none, some, pos, negsuc}
use dolphin_core.Mem.LoopBuf.{LoopBuf, max_resize, create, put_data, put_right_data, set_read_ptr}
use dolphin_core.Mem.LoopBuf.Fifo
use dolphin_core.Mem.LoopBuf.Fifo.{Op, put, peek, advance, count, bytes}
use dolphin_core.Mem.LoopBuf.Bounds.{IsValid, create-IsValid, put_data-IsValid}
use dolphin_core.Mem.LoopBuf.Stream.{stream, put_data_refines, set_read_ptr_refines}
use dolphin_core.Mem.LoopBuf.Client.{run, run_refines}

-- Uninitialised memory.
abbrev junk : ℕ → ℕ
junk i = i + 7

-- Eight bytes, of which two are read, three are readable and three are free.
abbrev used : LoopBuf
used = record {
  buf = 1 ∷ 2 ∷ 3 ∷ 4 ∷ 5 ∷ 0 ∷ 0 ∷ 0 ∷ [];
  all_size = 8;
  perpend_left = 2;
  read_left = 3;
  writ_left = 3;
  ptr_read = 2;
  ptr_write = 5;
}

used-IsValid : IsValid used
used-IsValid = omega arith

-- Four bytes make the array grow; the last advance reads all that is left.
abbrev script : List Op
script =
    put (6 ∷ 7 ∷ 8 ∷ 9 ∷ [])
    ∷ peek
    ∷ advance (pos 2)
    ∷ put (10 ∷ [])
    ∷ advance (negsuc 0)
    ∷ advance (pos 9)
    ∷ peek
    ∷ []

run-used :
    run junk used script
    ≡ count 4
      ∷ bytes (some (3 ∷ 4 ∷ 5 ∷ 6 ∷ 7 ∷ 8 ∷ 9 ∷ []))
      ∷ count 2
      ∷ count 1
      ∷ count 0
      ∷ count 0
      ∷ bytes none
      ∷ []
run-used = simp (run_refines junk script used-IsValid) (unfold Fifo.run in refl)

moves_up :
    (put_data junk
      (record used { perpend_left = 4; read_left = 1; ptr_read = 4 })
      (some (6 ∷ 7 ∷ 8 ∷ []))
      (pos 3)).1.ptr_write
    ≡ 8
unfolding put_data put_right_data
moves_up = refl

run_refines_example : run junk used script ≡ Fifo.run max_resize (3 ∷ 4 ∷ 5 ∷ []) script
run_refines_example = run_refines junk script used-IsValid

put_data_refines_example :
    let (n, b') = put_data junk used (some (6 ∷ 7 ∷ 8 ∷ 9 ∷ [])) (pos 4) in
    (n ≡ 4) × (stream b' ≡ 3 ∷ 4 ∷ 5 ∷ 6 ∷ 7 ∷ 8 ∷ 9 ∷ [])
unfolding Fifo.append
put_data_refines_example =
    put_data_refines junk (6 ∷ 7 ∷ 8 ∷ 9 ∷ []) (pos 4) (omega arith) used-IsValid

set_read_ptr_refines_example :
    let (n, b') = set_read_ptr used (pos 2) in (n ≡ 2) × (stream b' ≡ 5 ∷ [])
unfolding Fifo.advance_by
set_read_ptr_refines_example = set_read_ptr_refines (pos 2) used-IsValid

put_data-IsValid_example : IsValid (put_data junk used (some (6 ∷ 7 ∷ 8 ∷ 9 ∷ [])) (pos 4)).1
put_data-IsValid_example =
    put_data-IsValid junk (6 ∷ 7 ∷ 8 ∷ 9 ∷ []) (pos 4) (omega arith) used-IsValid

create-IsValid_example : IsValid (create 3072)
create-IsValid_example = create-IsValid 3072 (omega arith)
