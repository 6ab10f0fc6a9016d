-- ===== src/Mem/LoopList/Tests.antt =====
-- Runs of CLoopList, and the theorems about it at concrete inputs.
use dolphin_core.Base.{
  ℕ, zero, suc, ◌≡◌, refl, arith, true, some, [], ◌∷◌, get_elem?, ◌<◌, ◌+◌, ◌%◌,
}
use dolphin_core.Mem.LoopList.{LoopList, push_back, pop_front, merge}
use dolphin_core.Mem.LoopList.Queue.{Holds, push_back_refines, pop_front_refines}
use dolphin_core.Mem.LoopList.Merge.{merge_refines}

-- 8 and 9 round the end of an array of three.
abbrev wrapped : LoopList ℕ
wrapped = record { head = 2; tail = 1; size = 2; capacity = 3; buf = 9 ∷ 7 ∷ 8 ∷ [] }

abbrev waiting : LoopList ℕ
waiting = record { head = 0; tail = 2; size = 2; capacity = 4; buf = 4 ∷ 5 ∷ 0 ∷ 0 ∷ [] }

wrapped-Holds : Holds wrapped (8 ∷ 9 ∷ [])
wrapped-Holds = record {
  storage = refl;
  small = omega arith;
  head_in = omega arith;
  size_in = omega arith;
  tail_at = refl;
  count = refl;
  cells = cells;
}
  where
    cells : (i : ℕ) → i < 2 → get_elem? wrapped.buf ((2 + i) % 3) ≡ get_elem? (8 ∷ 9 ∷ []) i
    cells zero h = refl
    cells (suc zero) h = refl
    cells (suc (suc i)) h = absurd (omega arith)

waiting-Holds : Holds waiting (4 ∷ 5 ∷ [])
waiting-Holds = record {
  storage = refl;
  small = omega arith;
  head_in = omega arith;
  size_in = omega arith;
  tail_at = refl;
  count = refl;
  cells = cells;
}
  where
    cells : (i : ℕ) → i < 2 → get_elem? waiting.buf ((0 + i) % 4) ≡ get_elem? (4 ∷ 5 ∷ []) i
    cells zero h = refl
    cells (suc zero) h = refl
    cells (suc (suc i)) h = absurd (omega arith)

merge_one : (merge wrapped waiting).1.0.buf ≡ 9 ∷ 4 ∷ 8 ∷ []
unfolding merge
merge_one = refl

push_back_refines_example :
    ((push_back wrapped 6).0 ≡ true) × Holds (push_back wrapped 6).1 (8 ∷ 9 ∷ 6 ∷ [])
push_back_refines_example = push_back_refines 6 wrapped-Holds

pop_front_refines_example : ((pop_front wrapped).0 ≡ some 8) × Holds (pop_front wrapped).1 (9 ∷ [])
pop_front_refines_example = pop_front_refines (8 ∷ 9 ∷ []) wrapped-Holds

merge_refines_example :
    let out = merge wrapped waiting in
    (out.0 ≡ true) × Holds out.1.0 (8 ∷ 9 ∷ 4 ∷ []) × Holds out.1.1 (5 ∷ [])
merge_refines_example = merge_refines (8 ∷ 9 ∷ []) (4 ∷ 5 ∷ []) wrapped-Holds waiting-Holds
