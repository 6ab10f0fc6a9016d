-- ===== src/Mem/MallocState/Tests.antt =====
-- Three allocations in 16 bytes.
use dolphin_core.Base.{◌≡◌, refl, arith, true, [], ◌∷◌, pos}
use dolphin_core.Mem.MallocState.{MallocState, init_size, set_cur_size, get_cur_size, issysmalloc}
use dolphin_core.Mem.MallocState.Blocks.{IsRegion, alloc_all, Stacked, alloc_all-Stacked}

abbrev region : MallocState
region = record {
  beg = 64;
  stop = 80;
  cur = 64;
  last = 0;
  max_size = pos 16;
  max_frame_allocation = pos 0;
}

is_init : init_size 64 (pos 16) ≡ region
unfolding init_size
is_init = refl

outside_region : issysmalloc 512 region ≡ true
unfolding issysmalloc
outside_region = refl

alloc_all-Stacked_example :
    let r = alloc_all (λ n. 512) (8 ∷ 8 ∷ 4 ∷ []) region in
    Stacked region 64 r.0 r.1.cur
    × IsRegion r.1
    × ((set_cur_size (get_cur_size region) r.1).cur ≡ 64)
alloc_all-Stacked_example =
    alloc_all-Stacked (λ n. 512) (8 ∷ 8 ∷ 4 ∷ []) region
      (record {
        somewhere = omega arith;
        from_beg = omega arith;
        to_stop = omega arith;
        size = 16;
        size_lt = omega arith;
        sized = refl;
        ends = refl;
        small = omega arith;
      })
      (omega arith, (omega arith, (omega arith, tt))) (λ n. outside_region)
