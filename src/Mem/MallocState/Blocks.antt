-- ===== src/Mem/MallocState/Blocks.antt =====
-- The blocks that mallocState hands out: where they are, and how they are taken back.
use dolphin_core.Base.{
  ℕ, ◌+◌, ◌%◌, ◌^◌, ◌≤◌, ◌<◌, ◌≡◌, refl, ap, ◌∙◌, arith, true, false, not, ◌&&◌, List, [], ◌∷◌,
}
use dolphin_core.Base.{ltb, ◌==◌, if_elim, ◌⊎◌, inl, inr, pos, ◌-◌, if_true, int32_diff}
use dolphin_core.Mem.MallocState.{MallocState, alloc, issysmalloc, get_cur_size, set_cur_size}

-- A region of less than 2 GB that is somewhere, with the mark inside.
pub record IsRegion (s : MallocState) : Type 0 where
  pub somewhere : 0 < s.beg
  pub from_beg : s.beg ≤ s.cur
  pub to_stop : s.cur < s.stop
  pub size : ℕ
  pub size_lt : size < 2 ^ 31
  pub sized : s.max_size ≡ pos size
  pub ends : s.stop ≡ s.beg + size
  pub small : s.stop < 2 ^ 63

-- Allocations of the given sizes: the blocks, as address and size, and the state afterwards.
abbrev pub alloc_all : (ℕ → ℕ) → List ℕ → MallocState → List (ℕ × ℕ) × MallocState
alloc_all malloc [] s = ([], s)
alloc_all malloc (n ∷ ns) s =
    let (p, s') = alloc malloc n s in
    let rest : List (ℕ × ℕ) × MallocState = alloc_all malloc ns s' in ((p, n) ∷ rest.0, rest.1)

-- `Stacked s lo bs hi`: the blocks of `bs` that are inside the region are between `lo` and `hi`, each
-- behind the one before it; the others are the system's.
pub data Stacked (s : MallocState) : ℕ → List (ℕ × ℕ) → ℕ → Type 0 where
  bottom : {lo : ℕ} → Stacked s lo [] lo
  inside :
      {lo hi : ℕ} {bs : List (ℕ × ℕ)} (n : ℕ)
      → issysmalloc lo s ≡ false
      → lo + n < s.stop
      → Stacked s (lo + n) bs hi
      → Stacked s lo ((lo, n) ∷ bs) hi
  outside :
      {lo hi : ℕ} {bs : List (ℕ × ℕ)} (p n : ℕ)
      → issysmalloc p s ≡ true
      → Stacked s lo bs hi
      → Stacked s lo ((p, n) ∷ bs) hi

-- Sizes that the addition to an address does not wrap round.
abbrev pub AreSizes : List ℕ → Type 0
AreSizes [] = Unit {0}
AreSizes (n ∷ ns) = (n < 2 ^ 63) × AreSizes ns

-- The same region, with the mark elsewhere.
record SameRegion (s s' : MallocState) : Type 0 where
  region : IsRegion s'
  beg : s'.beg ≡ s.beg
  stop : s'.stop ≡ s.stop

-- One allocation is at the mark, which moves behind it, or the system's.
abbrev One : MallocState → (ℕ → ℕ) → ℕ → ℕ × MallocState → Type 0
One s malloc n r =
    SameRegion s r.1
    × (((r.0 ≡ s.cur) × (r.1.cur ≡ s.cur + n) × (s.cur + n < s.stop))
        ⊎ ((r.0 ≡ malloc n) × (r.1.cur ≡ s.cur)))

alloc-One :
    (malloc : ℕ → ℕ) (n : ℕ) (s : MallocState)
    → IsRegion s
    → n < 2 ^ 63
    → One s malloc n (alloc malloc n s)
unfolding alloc
alloc-One malloc n s k small =
    if_elim (One s malloc n) (not (s.beg == 0) && ltb ((s.cur + n) % 2 ^ 64) s.stop) _ _
      (λ e.
        let room : s.cur + n < s.stop = ground (arith, e, k.to_stop, k.small) in
        let next : (s.cur + n) % 2 ^ 64 ≡ s.cur + n = omega (arith, room, k.small) in
        (
          record {
            region = record {
              somewhere = k.somewhere;
              from_beg = omega (arith, next, k.from_beg);
              to_stop = omega (arith, next, room);
              size = k.size;
              size_lt = k.size_lt;
              sized = k.sized;
              ends = k.ends;
              small = k.small;
            };
            beg = refl;
            stop = refl;
          },
          inl (refl, next, room),
        ))
      (λ _. (record { region = k; beg = refl; stop = refl }, inr (refl, refl)))

alloc_all-SameRegion :
    (malloc : ℕ → ℕ) (ns : List ℕ) (s s0 : MallocState)
    → SameRegion s0 s
    → AreSizes ns
    → ((n : ℕ) → issysmalloc (malloc n) s0 ≡ true)
    → let r = alloc_all malloc ns s in Stacked s0 s.cur r.0 r.1.cur × SameRegion s0 r.1
unfolding issysmalloc
alloc_all-SameRegion malloc [] s s0 k z out = (bottom, k)
alloc_all-SameRegion malloc (n ∷ ns) s s0 k (z, zs) out =
    let (p, s1) = alloc malloc n s in
    let (k1, one) = alloc-One malloc n s k.region z in
    let k2 : SameRegion s0 s1 = record {
      region = k1.region;
      beg = k1.beg ∙ k.beg;
      stop = k1.stop ∙ k.stop;
    } in
    let (rest, last) = alloc_all-SameRegion malloc ns s1 s0 k2 zs out in
    (
      elim one [
        | inl (at, moved, room) ↦ rw at (
            inside n (ground (arith, k.beg, k.stop, k.region.from_beg, k.region.to_stop))
              (omega (arith, room, k.stop)) (rw moved at rest))
        | inr (at, stays) ↦ rw at (outside (malloc n) n (out n) (rw stays at rest))
      ],
      last,
    )

-- The size in use of before, set at a later mark of the same region.
taken_back :
    {s t : MallocState}
    → IsRegion s
    → IsRegion t
    → t.beg ≡ s.beg
    → t.stop ≡ s.stop
    → (set_cur_size (get_cur_size s) t).cur ≡ s.cur
unfolding set_cur_size get_cur_size
taken_back {s} {t} k l beg stop =
    rw (int32_diff s.cur s.beg k.from_beg (omega (arith, k.ends, k.size_lt, k.to_stop)), l.sized)
      (ap (λ (r : MallocState). r.cur)
          (if_true {b = ltb (s.cur - s.beg) l.size} _ _
            (ground (arith, beg, stop, l.ends, k.from_beg, k.to_stop)))
        ∙ omega (arith, beg, k.from_beg, k.to_stop, k.small))

-- Allocations of any sizes below 2 ^ 63 in a region of less than 2 GB in the lower half of the
-- address space, with a system that answers with addresses outside: the blocks inside the region stand one behind the
-- other, each wholly inside, from the mark of before to the mark of after; and setting the size
-- in use back to what it was takes all of them back.
pub alloc_all-Stacked :
    (malloc : ℕ → ℕ) (ns : List ℕ) (s : MallocState)
    → IsRegion s
    → AreSizes ns
    → ((n : ℕ) → issysmalloc (malloc n) s ≡ true)
    → let r = alloc_all malloc ns s in
      Stacked s s.cur r.0 r.1.cur × IsRegion r.1 × ((set_cur_size (get_cur_size s) r.1).cur ≡ s.cur)
alloc_all-Stacked malloc ns s k z out =
    let (stacked, same) =
      alloc_all-SameRegion malloc ns s s (record { region = k; beg = refl; stop = refl }) z out in
    (stacked, same.region, taken_back k same.region same.beg same.stop)
