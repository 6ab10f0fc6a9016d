-- ===== src/Mem/LoopList/Merge.antt =====
-- `merge`: how many elements go over, and in which order.
use dolphin_core.Base.{ℕ, zero, suc, ◌+◌, ◌-◌, ◌≤◌, ◌<◌, ◌≡◌, refl, arith, min}
use dolphin_core.Base.{Bool, true, false, some, List, [], ◌∷◌, ◌++◌, append-nil, append_assoc}
use dolphin_core.Base.{
  length, take, drop, length-append, inl, inr, ltb, not, ◌&&◌, ◌||◌, ◌⊎◌, if◌then◌else◌,
}
use native.Mathlib.Decide.{dec_lt}
use dolphin_core.Mem.LoopList.{LoopList, is_full, is_empty, push_back, pop_front, push_popped}
use dolphin_core.Mem.LoopList.{merge_loop, merge}
use dolphin_core.Mem.LoopList.Queue.{Holds, push_back-Holds, pop_front-Holds, capacity-push_back}

module _ {A : Type 0} where
  -- How many of `r` fit behind `q`.
  abbrev pub room_for : ℕ → List A → List A → ℕ
  room_for cap q r = min (cap - length q) (length r)

  abbrev Moved : ℕ → List A → List A → LoopList A × LoopList A → Type 0
  Moved cap q r out =
      Holds out.0 (q ++ take (room_for cap q r) r) × Holds out.1 (drop (room_for cap q r) r)

  -- One element more in front of what is moved later.
  Moved-cons :
      (cap : ℕ) (q : List A) (x : A) (r : List A) (out : LoopList A × LoopList A)
      → length q < cap
      → Moved cap (q ++ (x ∷ [])) r out
      → Moved cap q (x ∷ r) out
  Moved-cons cap q x r out lt (a, b) = rw more (rw (← append_assoc q (x ∷ []) (take m r)) a, b)
    where
      m : ℕ
      m = room_for cap (q ++ (x ∷ [])) r

      more : room_for cap q (x ∷ r) ≡ suc m
      more = omega (arith, length-append q (x ∷ []))

  Moved-last :
      (cap : ℕ) (q : List A) (x : A) (r : List A) {l from : LoopList A}
      → length q < cap
      → (cap ≤ length q + 1) ⊎ (r ≡ [])
      → Holds l (q ++ (x ∷ []))
      → Holds from r
      → Moved cap q (x ∷ r) (l, from)
  Moved-last cap q x r lt stop a b = rw one (a, b)
    where
      one : room_for cap q (x ∷ r) ≡ 1
      one = ground arith

  -- The test of the `do … while`.
  abbrev goes_on : LoopList A → LoopList A → Bool
  goes_on l from = not (is_full l) && not (is_empty from)

  merge_loop-suc :
      (rounds : ℕ) (l from : LoopList A) (x : A)
      → (pop_front from).0 ≡ some x
      → let l' = (push_back l x).1 in
        let from' = (pop_front from).1 in
        merge_loop (suc rounds) l from
        ≡ (if goes_on l' from' then merge_loop rounds l' from' else (l', from'))
  unfolding merge_loop push_popped
  merge_loop-suc rounds l from x e = rw e

  goes_on-nil :
      {l from : LoopList A} {q : List A} → Holds l q → Holds from [] → goes_on l from ≡ false
  goes_on-nil hl hf = ground arith

  goes_on-full :
      {l from : LoopList A} {q r : List A}
      → Holds l q
      → Holds from r
      → l.capacity ≤ length q
      → goes_on l from ≡ false
  goes_on-full hl hf full = ground arith

  goes_on-more :
      {l from : LoopList A} {q : List A} {y : A} {r : List A}
      → Holds l q
      → Holds from (y ∷ r)
      → length q < l.capacity
      → goes_on l from ≡ true
  goes_on-more hl hf room = ground arith

  length-snoc : (q : List A) (x : A) → length (q ++ (x ∷ [])) ≡ length q + 1
  length-snoc q x = length-append q (x ∷ [])

  merge_loop-Moved :
      (rounds : ℕ) {l from : LoopList A} (q : List A) (x : A) (r : List A)
      → length r < rounds
      → length q < l.capacity
      → Holds l q
      → Holds from (x ∷ r)
      → Moved l.capacity q (x ∷ r) (merge_loop rounds l from)
  merge_loop-Moved zero q x r enough lt hl hf = absurd (omega arith)
  merge_loop-Moved (suc rounds) {l} {from} q x [] enough lt hl hf =
      let p = pop_front-Holds x [] hf in
      let h = push_back-Holds x hl (omega arith) in
      rw (merge_loop-suc rounds l from x p.0, goes_on-nil h p.1)
        (Moved-last l.capacity q x [] lt (inr refl) h p.1)
  merge_loop-Moved (suc rounds) {l} {from} q x (y ∷ r) enough lt hl hf =
      let p = pop_front-Holds x (y ∷ r) hf in
      let h = push_back-Holds x hl (omega arith) in
      let snoc = length-snoc q x in
      let same = capacity-push_back l x in
      elim (dec_lt (length q + 1) l.capacity) [
        | yes more ↦
            rw (merge_loop-suc rounds l from x p.0, goes_on-more h p.1 (omega arith))
              (Moved-cons l.capacity q x (y ∷ r) _ lt (
                rw same at
                  (merge_loop-Moved rounds (q ++ (x ∷ [])) y r (omega arith) (omega arith) h p.1)))
        | no full ↦
            rw (merge_loop-suc rounds l from x p.0, goes_on-full h p.1 (omega arith))
              (Moved-last l.capacity q x (y ∷ r) lt (inl (omega arith)) h p.1)
      ]

  merge-idle :
      (l from : LoopList A) → is_full l || is_empty from ≡ true → merge l from ≡ (false, (l, from))
  unfolding merge
  merge-idle l from h = ground arith

  merge-busy :
      (l from : LoopList A)
      → is_full l ≡ false
      → is_empty from ≡ false
      → merge l from ≡ (true, merge_loop from.size l from)
  unfolding merge
  merge-busy l from a b = ground arith

  none_fit : (cap : ℕ) (q r : List A) → (cap ≤ length q) ⊎ (length r ≡ 0) → room_for cap q r ≡ 0
  none_fit cap q r h = omega arith

  -- `merge` moves elements of the other list, oldest first, behind its own, until it is full or
  -- the other is empty, and returns true; it returns false and changes nothing if it is full
  -- already or the other list is empty.
  pub merge_refines :
      {l from : LoopList A} (q r : List A)
      → Holds l q
      → Holds from r
      → let m = min (l.capacity - length q) (length r) in
        let out = merge l from in
        (out.0 ≡ ltb 0 m) × Holds out.1.0 (q ++ take m r) × Holds out.1.1 (drop m r)
  merge_refines {l} {from} q [] hl hf =
      rw (merge-idle l from (ground arith), none_fit l.capacity q [] (omega arith), append-nil q)
        (refl, hl, hf)
  merge_refines {l} {from} q (x ∷ r) hl hf = elim (dec_lt (length q) l.capacity) [
    | yes room ↦
        let moved = merge_loop-Moved from.size q x r (omega (arith, hf.count)) room hl hf in
        rw (merge-busy l from (ground arith) (ground arith)) (ground arith, moved.0, moved.1)
    | no full ↦
        rw
          (
            merge-idle l from (ground arith),
            none_fit l.capacity q (x ∷ r) (omega arith),
            append-nil q,
          )
          (refl, hl, hf)
  ]
