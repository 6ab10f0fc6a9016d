-- ===== src/Mem/LoopList/Queue.antt =====
-- A CLoopList holds a queue of at most `capacity` elements.
use dolphin_core.Base.{ℕ, suc, ◌+◌, ◌-◌, ◌%◌, ◌^◌, ◌≤◌, ◌<◌, ◌≡◌, refl, arith}
use dolphin_core.Base.{Bool, true, false, Option, none, some, List, [], ◌∷◌, ◌++◌, ltb, leb, ◌∙◌}
use dolphin_core.Base.{get_elem?, set, length, length-append, length-set, if◌then◌else◌, lt→ltb}
use dolphin_core.Base.{get_elem?-set_self, get_elem?-set_ne, get_elem?-append_lt}
use dolphin_core.Base.{get_elem?-append_length, ◌==◌}
use native.Mathlib.Nat.{mod-eq_of_lt, mod-eq-sub-mod}
use native.Mathlib.Decide.{dec_lt}
use dolphin_core.Mem.LoopList.{LoopList, create, pop_front, push_back, clear}

-- The list is in order, and its cells hold the queue `q` from `head` on, round the end.
pub record Holds {A : Type 0} (l : LoopList A) (q : List A) : Type 0 where
  pub storage : length l.buf ≡ l.capacity
  pub small : l.capacity < 2 ^ 32
  pub head_in : l.head < l.capacity
  pub size_in : l.size ≤ l.capacity
  pub tail_at : l.tail ≡ (l.head + l.size) % l.capacity
  pub count : l.size ≡ length q
  pub cells : (i : ℕ) → i < length q → get_elem? l.buf ((l.head + i) % l.capacity) ≡ get_elem? q i

leb_of_lt : (a b : ℕ) → a < b → leb b a ≡ false
leb_of_lt a b h = ground arith

ltb_of_le : (a b : ℕ) → b ≤ a → ltb a b ≡ false
ltb_of_le a b h = ground arith

le→leb : (a b : ℕ) → a ≤ b → leb a b ≡ true
le→leb a b h = ground arith

==_of_pos : (a : ℕ) → 0 < a → (a == 0) ≡ false
==_of_pos a h = ground arith

-- An index that has gone round at most once.
wrap : (n cap : ℕ) → n < cap + cap → n % cap ≡ (if ltb n cap then n else n - cap)
wrap n cap h = elim (dec_lt n cap) [
  | yes p ↦ ground (arith, mod-eq_of_lt p)
  | no p ↦ ground (
    arith,
    mod-eq-sub-mod {n = n} {m = cap} (omega arith),
    mod-eq_of_lt {n = n - cap} {m = cap} (omega arith),
  )
]

module _ {A : Type 0} where
  -- The queue that a list of this capacity promises: `push_back` and `pop_front` of it.
  abbrev pub offer : ℕ → List A → A → Bool × List A
  offer cap q x = if ltb (length q) cap then (true, q ++ (x ∷ [])) else (false, q)

  abbrev pub poll : List A → Option A × List A
  poll [] = (none, [])
  poll (x ∷ q) = (some x, q)

  push_cells :
      {l : LoopList A} {q : List A} (x : A)
      → Holds l q
      → l.size < l.capacity
      → (i : ℕ) → i < length (q ++ (x ∷ []))
      → get_elem? (set l.buf l.tail x) ((l.head + i) % l.capacity) ≡ get_elem? (q ++ (x ∷ [])) i
  push_cells {l} {q} x h room i lt = ground (
    arith,
    length-append q (x ∷ []),
    wrap (l.head + i) l.capacity,
    wrap (l.head + l.size) l.capacity,
    h.cells i,
    get_elem?-set_self l.buf l.tail x,
    get_elem?-set_ne l.buf l.tail ((l.head + i) % l.capacity) x,
    get_elem?-append_lt q (x ∷ []) i,
    get_elem?-append_length q [] x,
  )

  push_tail :
      {l : LoopList A} {q : List A}
      → Holds l q
      → l.size < l.capacity
      → (l.tail + 1) % 2 ^ 32 % l.capacity ≡ (l.head + (l.size + 1)) % l.capacity
  push_tail {l} h room = ground (
    arith,
    wrap (l.head + l.size) l.capacity,
    wrap (l.tail + 1) l.capacity,
    wrap (l.head + (l.size + 1)) l.capacity,
  )

  pub push_back-Holds :
      {l : LoopList A} {q : List A} (x : A)
      → Holds l q
      → l.size < l.capacity
      → Holds (push_back l x).1 (q ++ (x ∷ []))
  unfolding push_back
  push_back-Holds {l} {q} x h room = rw (leb_of_lt l.size l.capacity room) record {
    storage = length-set l.buf l.tail x ∙ h.storage;
    small = h.small;
    head_in = h.head_in;
    size_in = omega arith;
    tail_at = ground (arith, push_tail h room);
    count = omega (arith, length-append q (x ∷ []));
    cells = push_cells x h room;
  }

  offer-room :
      (cap : ℕ) (q : List A) (x : A) → length q < cap → offer cap q x ≡ (true, q ++ (x ∷ []))
  offer-room cap q x h = rw (lt→ltb _ _ h)

  offer-full : (cap : ℕ) (q : List A) (x : A) → cap ≤ length q → offer cap q x ≡ (false, q)
  offer-full cap q x h = rw (ltb_of_le (length q) cap h)

  push_back-full : (l : LoopList A) (x : A) → l.capacity ≤ l.size → push_back l x ≡ (false, l)
  unfolding push_back
  push_back-full l x h = rw (le→leb _ _ h)

  push_back-room : (l : LoopList A) (x : A) → l.size < l.capacity → (push_back l x).0 ≡ true
  unfolding push_back
  push_back-room l x h = rw (leb_of_lt _ _ h)

  -- `push_back` appends to the queue unless it is full, and says which.
  pub push_back_refines :
      {l : LoopList A} {q : List A} (x : A)
      → Holds l q
      → ((push_back l x).0 ≡ (offer l.capacity q x).0)
        × Holds (push_back l x).1 (offer l.capacity q x).1
  push_back_refines {l} {q} x h = elim (dec_lt l.size l.capacity) [
    | yes room ↦
        rw (offer-room l.capacity q x (omega (arith, h.count)))
          (push_back-room l x room, push_back-Holds x h room)
    | no full ↦
        rw (offer-full l.capacity q x (omega (arith, h.count)), push_back-full l x (omega arith))
          (refl, h)
  ]

  pop_empty : (l : LoopList A) → l.size ≡ 0 → pop_front l ≡ (none, l)
  unfolding pop_front
  pop_empty l e = ground arith

  pop_cells :
      {l : LoopList A} {x : A} {q : List A}
      → Holds l (x ∷ q)
      → (i : ℕ) → i < length q
      → get_elem? l.buf (((l.head + 1) % 2 ^ 32 % l.capacity + i) % l.capacity) ≡ get_elem? q i
  pop_cells {l} h i lt = ground (
    arith,
    wrap (l.head + 1) l.capacity,
    wrap (l.head + suc i) l.capacity,
    wrap ((l.head + 1) % l.capacity + i) l.capacity,
    h.cells (suc i),
  )

  pop_tail :
      {l : LoopList A} {x : A} {q : List A}
      → Holds l (x ∷ q)
      → l.tail ≡ ((l.head + 1) % 2 ^ 32 % l.capacity + (l.size - 1)) % l.capacity
  pop_tail {l} h = ground (
    arith,
    wrap (l.head + 1) l.capacity,
    wrap (l.head + l.size) l.capacity,
    wrap ((l.head + 1) % l.capacity + (l.size - 1)) l.capacity,
  )

  pub pop_front-Holds :
      {l : LoopList A} (x : A) (q : List A)
      → Holds l (x ∷ q)
      → ((pop_front l).0 ≡ some x) × Holds (pop_front l).1 q
  unfolding pop_front
  pop_front-Holds {l} x q h = rw (==_of_pos l.size (omega (arith, h.count))) (
    ground (arith, wrap (l.head + 0) l.capacity, h.cells 0),
    record {
      storage = h.storage;
      small = h.small;
      head_in = omega arith;
      size_in = omega arith;
      tail_at = pop_tail h;
      count = omega (arith, h.count);
      cells = pop_cells h;
    },
  )

  -- `pop_front` takes the oldest element, or NULL from an empty list, which stays as it is.
  pub pop_front_refines :
      {l : LoopList A} (q : List A)
      → Holds l q
      → ((pop_front l).0 ≡ (poll q).0) × Holds (pop_front l).1 (poll q).1
  pop_front_refines {l} [] h = rw (pop_empty l h.count) (refl, h)
  pop_front_refines (x ∷ q) h = pop_front-Holds x q h

  pub capacity-push_back : (l : LoopList A) (x : A) → (push_back l x).1.capacity ≡ l.capacity
  unfolding push_back
  capacity-push_back l x = ground arith

  -- `clear` empties the queue.
  pub clear-Holds : {l : LoopList A} {q : List A} → Holds l q → Holds (clear l) []
  unfolding clear
  clear-Holds {l} h = record {
    storage = h.storage;
    small = h.small;
    head_in = omega arith;
    size_in = omega arith;
    tail_at = ground (arith, wrap 0 l.capacity);
    count = refl;
    cells = λ i lt. absurd (omega arith);
  }

  -- A new list holds nothing, if the array has the length that was asked for.
  pub create-Holds :
      (storage : ℕ → List A) (bufsize : ℕ)
      → bufsize < 2 ^ 32
      → ((n : ℕ) → length (storage n) ≡ n)
      → Holds (create storage bufsize) []
  unfolding create
  create-Holds storage bufsize small fits = record {
    storage = fits _;
    small = ground arith;
    head_in = ground arith;
    size_in = ground arith;
    tail_at = ground (arith, wrap 0 (if ltb bufsize 1 then 1024 else bufsize));
    count = refl;
    cells = λ i lt. absurd (omega arith);
  }
