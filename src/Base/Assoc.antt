-- ===== src/Base/Assoc.antt =====
-- Numbers in lists, and maps from numbers as association lists with each key once.
use Prim.Native.Nat.{ℕ, suc}
use mathlib.Core.Path.{◌≡◌, refl, ap}
use mathlib.Core.Bool.{Bool, true, false, ◌||◌}
use mathlib.Core.Option.{Option, none, some}
use mathlib.Core.List.{List, [], ◌∷◌, ◌++◌}
use mathlib.Core.Logic.{◌≢◌, inl, inr}
use native.Mathlib.Omega.{arith}
use dolphin_core.Base.Tests.{◌==◌, ltb, if◌then◌else◌, ==_iff, Bool-cases, if_elim}
use dolphin_core.Base.Lists.{length}

abbrev pub elem : ℕ → List ℕ → Bool
elem k [] = false
elem k (j ∷ js) = j == k || elem k js

-- The first occurrence goes.
abbrev pub remove : ℕ → List ℕ → List ℕ
remove k [] = []
remove k (j ∷ js) = if j == k then js else j ∷ remove k js

abbrev pub Distinct : List ℕ → Type 0
Distinct [] = Unit
Distinct (k ∷ ks) = (elem k ks ≡ false) × Distinct ks

pub elem-append : (k : ℕ) (js ks : List ℕ) → elem k (js ++ ks) ≡ (elem k js || elem k ks)
elem-append k [] ks = refl
elem-append k (j ∷ js) ks = ground (arith, elem-append k js ks)

-- Removing one number keeps the others, and makes the list shorter if it was there.
pub elem-remove_ne : (k j : ℕ) (ks : List ℕ) → k ≢ j → elem k (remove j ks) ≡ elem k ks
elem-remove_ne k j [] h = refl
elem-remove_ne k j (i ∷ ks) h = ground (arith, elem-remove_ne k j ks)

pub length-remove :
    (k : ℕ) (ks : List ℕ) → elem k ks ≡ true → length ks ≡ suc (length (remove k ks))
length-remove k [] h = absurd (ground arith)
length-remove k (j ∷ ks) h = ground (arith, length-remove k ks)

pub elem-remove : (j k : ℕ) (ks : List ℕ) → elem j ks ≡ false → elem j (remove k ks) ≡ false
elem-remove j k [] h = h
elem-remove j k (i ∷ ks) h = ground (arith, elem-remove j k ks)

pub remove-Distinct : (k : ℕ) (ks : List ℕ) → Distinct ks → Distinct (remove k ks)
remove-Distinct k [] d = tt
remove-Distinct k (j ∷ ks) (n, d) = ground (arith, elem-remove j k ks, remove-Distinct k ks d)

pub elem-remove_self : (k : ℕ) (ks : List ℕ) → Distinct ks → elem k (remove k ks) ≡ false
elem-remove_self k [] d = refl
elem-remove_self k (j ∷ ks) (n, d) = ground (arith, elem-remove_self k ks d)

pub append-Distinct_one :
    (k : ℕ) (ks : List ℕ) → Distinct ks → elem k ks ≡ false → Distinct (ks ++ (k ∷ []))
append-Distinct_one k [] d h = (refl, tt)
append-Distinct_one k (j ∷ ks) (n, d) h =
    ground (arith, elem-append j ks (k ∷ []), append-Distinct_one k ks d)

module _ {ℓ} {V : Type ℓ} where
  abbrev pub keys : List (ℕ × V) → List ℕ
  keys [] = []
  keys ((k, v) ∷ m) = k ∷ keys m

  abbrev pub lookup : ℕ → List (ℕ × V) → Option V
  lookup k [] = none
  lookup k ((j, v) ∷ m) = if j == k then some v else lookup k m

  -- Another value under a key that is there.
  abbrev pub update : ℕ → V → List (ℕ × V) → List (ℕ × V)
  update k v [] = []
  update k v ((j, w) ∷ m) = if j == k then (j, v) ∷ m else (j, w) ∷ update k v m

  abbrev pub erase : ℕ → List (ℕ × V) → List (ℕ × V)
  erase k [] = []
  erase k ((j, w) ∷ m) = if j == k then m else (j, w) ∷ erase k m

  -- `insert` of a map keeps the value of a key that is there.
  abbrev pub insert : ℕ → V → List (ℕ × V) → List (ℕ × V)
  insert k v m = if elem k (keys m) then m else m ++ ((k, v) ∷ [])

  -- `insert` of a map in the order of its keys, and whether it inserts.
  abbrev pub insert_ordered : ℕ → V → List (ℕ × V) → List (ℕ × V) × Bool
  insert_ordered k v [] = ((k, v) ∷ [], true)
  insert_ordered k v ((j, w) ∷ m) =
      let rest : List (ℕ × V) × Bool = insert_ordered k v m in
      if j == k
      then ((j, w) ∷ m, false)
      else if ltb k j
      then ((k, v) ∷ (j, w) ∷ m, true)
      else ((j, w) ∷ rest.0, rest.1)

  abbrev pub AllEntries {κ} : (ℕ → V → Type κ) → List (ℕ × V) → Type κ
  AllEntries P [] = Unit
  AllEntries P ((k, v) ∷ m) = P k v × AllEntries P m

  pub keys-append : (m n : List (ℕ × V)) → keys (m ++ n) ≡ keys m ++ keys n
  keys-append [] n = refl
  keys-append ((k, v) ∷ m) n = ap (◌∷◌ k) (keys-append m n)

  pub keys-update : (k : ℕ) (v : V) (m : List (ℕ × V)) → keys (update k v m) ≡ keys m
  keys-update k v [] = refl
  keys-update k v ((j, w) ∷ m) = ground (arith, keys-update k v m)

  pub keys-erase : (k : ℕ) (m : List (ℕ × V)) → keys (erase k m) ≡ remove k (keys m)
  keys-erase k [] = refl
  keys-erase k ((j, w) ∷ m) = ground (arith, keys-erase k m)

  pub length-erase :
      (k : ℕ) (m : List (ℕ × V)) (v : V) → lookup k m ≡ some v → length m ≡ suc (length (erase k m))
  length-erase k [] v h = absurd (ground (arith, h))
  length-erase k ((j, w) ∷ m) v h = ground (arith, length-erase k m v)

  pub length-insert_ordered :
      (k : ℕ) (v : V) (m : List (ℕ × V))
      → length (insert_ordered k v m).0
        ≡ (if (insert_ordered k v m).1 then suc (length m) else length m)
  length-insert_ordered k v [] = refl
  length-insert_ordered k v ((j, w) ∷ m) = ground (arith, length-insert_ordered k v m)

  pub lookup-elem :
      (k : ℕ) (m : List (ℕ × V)) → elem k (keys m) ≡ true → (v : V) × (lookup k m ≡ some v)
  lookup-elem k [] h = absurd (ground arith)
  lookup-elem k ((j, w) ∷ m) h = elim (Bool-cases (j == k)) [
    | inl e ↦ (w, rw e)
    | inr e ↦
        let r : (v : V) × (lookup k m ≡ some v) = lookup-elem k m (ground arith) in (r.0, rw e r.1)
  ]

  pub lookup-update_self :
      (k : ℕ) (v : V) (m : List (ℕ × V)) → elem k (keys m) ≡ true → lookup k (update k v m) ≡ some v
  lookup-update_self k v [] h = absurd (ground arith)
  lookup-update_self k v ((j, w) ∷ m) h = ground (arith, lookup-update_self k v m)

  pub lookup-update_ne :
      (k i : ℕ) (v : V) (m : List (ℕ × V)) → i ≢ k → lookup i (update k v m) ≡ lookup i m
  lookup-update_ne k i v [] h = refl
  lookup-update_ne k i v ((j, w) ∷ m) h = ground (arith, lookup-update_ne k i v m)

  pub lookup-erase_ne : (k i : ℕ) (m : List (ℕ × V)) → i ≢ k → lookup i (erase k m) ≡ lookup i m
  lookup-erase_ne k i [] h = refl
  lookup-erase_ne k i ((j, w) ∷ m) h = ground (arith, lookup-erase_ne k i m)

  pub lookup-append_ne :
      (k i : ℕ) (v : V) (m : List (ℕ × V)) → i ≢ k → lookup i (m ++ ((k, v) ∷ [])) ≡ lookup i m
  lookup-append_ne k i v [] h = ground arith
  lookup-append_ne k i v ((j, w) ∷ m) h = ground (arith, lookup-append_ne k i v m)

  pub lookup-append :
      (i : ℕ) (m n : List (ℕ × V)) → elem i (keys m) ≡ true → lookup i (m ++ n) ≡ lookup i m
  lookup-append i [] n h = absurd (ground arith)
  lookup-append i ((j, w) ∷ m) n h = ground (arith, lookup-append i m n)

  pub lookup-append_new :
      (k : ℕ) (v : V) (m : List (ℕ × V))
      → elem k (keys m) ≡ false
      → lookup k (m ++ ((k, v) ∷ [])) ≡ some v
  lookup-append_new k v [] h = ground arith
  lookup-append_new k v ((j, w) ∷ m) h = ground (arith, lookup-append_new k v m)

  pub lookup-none : (k : ℕ) (m : List (ℕ × V)) → elem k (keys m) ≡ false → lookup k m ≡ none
  lookup-none k [] h = refl
  lookup-none k ((j, w) ∷ m) h = ground (arith, lookup-none k m)

  pub elem_of_lookup :
      (k : ℕ) (m : List (ℕ × V)) (v : V) → lookup k m ≡ some v → elem k (keys m) ≡ true
  elem_of_lookup k [] v h = cc
  elem_of_lookup k ((j, w) ∷ m) v h = ground (arith, elem_of_lookup k m v)

  module _ {κ} (P : ℕ → V → Type κ) where
    pub AllEntries-lookup :
        (k : ℕ) (m : List (ℕ × V)) {v : V} → AllEntries P m → lookup k m ≡ some v → P k v
    AllEntries-lookup k [] a h = absurd (ground arith)
    AllEntries-lookup k ((j, w) ∷ m) {v} a h = elim (Bool-cases (j == k)) [
      | inl e ↦ let same : w ≡ v = ground arith in rw ((==_iff j k).0 e, same) at a.0
      | inr e ↦ AllEntries-lookup k m a.1 (ground arith)
    ]

    pub AllEntries-update :
        (k : ℕ) (v : V) (m : List (ℕ × V)) → AllEntries P m → P k v → AllEntries P (update k v m)
    AllEntries-update k v [] a p = tt
    AllEntries-update k v ((j, w) ∷ m) a p =
        if_elim (AllEntries P) (j == k) _ _ (λ e. (rw ((==_iff j k).0 e) p, a.1))
          (λ e. (a.0, AllEntries-update k v m a.1 p))

    pub AllEntries-erase : (k : ℕ) (m : List (ℕ × V)) → AllEntries P m → AllEntries P (erase k m)
    AllEntries-erase k [] a = tt
    AllEntries-erase k ((j, w) ∷ m) a =
        if_elim (AllEntries P) (j == k) _ _ (λ e. a.1) (λ e. (a.0, AllEntries-erase k m a.1))

    pub AllEntries-append :
        (m n : List (ℕ × V)) → AllEntries P m → AllEntries P n → AllEntries P (m ++ n)
    AllEntries-append [] n a b = b
    AllEntries-append ((j, w) ∷ m) n (p, a) b = (p, AllEntries-append m n a b)
