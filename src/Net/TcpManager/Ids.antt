-- ===== src/Net/TcpManager/Ids.antt =====
-- GetNextObjId: it ends with an id that no object has, registered or prepared; and the two calls
-- that make an object.
use dolphin_core.Base.{
  ℕ, zero, suc, ◌+◌, ◌%◌, ◌^◌, ◌≤◌, ◌<◌, ◌≡◌, refl, ◌∙◌, arith, true, false, ◌||◌,
}
use dolphin_core.Base.{List, [], ◌∷◌, ◌++◌, ◌==◌, if_elim, ==_iff, length, Bool-cases, inl, inr}
use dolphin_core.Base.Assoc.{
  elem, keys, insert, remove, keys-append, elem-append, append-Distinct_one, AllEntries-append,
  elem-remove_ne, length-remove,
}
use dolphin_core.Net.Shared.{Io}
use dolphin_core.Net.Returns.{Returns, >>=-Returns}
use dolphin_core.Net.TcpLink.Gateway.{LinkAttr}
use dolphin_core.Net.TcpClient.{new_client}
use dolphin_core.Net.TcpServer.{new_server}
use dolphin_core.Net.TcpManager.{TcpManager, TcpObj, tcpobj_client, tcpobj_server}
use dolphin_core.Net.TcpManager.Calls.{next_obj_id, add_client, add_server}
use dolphin_core.Net.TcpManager.Valid.{IsValid, IsPrepared}

-- The ids that are taken.
abbrev pub taken : TcpManager → List ℕ
taken m = m.idx_obj_map ++ keys m.prepare

-- An id of the given type that no object has, and the counter afterwards.
pub record IsUnused (type : ℕ) (m : TcpManager) (r : ℕ × ℕ) : Type 0 where
  pub unregistered : elem r.0 m.idx_obj_map ≡ false
  pub unprepared : elem r.0 (keys m.prepare) ≡ false
  pub number : ℕ
  pub id : r.0 ≡ type + number
  pub below : number < 2 ^ 16
  pub next : r.1 < 2 ^ 16

-- After `t` rounds, `used` holds the taken ids that are still ahead.
next_obj_id-ahead :
    (rounds type : ℕ) (m : TcpManager) (g t : ℕ) (used : List ℕ)
    → ((j : ℕ)
        → t ≤ j
        → j < 2 ^ 16
        → elem (type + (g + j) % 2 ^ 16) (taken m) ≡ true
        → elem (type + (g + j) % 2 ^ 16) used ≡ true)
    → length used < rounds
    → t + rounds ≤ 2 ^ 16
    → Returns (IsUnused type m) (next_obj_id rounds type m ((g + t) % 2 ^ 16))
unfolding next_obj_id
next_obj_id-ahead zero type m g t used all h lt = absurd (omega arith)
next_obj_id-ahead (suc rounds) type m g t used all h lt = rw counter (
    if_elim (Returns (IsUnused type m)) (elem id m.idx_obj_map || elem id (keys m.prepare)) _ _
      (λ e.
        next_obj_id-ahead rounds type m g (t + 1) (remove id used)
          (λ j le b k.
            elem-remove_ne (type + (g + j) % 2 ^ 16) id used (λ q. omega arith)
            ∙ all j (omega arith) b k)
          (omega (
            arith,
            length-remove id used (
                all t (omega arith) (omega arith)
                  (elem-append id m.idx_obj_map (keys m.prepare) ∙ e)),
          ))
          (omega arith))
      (λ e. record {
        unregistered = ground (arith, e);
        unprepared = ground (arith, e);
        number = (g + t) % 2 ^ 16;
        id = refl;
        below = omega arith;
        next = omega arith;
      }))
  where
    id : ℕ
    id = type + (g + t) % 2 ^ 16

    counter : ((g + t) % 2 ^ 16 + 1) % 2 ^ 16 ≡ (g + (t + 1)) % 2 ^ 16
    counter = omega arith

-- GetNextObjId ends, with an id of the type asked for that no object has: one round more than
-- there are ids taken is enough, and fewer than all 2 ^ 16 are.
pub next_obj_id-IsUnused :
    (rounds type : ℕ) (m : TcpManager)
    → m.obj_idx_indx < 2 ^ 16
    → length (taken m) < rounds
    → rounds ≤ 2 ^ 16
    → Returns (IsUnused type m) (next_obj_id rounds type m m.obj_idx_indx)
next_obj_id-IsUnused rounds type m c h lt =
    rw small at
      (next_obj_id-ahead rounds type m m.obj_idx_indx 0 (taken m) (λ j _ _ e. e) h (omega arith))
  where
    small : (m.obj_idx_indx + 0) % 2 ^ 16 ≡ m.obj_idx_indx
    small = omega arith

-- A new object in `prepare_`.
prepare-IsValid :
    {type : ℕ} (m : TcpManager) (r : ℕ × ℕ) (o : TcpObj) (io : Io)
    → IsValid m
    → IsUnused type m r
    → IsPrepared r.0 o
    → IsValid (record m { prepare = insert r.0 o m.prepare; obj_idx_indx = r.1; io = io })
prepare-IsValid m r o io v u p = rw u.unprepared (record {
  weak = v.weak;
  once = v.once;
  waiting =
      rw (keys-append m.prepare ((r.0, o) ∷ []))
        (append-Distinct_one r.0 (keys m.prepare) v.waiting u.unprepared);
  apart = λ i e.
      rw
        (
          keys-append m.prepare ((r.0, o) ∷ []),
          elem-append i (keys m.prepare) (r.0 ∷ []),
          v.apart i e,
        )
        (other i e);
  live = v.live;
  prepared = AllEntries-append IsPrepared m.prepare ((r.0, o) ∷ []) v.prepared (p, tt);
  counted = u.next;
})
  where
    other : (i : ℕ) → elem i m.idx_obj_map ≡ true → elem i (r.0 ∷ []) ≡ false
    other i e = elim (Bool-cases (r.0 == i)) [
      | inl t ↦
          let q : r.0 ≡ i = (==_iff r.0 i).0 t in
          let f : elem i m.idx_obj_map ≡ false = rw q at u.unregistered in
          absurd (ground (arith, e, f))
      | inr f ↦ rw f
    ]

module _ (rounds : ℕ) (m : TcpManager) (v : IsValid m) (h : length (taken m) < rounds)
    (lt : rounds ≤ 2 ^ 16) where
  pub add_client-IsValid : Returns (λ q. IsValid q.0) (add_client rounds m)
  unfolding add_client new_client
  add_client-IsValid =
      >>=-Returns (IsUnused tcpobj_client m) (λ (q : TcpManager × ℕ). IsValid q.0)
        (next_obj_id rounds tcpobj_client m m.obj_idx_indx) _
        (next_obj_id-IsUnused rounds tcpobj_client m v.counted h lt)
        (λ r u.
          prepare-IsValid m r _ _ v u (record { typed = omega (arith, u.id, u.below); own = refl }))

  pub add_server-IsValid : (attr : LinkAttr) → Returns (λ q. IsValid q.0) (add_server rounds attr m)
  unfolding add_server new_server
  add_server-IsValid attr =
      >>=-Returns (IsUnused tcpobj_server m) (λ (q : TcpManager × ℕ). IsValid q.0)
        (next_obj_id rounds tcpobj_server m m.obj_idx_indx) _
        (next_obj_id-IsUnused rounds tcpobj_server m v.counted h lt)
        (λ r u. prepare-IsValid m r _ _ v u (record {
          typed = omega (arith, u.id, u.below);
          own = refl;
          distinct = (refl, tt);
          links = (refl, tt);
          counted = omega arith;
        }))
