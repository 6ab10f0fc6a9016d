-- ===== src/Service/Fetch/Reconnect.antt =====
-- FetchMsg as a whole: its loop, and the connecting again at its end.
use dolphin_core.Base.{
  ℕ, suc, ◌+◌, ◌^◌, ◌≤◌, ◌≡◌, refl, ap, ◌∙◌, arith, Bool, false, if_elim, length-append,
}
use dolphin_core.Base.{List, [], ◌∷◌, ◌++◌, none, some, Option, length, ltb}
use dolphin_core.Base.Assoc.{elem, keys, insert, keys-append}
use dolphin_core.Net.Returns.{
  Returns, >>=-Returns, Returns-weaken, IfReturns, >>=-IfReturns, any_result,
}
use dolphin_core.Net.TcpManager.{TcpManager, TcpObj, tcpobj_client}
use dolphin_core.Net.TcpManager.Calls.{add_client, next_obj_id}
use dolphin_core.Net.TcpManager.Valid.{IsValid, io-IsValid}
use dolphin_core.Net.TcpManager.Ids.{taken, add_client-IsValid}
use dolphin_core.Serialize.MsgPack.{Zlib}
use dolphin_core.Service.MsgTrans.{Malloc}
use dolphin_core.Service.MsgTrans.Stream.{IsFreshHeap}
use dolphin_core.Service.Fetch.{
  Service, StEvent, EndianMap, fetch_loop, new_event, connect_all, run_reconnect, fetch_msg,
  add_connector,
}
use dolphin_core.Service.Fetch.Memory.{Owns, AreProper, Fetched}
use dolphin_core.Service.Fetch.Loop.{fetch_loop-Fetched}

Returns-both :
    {A : Type 0} (P Q : A → Type 0) (o : Option A)
    → Returns P o
    → IfReturns Q o
    → Returns (λ a. P a × Q a) o
Returns-both P Q none h k = h
Returns-both P Q (some a) h k = (h, k)

-- A client that is made takes one id at most.
add_client-taken :
    (rounds : ℕ) (m : TcpManager)
    → IfReturns (λ q. length (taken q.0) ≤ suc (length (taken m))) (add_client rounds m)
unfolding add_client
add_client-taken rounds m =
    >>=-IfReturns (λ (q : ℕ × ℕ). Unit {0}) _ (next_obj_id rounds tcpobj_client m m.obj_idx_indx) _
      (any_result (next_obj_id rounds tcpobj_client m m.obj_idx_indx))
      (λ (objid, next) _. inserted objid _)
  where
    inserted :
        (objid : ℕ) (o : TcpObj)
        → length (m.idx_obj_map ++ keys (insert objid o m.prepare)) ≤ suc (length (taken m))
    inserted objid o =
        if_elim (λ p. length (m.idx_obj_map ++ keys p) ≤ suc (length (taken m)))
          (elem objid (keys m.prepare)) m.prepare (m.prepare ++ ((objid, o) ∷ []))
          (λ _. omega arith)
          (λ _. omega (
            arith,
            ap length (keys-append m.prepare ((objid, o) ∷ [])),
            length-append m.idx_obj_map (keys (m.prepare ++ ((objid, o) ∷ []))),
            length-append m.idx_obj_map (keys m.prepare),
            length-append (keys m.prepare) (objid ∷ []),
            ap (λ l. length (m.idx_obj_map ++ l)) (keys-append m.prepare ((objid, o) ∷ [])),
          ))

-- RunReConnect needs an id for each endpoint that it connects again, and touches no block.
connect_all-Returns :
    (rounds : ℕ) (mp : EndianMap) (sv : Service)
    → IsValid sv.manager
    → length (taken sv.manager) + length mp ≤ rounds
    → rounds ≤ 2 ^ 16
    → Returns (λ sv'. (sv'.heap ≡ sv.heap) × IsValid sv'.manager) (connect_all rounds mp sv)
unfolding connect_all add_connector
connect_all-Returns rounds [] sv v h lt = (refl, v)
connect_all-Returns rounds ((k, info) ∷ mp) sv v h lt =
    >>=-Returns P _ (add_connector rounds info.mark info.ip info.port info.retry sv) _ added
      (λ (sv', ok) (e, v', t).
        Returns-weaken _ _ (connect_all rounds mp sv')
          (connect_all-Returns rounds mp sv' v' (omega (arith, t)) lt) (λ r (e', w). (e' ∙ e, w)))
  where
    P : Service × Bool → Type 0
    P (sv', ok) =
        (sv'.heap ≡ sv.heap)
        × IsValid sv'.manager
        × (length (taken sv'.manager) ≤ suc (length (taken sv.manager)))

    added : Returns P (add_connector rounds info.mark info.ip info.port info.retry sv)
    added =
        >>=-Returns _ P (add_client rounds sv.manager) _
          (Returns-both (λ q. IsValid q.0) _ (add_client rounds sv.manager)
            (add_client-IsValid rounds sv.manager v (omega arith) lt)
            (add_client-taken rounds sv.manager))
          (λ (m, objid) (v', t). (refl, v', t))

-- The receive queue holds packets that carry messages, for which there is memory, and news of
-- links and endpoints; the registry is valid, each endpoint can be given an id once more, and each
-- data event that is still queued has a block of its own. Then FetchMsg returns, and again each
-- data event of the queue has a block of its own, in order, and no other block is allocated.
pub fetch_msg-Owns :
    (zip : Zlib) (malloc : Malloc) (rounds now : ℕ) (sv : Service) (queue : List StEvent)
    → IsValid sv.manager
    → AreProper zip malloc sv.manager.io.recv_queue
    → IsFreshHeap sv.heap
    → Owns queue (keys sv.heap.blocks)
    → elem 0 (keys sv.endian_map) ≡ false
    → length (taken sv.manager) + (length sv.endian_map + length sv.reconnect_map) ≤ rounds
    → rounds ≤ 2 ^ 16
    → Returns
        (λ r. Owns r.1 (keys r.0.heap.blocks) × IsFreshHeap r.0.heap × IsValid r.0.manager)
        (fetch_msg zip malloc rounds now sv queue)
unfolding fetch_msg new_event run_reconnect
fetch_msg-Owns zip malloc rounds now sv queue v p f o z room lt =
    >>=-Returns (λ (r : Service × List StEvent). (ev : StEvent) × Fetched m n r.0 ev r.1) _
      (fetch_loop zip malloc sv.manager.io.recv_queue new_event (record sv { manager = m }) queue) _
      (fetch_loop-Fetched zip malloc m n sv.manager.io.recv_queue new_event
        (record sv { manager = m }) queue
        (record {
          fresh = f;
          owns = o;
          no_zero = z;
          to_free = refl;
          endpoints = refl;
          network = refl;
        })
        p)
      (λ (sv', queue') (ev, k).
        >>=-Returns (λ (r : Service). (r.heap ≡ sv'.heap) × IsValid r.manager) _
          (run_reconnect rounds now sv') _ (reconnected sv' ev queue' k)
          (λ r (e, w). (rw e k.owns, rw e k.fresh, w)))
  where
    m : TcpManager
    m = record (sv.manager) { io = record (sv.manager.io) { recv_queue = [] } }

    n : ℕ
    n = length sv.endian_map + length sv.reconnect_map

    valid : IsValid m
    valid = io-IsValid (record (sv.manager.io) { recv_queue = [] }) sv.manager v

    reconnected :
        (sv' : Service) (ev : StEvent) (queue' : List StEvent)
        → Fetched m n sv' ev queue'
        → Returns (λ r. (r.heap ≡ sv'.heap) × IsValid r.manager) (run_reconnect rounds now sv')
    reconnected sv' ev queue' k =
        if_elim (Returns (λ (r : Service). (r.heap ≡ sv'.heap) × IsValid r.manager))
          (ltb sv'.next_reconn_time now) _ _
          (λ _.
            >>=-Returns (λ (r : Service). (r.heap ≡ sv'.heap) × IsValid r.manager) _
              (connect_all rounds sv'.reconnect_map (record sv' { next_reconn_time = now + 2 })) _
              (connect_all-Returns rounds sv'.reconnect_map
                (record sv' { next_reconn_time = now + 2 }) (rw k.network valid)
                (omega (arith, ap (λ u. length (taken u)) k.network, k.endpoints)) lt)
              (λ r w. w))
          (λ _. (refl, rw k.network valid))
