-- ===== src/Service/Fetch/Memory.antt =====
-- The blocks of the messages that FetchMsg hands on, and the events that point to them.
use dolphin_core.Base.{
  ℕ, suc, ◌+◌, ◌^◌, ◌≤◌, ◌<◌, ◌≡◌, ◌≢◌, refl, arith, Bool, true, false, if_elim,
}
use dolphin_core.Base.{List, [], ◌∷◌, ◌++◌, none, some, Option, length, if◌then◌else◌, ◌==◌}
use dolphin_core.Base.Assoc.{
  lookup, elem, keys, insert_ordered, keys-erase, elem-remove, length-erase, length-insert_ordered,
}
use dolphin_core.Net.Shared.{
  TcpMessage, MessageType, net_data, system_stop, cli_start_failed, cli_error, cli_connect_failed,
  cli_connect_ok,
}
use dolphin_core.Net.Shared.{svr_start_failed, svr_error, svr_accept_failed, svr_accept_ok}
use dolphin_core.Net.TcpManager.{TcpManager, get_obj_type, tcpobj_client}
use dolphin_core.Serialize.MsgPack.{Zlib}
use dolphin_core.Serialize.MsgPack.Whole.{Carries}
use dolphin_core.Service.MsgTrans.{Malloc, queue_msg_size, msg_buffer_size, new_push_buffer}
use dolphin_core.Service.MsgTrans.Stream.{IsFreshHeap}
use dolphin_core.Service.Fetch.{
  Service, StEvent, evt_on_data, EndianInfo, EndianMap, add_reconnect, retried, moved,
}

-- `Owns queue addresses`: each data event of the queue has a block of its own, which it is to free,
-- in the order of the addresses, and there are no other blocks.
pub data Owns : List StEvent → List ℕ → Type 0 where
  no_event : Owns [] []
  a_block :
      {queue : List StEvent} {addrs : List ℕ} (ev : StEvent) (a : ℕ)
      → ev.event ≡ evt_on_data
      → ev.queue_msg ≡ some a
      → ev.bofree ≡ true
      → Owns queue addrs
      → Owns (ev ∷ queue) (a ∷ addrs)
  no_block :
      {queue : List StEvent} {addrs : List ℕ} (ev : StEvent)
      → ev.event ≢ evt_on_data
      → Owns queue addrs
      → Owns (ev ∷ queue) addrs

pub append_data :
    {queue : List StEvent} {addrs : List ℕ} (ev : StEvent) (a : ℕ)
    → ev.event ≡ evt_on_data
    → ev.queue_msg ≡ some a
    → ev.bofree ≡ true
    → Owns queue addrs
    → Owns (queue ++ (ev ∷ [])) (addrs ++ (a ∷ []))
append_data ev a d p f no_event = a_block ev a d p f no_event
append_data ev a d p f (a_block ev' a' d' p' f' o) =
    a_block ev' a' d' p' f' (append_data ev a d p f o)
append_data ev a d p f (no_block ev' n o) = no_block ev' n (append_data ev a d p f o)

pub append_other :
    {queue : List StEvent} {addrs : List ℕ} (ev : StEvent)
    → ev.event ≢ evt_on_data
    → Owns queue addrs
    → Owns (queue ++ (ev ∷ [])) addrs
append_other ev n no_event = no_block ev n no_event
append_other ev n (a_block ev' a' d' p' f' o) = a_block ev' a' d' p' f' (append_other ev n o)
append_other ev n (no_block ev' n' o) = no_block ev' n' (append_other ev n o)

-- A message that the network puts: data is a packet that carries a message for which there is
-- memory, and a failed accept has the key 0. A server that listens has no error.
abbrev pub IsProper : Zlib → Malloc → ℕ → List ℕ → MessageType → Type 0
IsProper zip malloc key bytes net_data =
    (pin : List ℕ) × (b : List ℕ) × Carries zip bytes pin
    × (2 ≤ length pin)
    × (length pin < 2 ^ 30)
    × (new_push_buffer malloc (msg_buffer_size (length pin) + queue_msg_size) ≡ some b)
IsProper zip malloc key bytes svr_accept_failed = key ≡ 0
IsProper zip malloc key bytes svr_error = ⊥
IsProper zip malloc key bytes system_stop = Unit
IsProper zip malloc key bytes cli_start_failed = Unit
IsProper zip malloc key bytes cli_error = Unit
IsProper zip malloc key bytes cli_connect_failed = Unit
IsProper zip malloc key bytes cli_connect_ok = Unit
IsProper zip malloc key bytes svr_start_failed = Unit
IsProper zip malloc key bytes svr_accept_ok = Unit

abbrev pub AreProper : Zlib → Malloc → List TcpMessage → Type 0
AreProper zip malloc [] = Unit
AreProper zip malloc (msg ∷ msgs) =
    IsProper zip malloc msg.key msg.bytes msg.type × AreProper zip malloc msgs

-- The state between two rounds of the loop of FetchMsg. No object has the id 0, and of the `n`
-- endpoints none is added.
pub record Fetched (m : TcpManager) (n : ℕ) (sv : Service) (ev : StEvent) (queue : List StEvent)
    : Type 0 where
  pub fresh : IsFreshHeap sv.heap
  pub owns : Owns queue (keys sv.heap.blocks)
  pub no_zero : elem 0 (keys sv.endian_map) ≡ false
  pub to_free : ev.bofree ≡ true
  pub endpoints : length sv.endian_map + length sv.reconnect_map ≡ n
  pub network : sv.manager ≡ m

-- AddReConnect moves an endpoint or does nothing.
pub record Reconnects (sv sv' : Service) : Type 0 where
  pub same_heap : sv'.heap ≡ sv.heap
  pub no_zero : elem 0 (keys sv.endian_map) ≡ false → elem 0 (keys sv'.endian_map) ≡ false
  pub endpoints :
      length sv'.endian_map + length sv'.reconnect_map
      ≡ length sv.endian_map + length sv.reconnect_map
  pub network : sv'.manager ≡ sv.manager

pub same : (sv : Service) → Reconnects sv sv
same sv = record { same_heap = refl; no_zero = λ h. h; endpoints = refl; network = refl }

pub add_reconnect-Reconnects : (objid : ℕ) (sv : Service) → Reconnects sv (add_reconnect objid sv).0
unfolding add_reconnect
add_reconnect-Reconnects objid sv =
    if_elim (λ (r : Service × Bool). Reconnects sv r.0) (get_obj_type objid == tcpobj_client) _ _
      (λ _. found (lookup objid sv.endian_map) refl) (λ _. same sv)
  where
    place :
        (info : EndianInfo)
        → lookup objid sv.endian_map ≡ some info
        → (r : EndianMap × Bool)
        → length r.0 ≡ (if r.1 then suc (length sv.reconnect_map) else length sv.reconnect_map)
        → Reconnects sv (moved objid info sv r).0
    place info e (m, true) h = record {
      same_heap = refl;
      no_zero =
          λ z. rw (keys-erase objid sv.endian_map) (elem-remove 0 objid (keys sv.endian_map) z);
      endpoints = omega (arith, length-erase objid sv.endian_map info e, h);
      network = refl;
    }
    place info e (m, false) h = same sv

    found :
        (o : Option EndianInfo)
        → lookup objid sv.endian_map ≡ o
        → Reconnects sv (retried objid sv o).0
    found none e = same sv
    found (some info) e =
        if_elim (λ (r : Service × Bool). Reconnects sv r.0) info.retry _ _
          (λ _.
            place info e (insert_ordered objid info sv.reconnect_map)
              (length-insert_ordered objid info sv.reconnect_map))
          (λ _. same sv)
