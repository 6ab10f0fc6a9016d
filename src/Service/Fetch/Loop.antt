-- ===== src/Service/Fetch/Loop.antt =====
-- The loop of FetchMsg.
use dolphin_core.Base.{ℕ, ◌≡◌, ◌≢◌, refl, ◌∙◌, arith, Bool, true, false}
use dolphin_core.Base.{List, [], ◌∷◌, ◌++◌, none, some, Option, if◌then◌else◌}
use dolphin_core.Base.Assoc.{lookup, keys-append, elem_of_lookup}
use dolphin_core.Net.Shared.{
  TcpMessage, MessageType, net_data, system_stop, cli_start_failed, cli_error, cli_connect_failed,
  cli_connect_ok,
}
use dolphin_core.Net.Shared.{
  svr_start_failed, svr_error, svr_accept_failed, svr_accept_ok, get_object_id,
}
use dolphin_core.Net.Returns.{Returns, >>=-Returns}
use dolphin_core.Net.TcpManager.{TcpManager}
use dolphin_core.Serialize.MsgPack.{Zlib}
use dolphin_core.Service.MsgTrans.{Malloc}
use dolphin_core.Service.MsgTrans.RoundTrip.{decode_message-Carries, holding}
use dolphin_core.Service.MsgTrans.Stream.{allocated-IsFreshHeap}
use dolphin_core.Service.Fetch.{
  Service, StEvent, EventType, evt_on_data, evt_on_connect_fail, evt_on_listen_fail, evt_on_connect,
  evt_on_disconnect, EndianInfo, trans_type, trans_msg, fetch_loop,
}
use dolphin_core.Service.Fetch.Memory.{
  append_data, append_other, IsProper, AreProper, Fetched, Reconnects, same,
  add_reconnect-Reconnects,
}

module _ (zip : Zlib) (malloc : Malloc) (m : TcpManager) (n : ℕ) where
  -- A round that ends well, with the event that it made.
  abbrev After : List StEvent → Service × StEvent × Bool → Type 0
  After queue r = Fetched m n r.0 r.1 (if r.2 then queue ++ (r.1 ∷ []) else queue)

  other :
      (sv sv' : Service) (ev : StEvent) (queue : List StEvent) (e : EventType)
      → Fetched m n sv ev queue
      → Reconnects sv sv'
      → e ≢ evt_on_data
      → After queue (sv', record ev { event = e }, true)
  other sv sv' ev queue e k r h = record {
    fresh = rw r.same_heap k.fresh;
    owns = rw r.same_heap (append_other (record ev { event = e }) h k.owns);
    no_zero = r.no_zero k.no_zero;
    to_free = k.to_free;
    endpoints = r.endpoints ∙ k.endpoints;
    network = r.network ∙ k.network;
  }

  trans_type-Fetched :
      (t : MessageType) (msg : TcpMessage) (ev : StEvent) (sv : Service) (queue : List StEvent)
      (info : EndianInfo)
      → Fetched m n sv ev queue
      → IsProper zip malloc msg.key msg.bytes t
      → lookup (get_object_id msg.key) sv.endian_map ≡ some info
      → Returns (After queue) (trans_type zip malloc msg t ev sv)
  unfolding trans_type
  trans_type-Fetched net_data msg ev sv queue info k (pin, b, c, two, small, room) e =
      rw (decode_message-Carries zip malloc msg.bytes pin ev.queue_msg sv.heap b c two small room)
        (record {
          fresh = allocated-IsFreshHeap (holding pin b) sv.heap k.fresh;
          owns = rw (keys-append sv.heap.blocks ((sv.heap.next, holding pin b) ∷ [])) (
              append_data (record ev { event = evt_on_data; queue_msg = some sv.heap.next })
                sv.heap.next refl refl k.to_free k.owns);
          no_zero = k.no_zero;
          to_free = k.to_free;
          endpoints = k.endpoints;
          network = k.network;
        })
  trans_type-Fetched cli_start_failed msg ev sv queue info k p e =
      other sv _ ev queue evt_on_connect_fail k
        (add_reconnect-Reconnects (get_object_id msg.key) sv) (λ q. cc)
  trans_type-Fetched cli_error msg ev sv queue info k p e =
      other sv _ ev queue evt_on_connect_fail k
        (add_reconnect-Reconnects (get_object_id msg.key) sv) (λ q. cc)
  trans_type-Fetched cli_connect_failed msg ev sv queue info k p e =
      other sv _ ev queue evt_on_connect_fail k
        (add_reconnect-Reconnects (get_object_id msg.key) sv) (λ q. cc)
  trans_type-Fetched svr_start_failed msg ev sv queue info k p e =
      other sv sv ev queue evt_on_listen_fail k (same sv) (λ q. cc)
  trans_type-Fetched cli_connect_ok msg ev sv queue info k p e =
      other sv sv ev queue evt_on_connect k (same sv) (λ q. cc)
  trans_type-Fetched svr_accept_ok msg ev sv queue info k p e =
      other sv sv ev queue evt_on_connect k (same sv) (λ q. cc)
  trans_type-Fetched system_stop msg ev sv queue info k p e =
      other sv _ ev queue evt_on_disconnect k (add_reconnect-Reconnects (get_object_id msg.key) sv)
        (λ q. cc)
  trans_type-Fetched svr_accept_failed msg ev sv queue info k p e =
      let there = elem_of_lookup (get_object_id msg.key) sv.endian_map info e in
      absurd (ground (arith, k.no_zero, rw p at there))
  trans_type-Fetched svr_error msg ev sv queue info k p e = absurd p

  trans_msg-Fetched :
      (msg : TcpMessage) (ev : StEvent) (sv : Service) (queue : List StEvent)
      → Fetched m n sv ev queue
      → IsProper zip malloc msg.key msg.bytes msg.type
      → Returns (After queue) (trans_msg zip malloc msg ev sv)
  unfolding trans_msg
  trans_msg-Fetched msg ev sv queue k p = go (lookup (get_object_id msg.key) sv.endian_map) refl
    where
      go :
          (o : Option EndianInfo)
          → lookup (get_object_id msg.key) sv.endian_map ≡ o
          → Returns (After queue) (elim o [
            | none ↦ some (sv, record ev { id = msg.key }, false)
            | some info ↦
                trans_type zip malloc msg msg.type (record ev { id = msg.key; mark = info.mark }) sv
          ])
      go none e = record {
        fresh = k.fresh;
        owns = k.owns;
        no_zero = k.no_zero;
        to_free = k.to_free;
        endpoints = k.endpoints;
        network = k.network;
      }
      go (some info) e =
          trans_type-Fetched msg.type msg (record ev { id = msg.key; mark = info.mark }) sv queue
            info
            (record {
              fresh = k.fresh;
              owns = k.owns;
              no_zero = k.no_zero;
              to_free = k.to_free;
              endpoints = k.endpoints;
              network = k.network;
            })
            p e

  pub fetch_loop-Fetched :
      (msgs : List TcpMessage) (ev : StEvent) (sv : Service) (queue : List StEvent)
      → Fetched m n sv ev queue
      → AreProper zip malloc msgs
      → Returns
          (λ r. (ev' : StEvent) × Fetched m n r.0 ev' r.1)
          (fetch_loop zip malloc msgs ev sv queue)
  unfolding fetch_loop
  fetch_loop-Fetched [] ev sv queue k p = (ev, k)
  fetch_loop-Fetched (msg ∷ msgs) ev sv queue k (p, ps) =
      >>=-Returns (After queue) _ (trans_msg zip malloc msg ev sv) _
        (trans_msg-Fetched msg ev sv queue k p)
        (λ (sv', ev', ok) a.
          fetch_loop-Fetched msgs ev' sv' (if ok then queue ++ (ev' ∷ []) else queue) a ps)
