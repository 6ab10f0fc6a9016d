-- ===== src/Service/Fetch.antt =====
-- src/service/service.cpp: the listeners and connectors of a program, what becomes of the messages
-- of the network, and the connecting again.
pub mod Memory
pub mod Loop
pub mod Reconnect
use dolphin_core.Base.{ℕ, ◌+◌, Bool, true, false, List, [], ◌∷◌, ◌++◌, Option, none, some}
use dolphin_core.Base.{ltb, ◌==◌, if◌then◌else◌}
use dolphin_core.Base.Assoc.{lookup, erase, insert_ordered}
use dolphin_core.Net.Shared.{
  TcpMessage, MessageType, net_data, system_stop, cli_start_failed, cli_error, cli_connect_failed,
  cli_connect_ok,
}
use dolphin_core.Net.Shared.{
  svr_start_failed, svr_error, svr_accept_failed, svr_accept_ok, get_object_id, ◌>>=◌,
}
use dolphin_core.Net.TcpLink.Gateway.{LinkAttr}
use dolphin_core.Net.TcpManager.{TcpManager, get_obj_type, tcpobj_client}
use dolphin_core.Net.TcpManager.Calls.{send_data, add_client, add_server}
use dolphin_core.Serialize.MsgPack.{Zlib}
use dolphin_core.Service.MsgTrans.{Malloc, Heap, decode_message}

-- EventType
pub data EventType : Type 0 where
  evt_on_data evt_on_connect_fail evt_on_listen_fail evt_on_connect evt_on_disconnect : EventType

-- stEvent; `none` is a NULL pointer, and a pointer is an address in the heap.
pub record StEvent : Type 0 where
  pub id : ℕ
  pub mark : ℕ
  pub event : EventType
  pub bofree : Bool
  pub queue_msg : Option ℕ

unfoldable pub new_event : StEvent
new_event = record { id = 0; mark = 0; event = evt_on_data; bofree = true; queue_msg = none }

pub record EndianInfo : Type 0 where
  pub objid : ℕ
  pub mark : ℕ
  pub ip : List ℕ
  pub port : ℕ
  pub retry : Bool

abbrev pub EndianMap : Type 0
EndianMap = List (ℕ × EndianInfo)

-- Service, with the network below it and the heap.
pub record Service : Type 0 where
  pub manager : TcpManager
  pub heap : Heap
  pub endian_map : EndianMap
  pub reconnect_map : EndianMap
  pub next_reconn_time : ℕ

-- Under the id that the network gave.
abbrev pub enter : EndianInfo → Service → Service × Bool
enter info sv =
    let (m, ok) = insert_ordered info.objid info sv.endian_map in (record sv { endian_map = m }, ok)

-- AddListener, which does not set `retry_`: that is `junk`.
unfoldable pub add_listener :
    ℕ → LinkAttr → Bool → ℕ → List ℕ → ℕ → Service → Option (Service × Bool)
unfolding add_server
add_listener rounds attr junk mark ip port sv = add_server rounds attr sv.manager >>= λ (m, objid).
    some (
      enter (record { objid = objid; mark = mark; ip = ip; port = port; retry = junk })
        (record sv { manager = m }))

-- AddConnector
unfoldable pub add_connector : ℕ → ℕ → List ℕ → ℕ → Bool → Service → Option (Service × Bool)
unfolding add_client
add_connector rounds mark ip port retry sv = add_client rounds sv.manager >>= λ (m, objid). some (
    enter (record { objid = objid; mark = mark; ip = ip; port = port; retry = retry })
      (record sv { manager = m }))

-- SendMsg
unfoldable pub send_msg : ℕ → List ℕ → Service → Option (Service × Bool)
unfolding send_data
send_msg key d sv = send_data key d sv.manager >>= λ (m, ok). some (record sv { manager = m }, ok)

-- AddReConnect
abbrev pub moved : ℕ → EndianInfo → Service → EndianMap × Bool → Service × Bool
moved objid info sv (m, true) =
    (record sv { endian_map = erase objid sv.endian_map; reconnect_map = m }, true)
moved objid info sv (m, false) = (sv, false)

abbrev pub retried : ℕ → Service → Option EndianInfo → Service × Bool
retried objid sv none = (sv, false)
retried objid sv (some info) =
    if info.retry
    then moved objid info sv (insert_ordered objid info sv.reconnect_map)
    else (sv, false)

unfoldable pub add_reconnect : ℕ → Service → Service × Bool
add_reconnect objid sv =
    if get_obj_type objid == tcpobj_client
    then retried objid sv (lookup objid sv.endian_map)
    else (sv, false)

-- RunReConnect at the time `now`; what AddConnector returns is not looked at.
unfoldable pub connect_all : ℕ → EndianMap → Service → Option Service
unfolding add_connector
connect_all rounds [] sv = some sv
connect_all rounds ((k, info) ∷ m) sv =
    add_connector rounds info.mark info.ip info.port info.retry sv >>= λ (sv', ok).
    connect_all rounds m sv'

unfoldable pub run_reconnect : ℕ → ℕ → Service → Option Service
unfolding connect_all
run_reconnect rounds now sv =
    if ltb sv.next_reconn_time now
    then (connect_all rounds sv.reconnect_map (record sv { next_reconn_time = now + 2 }) >>= λ sv'.
        some (record sv' { reconnect_map = [] }))
    else some sv

-- The data of TransMsg. A packet that cannot be decoded is logged through the pointer of the event,
-- whether it is NULL, was freed or is that of an earlier message.
abbrev pub trans_data :
    StEvent → Service → Bool × Option ℕ × Heap → Option (Service × StEvent × Bool)
trans_data ev sv (true, p, h) =
    some (record sv { heap = h }, record ev { event = evt_on_data; queue_msg = p }, true)
trans_data ev sv (false, p, h) = p >>= λ a. lookup a h.blocks >>= λ q.
    some (record sv { heap = h }, record ev { event = evt_on_data; queue_msg = p }, false)

-- The `switch` of TransMsg. A failed accept and the error of a server leave `event_` as it was.
unfoldable pub trans_type :
    Zlib → Malloc → TcpMessage → MessageType → StEvent → Service → Option (Service × StEvent × Bool)
unfolding decode_message add_reconnect
trans_type zip malloc msg net_data ev sv =
    trans_data ev sv (decode_message zip none malloc msg.bytes ev.queue_msg sv.heap)
trans_type zip malloc msg cli_start_failed ev sv =
    some (
      (add_reconnect (get_object_id msg.key) sv).0,
      record ev { event = evt_on_connect_fail },
      true,
    )
trans_type zip malloc msg cli_error ev sv =
    some (
      (add_reconnect (get_object_id msg.key) sv).0,
      record ev { event = evt_on_connect_fail },
      true,
    )
trans_type zip malloc msg cli_connect_failed ev sv =
    some (
      (add_reconnect (get_object_id msg.key) sv).0,
      record ev { event = evt_on_connect_fail },
      true,
    )
trans_type zip malloc msg svr_start_failed ev sv =
    some (sv, record ev { event = evt_on_listen_fail }, true)
trans_type zip malloc msg cli_connect_ok ev sv =
    some (sv, record ev { event = evt_on_connect }, true)
trans_type zip malloc msg svr_accept_ok ev sv =
    some (sv, record ev { event = evt_on_connect }, true)
trans_type zip malloc msg system_stop ev sv =
    some
      ((add_reconnect (get_object_id msg.key) sv).0, record ev { event = evt_on_disconnect }, true)
trans_type zip malloc msg svr_accept_failed ev sv = some (sv, ev, true)
trans_type zip malloc msg svr_error ev sv = some (sv, ev, true)

-- TransMsg: the result, and the event, which is the caller's.
unfoldable pub trans_msg :
    Zlib → Malloc → TcpMessage → StEvent → Service → Option (Service × StEvent × Bool)
unfolding trans_type
trans_msg zip malloc msg ev sv = elim (lookup (get_object_id msg.key) sv.endian_map) [
  | none ↦ some (sv, record ev { id = msg.key }, false)
  | some info ↦ trans_type zip malloc msg msg.type (record ev { id = msg.key; mark = info.mark }) sv
]

-- The loop of FetchMsg, all rounds of which fill the same event.
unfoldable pub fetch_loop :
    Zlib
    → Malloc
    → List TcpMessage
    → StEvent
    → Service
    → List StEvent
    → Option (Service × List StEvent)
unfolding trans_msg
fetch_loop zip malloc [] ev sv queue = some (sv, queue)
fetch_loop zip malloc (msg ∷ msgs) ev sv queue =
    trans_msg zip malloc msg ev sv >>= λ (sv', ev', ok).
    fetch_loop zip malloc msgs ev' sv' (if ok then queue ++ (ev' ∷ []) else queue)

-- FetchMsg, which takes the receive queue of the network.
unfoldable pub fetch_msg :
    Zlib → Malloc → ℕ → ℕ → Service → List StEvent → Option (Service × List StEvent)
unfolding fetch_loop run_reconnect new_event
fetch_msg zip malloc rounds now sv queue =
    let m = sv.manager in
    let io = record (m.io) { recv_queue = [] } in
    fetch_loop zip malloc m.io.recv_queue new_event (record sv { manager = record m { io = io } })
      queue
    >>= λ (sv', queue'). run_reconnect rounds now sv' >>= λ sv''. some (sv'', queue')
