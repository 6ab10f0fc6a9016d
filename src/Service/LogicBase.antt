-- ===== src/Service/LogicBase.antt =====
-- src/service/logic_base.cpp: the loop of a program over its events. What a program does with them,
-- the virtual functions, is a parameter.
pub mod Frees
pub mod Answers
use dolphin_core.Base.{ℕ, ◌+◌, ◌*◌, ◌%◌, ◌^◌, Bool, List, [], ◌∷◌, Option, none, some, length}
use dolphin_core.Base.{◌==◌, if◌then◌else◌, ℤ, get_or}
use dolphin_core.Base.Assoc.{elem, keys, lookup, erase}
use dolphin_core.Net.Shared.{◌>>=◌}
use dolphin_core.Serialize.MsgPack.{Zlib}
use dolphin_core.Service.MsgTrans.{Malloc, QueueMsg}
use dolphin_core.Service.LogicObj.{LogicObj, LogicObjMap, on_check_signal}
use dolphin_core.Service.Fetch.{
  Service, StEvent, evt_on_data, evt_on_connect_fail, evt_on_listen_fail, evt_on_connect,
  evt_on_disconnect, fetch_msg,
}

-- Logicbase and what its calls reach; the queue of events is an argument of the loop, since nothing
-- else puts events there.
pub record Logic : Type 0 where
  pub service : Service
  pub objs : LogicObjMap
  pub array : List ℕ

-- OnAddLink, OnDelLink and OnAddLogic, which may change the event, and MsgParse of an object, which
-- is given the block and may change `bofree`.
pub record Callbacks : Type 0 where
  pub on_add_link : StEvent → Logic → Option (Logic × StEvent)
  pub on_del_link : StEvent → Logic → Option (Logic × StEvent)
  pub on_add_logic : StEvent → Logic → Option (Logic × StEvent)
  pub msg_parse : LogicObj → ℕ → QueueMsg → Bool → Logic → Option (Logic × Bool)

-- The block behind the pointer of an event.
unfoldable pub block_of : StEvent → Logic → Option (ℕ × QueueMsg)
block_of ev l = ev.queue_msg >>= λ a. lookup a l.service.heap.blocks >>= λ q. some (a, q)

-- FreePacketBuffer; a block that is not allocated is not freed.
abbrev pub free_packet_buffer : ℕ → Logic → Option Logic
free_packet_buffer a l =
    let sv = l.service in
    let h = sv.heap in
    if elem a (keys h.blocks)
    then some (record l { service = record sv { heap = record h { blocks = erase a h.blocks } } })
    else none

-- DispachLogicMsg
unfoldable pub dispach_logic_msg : Callbacks → StEvent → Logic → Option (Logic × StEvent)
unfolding block_of
dispach_logic_msg cb ev l = elim (lookup ev.id l.objs) [
  | none ↦ some (l, ev)
  | some obj ↦ block_of ev l >>= λ (a, q). cb.msg_parse obj a q ev.bofree l >>= λ (l', bofree').
      some (l', record ev { bofree = bofree' })
]

-- OnCheckSignal, on a block.
abbrev pub check_signal : Zlib → StEvent → QueueMsg → Logic → Option (Logic × StEvent)
check_signal zip ev q l =
    let sv = l.service in
    on_check_signal zip ev.id q.cmd_buffer l.objs (record { manager = sv.manager; array = l.array })
    >>= λ net'.
        some (record l { service = record sv { manager = net'.manager }; array = net'.array }, ev)

-- `cmdBuffer.value`, the value of the login message and that of stCheckSignalCmd.
abbrev pub value_of : QueueMsg → ℕ
value_of q = get_or q.cmd_buffer 0 0 + 2 ^ 8 * get_or q.cmd_buffer 1 0

abbrev pub login_value : ℕ
login_value = 2 ^ 8 + 253

abbrev pub check_signal_value : ℕ
check_signal_value = 2 ^ 8 * 254 + 255

-- ParseMsg
unfoldable pub parse_msg : Zlib → Callbacks → StEvent → Logic → Option (Logic × StEvent)
unfolding block_of dispach_logic_msg on_check_signal
parse_msg zip cb ev l = block_of ev l >>= λ (a, q).
    if value_of q == login_value
    then cb.on_add_logic ev l
    else if value_of q == check_signal_value
    then check_signal zip ev q l
    else dispach_logic_msg cb ev l

-- The end of a data event; the allocator reads what stands in front of the block.
abbrev pub free_data : Logic × StEvent → Option Logic
free_data (l, ev) = if ev.bofree then (ev.queue_msg >>= λ a. free_packet_buffer a l) else some l

-- ParseEvent
unfoldable pub parse_event : Zlib → Callbacks → StEvent → Logic → Option Logic
unfolding parse_msg
parse_event zip cb ev l = elim ev.event [
  | evt_on_data ↦ parse_msg zip cb ev l >>= free_data
  | evt_on_connect ↦ cb.on_add_link ev l >>= λ (l', ev'). some l'
  | evt_on_disconnect ↦ cb.on_del_link ev l >>= λ (l', ev'). some l'
  | evt_on_connect_fail ↦ some l
  | evt_on_listen_fail ↦ some l
]

-- The loop of ProcessMsg, and ProcessMsg, with the count that it returns.
unfoldable pub parse_all : Zlib → Callbacks → List StEvent → Logic → Option Logic
unfolding parse_event
parse_all zip cb [] l = some l
parse_all zip cb (ev ∷ queue) l = parse_event zip cb ev l >>= λ l'. parse_all zip cb queue l'

unfoldable pub process_msg :
    Zlib → Malloc → ℕ → ℕ → Callbacks → List StEvent → Logic → Option (Logic × ℕ)
unfolding fetch_msg parse_all
process_msg zip malloc rounds now cb queue l =
    fetch_msg zip malloc rounds now l.service queue >>= λ (sv', queue').
    parse_all zip cb queue' (record l { service = sv' }) >>= λ l'. some (l', length queue' % 2 ^ 32)
