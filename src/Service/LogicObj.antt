-- ===== src/Service/LogicObj.antt =====
-- src/service/logic_obj.cpp: an object that a link stands for, with a cache of what it sends, and
-- the objects under the keys of their links.
pub mod Order
use dolphin_core.Base.{ℕ, ◌*◌, Bool, true, false, List, [], ◌∷◌, Option, none, some, length}
use dolphin_core.Base.{ltb, leb, ◌==◌, if◌then◌else◌, ℤ, negsuc, get_or}
use dolphin_core.Base.Assoc.{lookup, update, erase, insert_ordered}
use dolphin_core.Net.Shared.{◌>>=◌}
use dolphin_core.Net.TcpManager.{TcpManager}
use dolphin_core.Net.TcpManager.Calls.{send_data}
use dolphin_core.Serialize.MsgPack.{Zlib}
use dolphin_core.Service.MsgTrans.{encode_message, data_encode_to_cache}

-- `signal_state_` is not used here.
pub record LogicObj : Type 0 where
  pub link : ℕ
  pub mark : ℕ
  pub cache : List ℕ

-- What the calls of an object change beside it: the network, and the array of `encodeMessage`.
pub record Sending : Type 0 where
  pub manager : TcpManager
  pub array : List ℕ

-- SERVER_CACHE_SEND_SIZE
abbrev pub server_cache_send_size : ℕ
server_cache_send_size = 16 * 1024

unfoldable pub new_logic_obj : ℕ → ℕ → LogicObj
new_logic_obj key mark = record { link = key; mark = mark; cache = [] }

-- The data of a message, none of which is there where encoding failed.
abbrev pub data_of : Option (List ℕ) → List ℕ
data_of none = []
data_of (some d) = d

-- SendCmd, with Service::SendMsg, which is SendData of the network.
unfoldable pub send_cmd : Zlib → List ℕ → ℤ → LogicObj → Sending → Option (Sending × Bool)
unfolding encode_message send_data
send_cmd zip pbuf level obj net =
    let (d, array') = encode_message zip none pbuf level net.array in
    send_data obj.link (data_of d) net.manager >>= λ (m, ok).
    some (record { manager = m; array = array' }, ok)

-- SendCache
unfoldable pub send_cache : LogicObj → Sending → Option (LogicObj × Sending × Bool)
unfolding send_data
send_cache obj net =
    if length obj.cache == 0
    then some (obj, net, true)
    else (send_data obj.link obj.cache net.manager >>= λ (m, ok).
        some (record obj { cache = [] }, record net { manager = m }, ok))

-- SendCmdDelay
unfoldable pub send_cmd_delay :
    Zlib → List ℕ → ℤ → LogicObj → Sending → Option (LogicObj × Sending × Bool)
unfolding data_encode_to_cache send_cache
send_cmd_delay zip pbuf level obj net =
    let (ok, cache', array') = data_encode_to_cache zip none pbuf level obj.cache net.array in
    let obj' = record obj { cache = cache' } in
    let net' = record net { array = array' } in
    if ok
    then (if leb server_cache_send_size (length cache')
        then send_cache obj' net'
        else some (obj', net', true))
    else some (obj', net', false)

-- `logic_obj_map_`, in the order of the keys, which is the order of FlushCache.
abbrev pub LogicObjMap : Type 0
LogicObjMap = List (ℕ × LogicObj)

-- AddLogic; `none` is a null pointer.
unfoldable pub add_logic : Option LogicObj → LogicObjMap → LogicObjMap × Bool
add_logic none m = (m, false)
add_logic (some obj) m = insert_ordered obj.link obj m

-- DelLogic and `find`
unfoldable pub del_logic : ℕ → LogicObjMap → LogicObjMap
del_logic link m = erase link m

unfoldable pub find : ℕ → LogicObjMap → Option LogicObj
find link m = lookup link m

-- LogicObjManager::SendCmd
unfoldable pub manager_send_cmd :
    Zlib → ℕ → List ℕ → ℤ → Bool → LogicObjMap → Sending → Option (LogicObjMap × Sending)
unfolding send_cmd send_cmd_delay
manager_send_cmd zip id pbuf level delay m net = elim (lookup id m) [
  | none ↦ some (m, net)
  | some obj ↦
      if delay
      then (send_cmd_delay zip pbuf level obj net >>= λ (obj', net', ok).
          some (update id obj' m, net'))
      else (send_cmd zip pbuf level obj net >>= λ (net', ok). some (m, net'))
]

-- FlushCache
unfoldable pub flush_cache : LogicObjMap → Sending → Option (LogicObjMap × Sending)
unfolding send_cache
flush_cache [] net = some ([], net)
flush_cache ((k, obj) ∷ m) net = send_cache obj net >>= λ (obj', net', ok).
    flush_cache m net' >>= λ (m', net''). some ((k, obj') ∷ m', net'')

-- Z_DEFAULT_COMPRESSION
abbrev pub z_default_compression : ℤ
z_default_compression = negsuc 0

-- stCheckSignalCmd: its two bytes behind `cmd` and `subcmd`, in an answer to `checknum`.
abbrev pub check_signal_ack : ℕ → List ℕ
check_signal_ack checknum = 255 ∷ 254 ∷ 0 ∷ checknum ∷ []

-- OnCheckSignal, on the bytes of a message from `cmdBuffer` on, at the end of which the block ends.
unfoldable pub on_check_signal : Zlib → ℕ → List ℕ → LogicObjMap → Sending → Option Sending
unfolding send_cmd
on_check_signal zip id cmd m net = if get_or cmd 2 0 == 0 then some net else elim (lookup id m) [
  | none ↦ some net
  | some obj ↦
      send_cmd zip (check_signal_ack (get_or cmd 3 0)) z_default_compression obj net
      >>= λ (net', ok). some net'
]
