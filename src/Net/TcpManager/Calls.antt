-- ===== src/Net/TcpManager/Calls.antt =====
-- The calls of other threads: objects are made, sent to, and asked to close.
use dolphin_core.Base.{
  ℕ, zero, suc, ◌+◌, ◌%◌, ◌^◌, Bool, true, false, ◌||◌, List, Option, none, some, ◌==◌,
  if◌then◌else◌,
}
use dolphin_core.Base.Assoc.{elem, keys, insert}
use dolphin_core.Net.Shared.{
  set_link_key, get_object_id, tcp_start_wakeup, link_close_wakeup, ◌>>=◌,
}
use dolphin_core.Net.TcpLink.Gateway.{LinkAttr}
use dolphin_core.Net.TcpClient.{new_client, client_send_data, client_kick_link}
use dolphin_core.Net.TcpServer.{new_server, server_send_data, server_kick_link}
use dolphin_core.Net.TcpManager.{
  TcpManager, tcpobj_client, tcpobj_server, get_obj_type, as_client, switch, lock, store, client,
  server,
}

-- GetNextObjId from a counter on, in at most so many rounds: the id and the counter, a `uint16_t`,
-- afterwards.
unfoldable pub next_obj_id : ℕ → ℕ → TcpManager → ℕ → Option (ℕ × ℕ)
next_obj_id zero type m id = none
next_obj_id (suc rounds) type m id =
    let next = (id + 1) % 2 ^ 16 in
    let rest = next_obj_id rounds type m next in
    if elem (type + id) m.idx_obj_map || elem (type + id) (keys m.prepare)
    then rest
    else some (type + id, next)

-- AddClient and AddServer, which return the id.
unfoldable pub add_client : ℕ → TcpManager → Option (TcpManager × ℕ)
unfolding next_obj_id tcp_start_wakeup new_client
add_client rounds m = next_obj_id rounds tcpobj_client m m.obj_idx_indx >>= λ (objid, next). some (
  record m {
    prepare = insert objid (client (new_client objid)) m.prepare;
    obj_idx_indx = next;
    io = tcp_start_wakeup (set_link_key objid 0) m.io;
  },
  objid,
)

unfoldable pub add_server : ℕ → LinkAttr → TcpManager → Option (TcpManager × ℕ)
unfolding next_obj_id tcp_start_wakeup new_server
add_server rounds attr m = next_obj_id rounds tcpobj_server m m.obj_idx_indx >>= λ (objid, next).
    some (
      record m {
        prepare = insert objid (server (new_server objid attr)) m.prepare;
        obj_idx_indx = next;
        io = tcp_start_wakeup (set_link_key objid 0) m.io;
      },
      objid,
    )

-- SendData: false is TM_ERRNO_NOTFONLINK.
unfoldable pub send_data : ℕ → List ℕ → TcpManager → Option (TcpManager × Bool)
unfolding lock store switch client_send_data server_send_data
send_data k d m =
    let objid = get_object_id k in
    if elem objid m.idx_obj_map
    then (lock objid m >>= λ o.
        switch objid o (λ c. let (c', io') = client_send_data d c m.io in some (client c', io'))
          (λ s. server_send_data k d s m.io >>= λ (s', io'). some (server s', io'))
        >>= λ r. some (store objid m r, true))
    else some (m, false)

-- ClientSendData, on an object that is named by its id.
unfoldable pub client_send : ℕ → List ℕ → TcpManager → Option (TcpManager × Bool)
unfolding lock store client_send_data
client_send objid d m =
    if get_obj_type objid == tcpobj_client
    then (if elem objid m.idx_obj_map
        then (lock objid m >>= λ o. as_client objid o >>= λ c.
            let (c', io') = client_send_data d c m.io in
            some (store objid m (client c', io'), true))
        else some (m, false))
    else none

-- KickLink
unfoldable pub kick_link : ℕ → TcpManager → Option TcpManager
unfolding lock switch client_kick_link server_kick_link
kick_link k m =
    let objid = get_object_id k in
    if elem objid m.idx_obj_map
    then (lock objid m >>= λ o.
        switch objid o (λ c. some (client_kick_link k c m.io))
          (λ s. some (server_kick_link k s m.io))
        >>= λ io'. some (record m { io = io' }))
    else some m

-- StopObj; the second unlocking of the mutex is left out.
unfoldable pub stop_obj : ℕ → TcpManager → TcpManager
unfolding link_close_wakeup
stop_obj objid m =
    if elem objid m.idx_obj_map
    then record m { io = link_close_wakeup (set_link_key objid 0) m.io }
    else m
