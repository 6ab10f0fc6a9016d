-- ===== src/Net/TcpManager.antt =====
-- src/net/tcp/tcp_manager.cpp: the registry of clients and servers, the calls of other threads and
-- the callbacks of the libuv thread. `prepare` and `vec_objs` own the objects; `idx_obj_map` holds
-- weak pointers, which are ids here.
pub mod Calls
pub mod Valid
pub mod Ids
pub mod Handlers
pub mod Prepared
pub mod Callbacks
pub mod Failed
use dolphin_core.Base.{
  ℕ, zero, suc, ◌+◌, ◌-◌, ◌*◌, ◌/◌, ◌%◌, ◌^◌, Bool, true, false, not, ◌&&◌, ◌||◌, List, [], ◌∷◌,
  ◌++◌, Option, none, some, ltb, ◌==◌, if◌then◌else◌,
}
use dolphin_core.Base.Assoc.{elem, remove, keys, lookup, update, erase, insert}
use dolphin_core.Net.Shared.{
  Io, TcpMessage, MessageType, system_stop, cli_start_failed, cli_error, cli_connect_failed,
  cli_connect_ok,
}
use dolphin_core.Net.Shared.{svr_start_failed, svr_error, svr_accept_failed, svr_accept_ok}
use dolphin_core.Net.Shared.{
  set_link_key, get_object_id, link_bits, object_bits, put_message, tcp_start_wakeup,
  link_close_wakeup, ◌>>=◌,
}
use dolphin_core.Net.TcpLink.{Code, success, fail}
use dolphin_core.Net.TcpLink.Gateway.{LinkAttr}
use dolphin_core.Net.TcpClient.{
  TcpClient, new_client, client_send_data, client_kick_link, client_on_start, client_on_connect,
  client_on_stop,
}
use dolphin_core.Net.TcpClient.{client_on_link_read, client_on_link_write, client_on_error}
use dolphin_core.Net.TcpServer.{
  TcpServer, new_server, server_send_data, server_kick_link, server_on_start, server_on_stop,
  server_on_error,
}
use dolphin_core.Net.TcpServer.{on_accept, server_on_link_read, server_on_link_write}

-- A TcpObj has one of two pointers set; its id is its key in the lists.
pub data TcpObj : Type 0 where
  client : TcpClient → TcpObj
  server : TcpServer → TcpObj

pub record TcpManager : Type 0 where
  pub idx_obj_map : List ℕ
  pub prepare : List (ℕ × TcpObj)
  pub vec_objs : List (ℕ × TcpObj)
  pub obj_idx_indx : ℕ
  pub io : Io

abbrev pub tcpobj_client : ℕ
tcpobj_client = 2 ^ 24

abbrev pub tcpobj_server : ℕ
tcpobj_server = 2 ^ 25

-- GetObjType, on an id that is not negative.
abbrev pub get_obj_type : ℕ → ℕ
get_obj_type objid = objid / 2 ^ 24 * 2 ^ 24

-- The pointer that the switch over the type of `objid` goes through.
abbrev pub as_client : ℕ → TcpObj → Option TcpClient
as_client objid (client c) = if get_obj_type objid == tcpobj_client then some c else none
as_client objid (server s) = none

abbrev pub as_server : ℕ → TcpObj → Option TcpServer
as_server objid (client c) = none
as_server objid (server s) = if get_obj_type objid == tcpobj_server then some s else none

-- `switch (GetObjType(sp->obj_id_))` with its assert: what either kind of object does.
unfoldable pub switch {ℓ} :
    {A : Type ℓ} → ℕ → TcpObj → (TcpClient → Option A) → (TcpServer → Option A) → Option A
switch objid (client c) f g = as_client objid (client c) >>= f
switch objid (server s) f g = as_server objid (server s) >>= g

-- The object behind `idx_obj_map_.find(objid)->second.lock()`: `none` where the weak pointer is
-- expired.
unfoldable pub lock : ℕ → TcpManager → Option TcpObj
lock objid m = lookup objid m.vec_objs

-- What an object turned into, and the queues.
unfoldable pub store : ℕ → TcpManager → TcpObj × Io → TcpManager
store objid m (o, io) = record m { vec_objs = update objid o m.vec_objs; io = io }

-- The object moves from `prepare_` to the registry, where it is entered under its id.
unfoldable pub register : ℕ → TcpObj → TcpManager → TcpManager
register objid o m = record m {
  idx_obj_map = if elem objid m.idx_obj_map then m.idx_obj_map else m.idx_obj_map ++ (objid ∷ []);
  prepare = erase objid m.prepare;
  vec_objs = m.vec_objs ++ ((objid, o) ∷ []);
}

-- OnConnect. The message of a failure carries the key 0.
unfoldable pub on_connect : ℕ → TcpManager → Option TcpManager
unfolding register client_on_connect put_message
on_connect k m =
    let objid = get_object_id k in
    elim (lookup objid m.prepare) [
      | none ↦ some m
      | some (server s) ↦ none
      | some (client c) ↦
          let (c', key) = client_on_connect c in
          some (record (register objid (client c') m) {
            io = put_message key (if key == 0 then cli_connect_failed else cli_connect_ok) m.io;
          })
    ]

-- OnAccept, which goes through `server_` without a look at the type.
unfoldable pub manager_on_accept : Bool → Bool → ℕ → ℕ → TcpManager → Option TcpManager
unfolding lock on_accept put_message
manager_on_accept accepts reads rounds k m =
    let objid = get_object_id k in
    if elem objid m.idx_obj_map
    then (lock objid m >>= λ o. elim o [
      | client c ↦ none
      | server s ↦ on_accept accepts reads rounds s >>= λ (s', key). some (record m {
        vec_objs = update objid (server s') m.vec_objs;
        io = put_message key (if key == 0 then svr_accept_failed else svr_accept_ok) m.io;
      })
    ])
    else some m

-- RemoveObj: an id that no object has fails the assert at its end.
unfoldable pub remove_obj : ℕ → TcpManager → Option TcpManager
remove_obj k m =
    let objid = get_object_id k in
    if elem objid (keys m.vec_objs)
    then some
        (record m { idx_obj_map = remove objid m.idx_obj_map; vec_objs = erase objid m.vec_objs })
    else none

-- The end of OnError and OnClose: if `k` is the key of an object, that is removed and a message put.
unfoldable pub removed : ℕ → MessageType → TcpManager → Option TcpManager
unfolding remove_obj put_message
removed k t m =
    if link_bits k == 0
    then (remove_obj k m >>= λ m'. some (record m' { io = put_message k t m'.io }))
    else some m

-- A client goes with its link: `id = id & (MASK32BIT << 32)`.
unfoldable pub manager_on_error : ℕ → TcpManager → Option TcpManager
unfolding lock store switch client_on_error server_on_error removed put_message
manager_on_error k m =
    let objid = get_object_id k in
    if elem objid m.idx_obj_map
    then (lock objid m >>= λ o.
        switch objid o
          (λ c. client_on_error k c m.io >>= λ (c', io').
            removed (object_bits k) cli_error (store objid m (client c', io')))
          (λ s. server_on_error k s m.io >>= λ (s', io').
            removed k svr_error (store objid m (server s', io'))))
    else elim (lookup objid m.prepare) [
      | none ↦ some m
      | some o ↦ as_client objid o >>= λ _.
          some (record m {
            prepare = erase objid m.prepare;
            io = put_message k cli_connect_failed m.io;
          })
    ]

unfoldable pub on_close : ℕ → TcpManager → Option TcpManager
unfolding lock store switch client_on_stop server_on_stop removed
on_close k m =
    let objid = get_object_id k in
    if elem objid m.idx_obj_map
    then (lock objid m >>= λ o.
        switch objid o
          (λ c. client_on_stop k c m.io >>= λ (c', io').
            removed (object_bits k) system_stop (store objid m (client c', io')))
          (λ s. server_on_stop k s m.io >>= λ (s', io').
            removed k system_stop (store objid m (server s', io'))))
    else some m

-- OnRead: a link whose read fails is closed.
abbrev pub after_read : Code → ℕ → TcpManager → Option TcpManager
after_read success k m = some m
after_read (fail n) k m = manager_on_error k m

unfoldable pub manager_on_read : ℕ → List ℕ → TcpManager → Option TcpManager
unfolding lock store switch client_on_link_read server_on_link_read
manager_on_read k d m =
    let objid = get_object_id k in
    if elem objid m.idx_obj_map
    then (lock objid m >>= λ o.
        switch objid o
          (λ c. let (c', io', ret) = client_on_link_read d c m.io in some ((client c', io'), ret))
          (λ s. server_on_link_read k d s m.io >>= λ (s', io', ret). some ((server s', io'), ret))
        >>= λ (r, ret). after_read ret k (store objid m r))
    else some m

-- OnWrite
unfoldable pub on_write : Bool → ℕ → TcpManager → Option TcpManager
unfolding lock store switch client_on_link_write server_on_link_write
on_write ok k m =
    let objid = get_object_id k in
    if elem objid m.idx_obj_map
    then (lock objid m >>= λ o.
        switch objid o (λ c. client_on_link_write ok c >>= λ c'. some (client c', m.io))
          (λ s. server_on_link_write ok k s >>= λ s'. some (server s', m.io))
        >>= λ r. some (store objid m r))
    else some m

-- OnStart. A client waits in `prepare_` for its connection, a server moves to the registry at once.
unfoldable pub on_start : Bool → Bool → Bool → ℕ → TcpManager → Option TcpManager
unfolding switch register client_on_start server_on_start put_message
on_start connects bound listens k m =
    let objid = get_object_id k in
    elim (lookup objid m.prepare) [
      | none ↦ some m
      | some o ↦
          switch objid o
            (λ c.
              let (c', ok) = client_on_start connects c in
              let m' = record m { prepare = update objid (client c') m.prepare } in
              some (if ok then m' else record m' { io = put_message k cli_start_failed m.io }))
            (λ s.
              let (s', ok) = server_on_start bound listens s in
              let m' = record m { prepare = update objid (server s') m.prepare } in
              some (
                if ok
                then register objid (server s') m
                else record m' { io = put_message k svr_start_failed m.io }))
    ]
