-- ===== src/Net/Stops.antt =====
-- How a link ends: on an error, on a request, on data that no packet starts with; and what an error
-- at the server itself comes to.
mod Tests
use dolphin_core.Base.{
  ℕ, ◌+◌, ◌/◌, ◌%◌, ◌^◌, ◌<◌, ◌≡◌, ◌≢◌, refl, sym, ap, ◌∙◌, arith, Bool, true, false, List, [], ◌∷◌,
  ◌++◌, Option, none, some, ◌==◌, if◌then◌else◌, if_elim, if_true, if_false, ==_iff, Bool-cases,
  inl, inr,
}
use dolphin_core.Base.Assoc.{
  elem, keys, lookup, update, erase, remove, lookup-update_self, lookup-none, keys-erase,
  keys-update, elem-remove_self, elem_of_lookup, AllEntries-lookup,
}
use dolphin_core.Net.Shared.{
  Io, TcpMessage, MessageType, system_stop, set_link_key, get_object_id, link_bits, link_del,
  put_recv_queue, ◌>>=◌,
}
use dolphin_core.Net.TcpLink.{Code, success, fail}
use dolphin_core.Net.TcpLink.Gateway.{LinkAttr, Read, on_read}
use dolphin_core.Net.TcpLink.Send.{TcpLink, stop, data_messages, link_read}
use dolphin_core.Net.TcpServer.{
  TcpServer, new_server, server_on_start, on_stop_link, server_on_error, server_on_stop,
  server_on_link_read, is_closed,
}
use dolphin_core.Net.TcpServer.Safe.{IsServer, IsRunning, LinkEntry, update-IsRunning}
use dolphin_core.Net.TcpManager.{
  TcpManager, TcpObj, client, server, switch, lock, store, removed, manager_on_error,
  manager_on_read, after_read, on_close,
}
use dolphin_core.Net.TcpManager.Valid.{IsValid, IsLive, switch-server, store-IsValid, erase-update}

-- A server under which a link is open.
pub record HasLink (k : ℕ) (m : TcpManager) (s : TcpServer) (l : TcpLink) : Type 0 where
  pub registered : lookup (get_object_id k) m.vec_objs ≡ some (server s)
  pub linked : lookup k s.link_map ≡ some (some l)

-- The handle of the link is closed, the link is gone, its server is not; and one message says so.
pub record IsStopped (k : ℕ) (m m' : TcpManager) (s : TcpServer) : Type 0 where
  pub server_left :
      lookup (get_object_id k) m'.vec_objs
      ≡ some (server (record s { link_map = erase k s.link_map }))
  pub closed : m'.io.closed ≡ m.io.closed ++ (k ∷ [])
  pub link_gone : lookup k (erase k s.link_map) ≡ none
  pub told :
      m'.io.recv_queue
      ≡ m.io.recv_queue ++ (record { key = k; type = system_stop; bytes = [] } ∷ [])

removed_link : (k : ℕ) (t : MessageType) (m : TcpManager) → 0 < link_bits k → removed k t m ≡ some m
unfolding removed
removed_link k t m h = if_false {b = link_bits k == 0} _ _ (ground (arith, h))

-- The queues after the handle of a link was closed.
abbrev close_handle : ℕ → Io → Io
close_handle k io = record io { closed = io.closed ++ (k ∷ []) }

unfoldable stopped : ℕ → TcpManager → TcpServer → TcpManager
stopped k m s =
    store (get_object_id k) m
      (server (record s { link_map = erase k s.link_map }), link_del k (close_handle k m.io))

module _ (k : ℕ) (m : TcpManager) (s : TcpServer) (l : TcpLink) (v : IsValid m)
    (h : HasLink k m s l) where
  pub running : IsRunning (get_object_id k) s
  running = AllEntries-lookup IsLive (get_object_id k) m.vec_objs v.live h.registered

  pub entry : LinkEntry (get_object_id k) k (some l)
  entry = AllEntries-lookup (LinkEntry (get_object_id k)) k s.link_map running.valid.links h.linked

  on_stop_link_lem :
      on_stop_link k s m.io
      ≡ some (record s { link_map = erase k s.link_map }, link_del k (close_handle k m.io))
  unfolding on_stop_link stop
  on_stop_link_lem =
      rw (running.running, h.linked, entry.0)
        (ap
          (λ key.
            some (record s { link_map = erase k s.link_map }, link_del k (close_handle key m.io)))
          entry.1)

  stopped-IsStopped : IsStopped k m (stopped k m s) s
  unfolding stopped store link_del
  stopped-IsStopped = record {
    server_left =
        lookup-update_self (get_object_id k) _ m.vec_objs
          (elem_of_lookup (get_object_id k) m.vec_objs (server s) h.registered);
    closed = refl;
    link_gone = lookup-none k (erase k s.link_map) (
        rw (keys-erase k s.link_map) (elem-remove_self k (keys s.link_map) running.valid.distinct));
    told = refl;
  }

  pub known : elem (get_object_id k) m.idx_obj_map ≡ true
  known = rw (← v.weak) (elem_of_lookup (get_object_id k) m.vec_objs (server s) h.registered)

  manager_on_error_lem : manager_on_error k m ≡ some (stopped k m s)
  unfolding manager_on_error server_on_error stopped lock
  manager_on_error_lem =
      rw
        (
          known,
          h.registered,
          switch-server (get_object_id k) s _ _ running.valid.typed,
          on_stop_link_lem,
        )
        (removed_link k _ _ entry.3)

  -- An error at a link of a listening server gives the handle of this link, and no other, to
  -- uv_close, takes the link, and no other, out of the map of the server, which stays, and puts one
  -- message, which says that the link stopped.
  pub error_stops_link : (m' : TcpManager) × (manager_on_error k m ≡ some m') × IsStopped k m m' s
  error_stops_link = (stopped k m s, manager_on_error_lem, stopped-IsStopped)

  not_own : (k == s.linkid) ≡ false
  not_own = ground (arith, running.valid.own, running.valid.typed, entry.3)

  -- So does the request to kick the link, when the libuv thread comes to it.
  pub close_stops_link : (m' : TcpManager) × (on_close k m ≡ some m') × IsStopped k m m' s
  unfolding on_close server_on_stop stopped lock
  close_stops_link = (
    stopped k m s,
    rw
        (
          known,
          h.registered,
          switch-server (get_object_id k) s _ _ running.valid.typed,
          not_own,
          on_stop_link_lem,
        )
        (removed_link k _ _ entry.3),
    stopped-IsStopped,
  )

-- A server whose link has read.
after_bytes : ℕ → List ℕ → TcpManager → TcpServer → TcpLink → TcpManager
after_bytes k d m s l = store (get_object_id k) m (
  server (record s { link_map = update k (some (link_read d l m.io).0) s.link_map }),
  (link_read d l m.io).1,
)

module _ (k : ℕ) (m : TcpManager) (s : TcpServer) (l : TcpLink) (v : IsValid m)
    (h : HasLink k m s l) (d : List ℕ) where
  server_on_link_read_lem :
      server_on_link_read k d s m.io
      ≡ some (
        record s { link_map = update k (some (link_read d l m.io).0) s.link_map },
        (link_read d l m.io).1,
        (link_read d l m.io).2,
      )
  unfolding server_on_link_read
  server_on_link_read_lem = rw ((running k m s l v h).running, h.linked) refl

  manager_on_read_lem :
      manager_on_read k d m ≡ after_read (link_read d l m.io).2 k (after_bytes k d m s l)
  unfolding manager_on_read lock after_bytes
  manager_on_read_lem =
      rw
        (
          known k m s l v h,
          h.registered,
          switch-server (get_object_id k) s _ _ (running k m s l v h).valid.typed,
          server_on_link_read_lem,
        )
        refl

  -- A read that a link of a listening server refuses is delivered as far as the link delivers it;
  -- then its handle, and no other, is given to uv_close, the link is taken out of the map of the
  -- server, and the last message says that it stopped.
  pub bad_read_stops_link :
      (n : ℕ)
      → (on_read l.reader d).code ≡ fail n
      → (m' : TcpManager) × (manager_on_read k d m ≡ some m')
        × (lookup (get_object_id k) m'.vec_objs
            ≡ some (server (record s { link_map = erase k s.link_map })))
        × (m'.io.closed ≡ m.io.closed ++ (k ∷ []))
        × (m'.io.recv_queue
            ≡ (m.io.recv_queue ++ data_messages k (on_read l.reader d).delivered)
              ++ (record { key = k; type = system_stop; bytes = [] } ∷ []))
  unfolding after_bytes store link_read put_recv_queue
  bad_read_stops_link n e =
      let run : IsRunning (get_object_id k) s = running k m s l v h in
      let same : l.linkid ≡ k = (entry k m s l v h).1 in
      let l1 : TcpLink = (link_read d l m.io).0 in
      let s1 : TcpServer = record s { link_map = update k (some l1) s.link_map } in
      let m1 : TcpManager = after_bytes k d m s l in
      let v1 : IsValid m1 =
        store-IsValid (get_object_id k) m (server s1, (link_read d l m.io).1) v
          (update-IsRunning k l l1 run h.linked (entry k m s l v h).0 refl) in
      let h1 : HasLink k m1 s1 l1 = record {
        registered =
            lookup-update_self (get_object_id k) (server s1) m.vec_objs
              (elem_of_lookup (get_object_id k) m.vec_objs (server s) h.registered);
        linked =
            lookup-update_self k (some l1) s.link_map
              (elem_of_lookup k s.link_map (some l) h.linked);
      } in
      let gone : IsStopped k m1 (stopped k m1 s1) s1 = stopped-IsStopped k m1 s1 l1 v1 h1 in
      (
        stopped k m1 s1,
        manager_on_read_lem
            ∙ ap (λ ret. after_read ret k m1) e
            ∙ manager_on_error_lem k m1 s1 l1 v1 h1,
        rw (erase-update k (some l1) s.link_map) at gone.server_left,
        gone.closed,
        gone.told
            ∙ ap
                (λ key.
                  (m.io.recv_queue ++ data_messages key (on_read l.reader d).delivered)
                  ++ (record { key = k; type = system_stop; bytes = [] } ∷ []))
                same,
      )

-- An error at the own key of a server that was just started, which is where a failed accept is
-- reported: the call goes through the empty pointer there, or fails an assert if the start failed.
pub own_error_faults :
    (objid : ℕ) (attr : LinkAttr) (bound listens : Bool) (io : Io)
    → server_on_error
        (set_link_key objid 0)
        (server_on_start bound listens (new_server objid attr)).0
        io
      ≡ none
unfolding server_on_error server_on_start new_server on_stop_link
own_error_faults objid attr true true io =
    rw ((==_iff (set_link_key objid 0) (set_link_key objid 0)).1 refl) refl
own_error_faults objid attr true false io = refl
own_error_faults objid attr false listens io = refl
