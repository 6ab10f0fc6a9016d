-- ===== src/Net/Stops/Tests.antt =====
-- The theorems about the ends of links, about what waits on them and about new numbers, at a server
-- with one link.
use dolphin_core.Base.{ℕ, ◌≡◌, refl, arith, true, List, [], ◌∷◌, ◌++◌, none, some}
use dolphin_core.Base.Assoc.{elem, lookup, erase}
use dolphin_core.Net.Shared.{system_stop, set_link_key, get_object_id}
use dolphin_core.Net.Returns.{Returns}
use dolphin_core.Net.TcpLink.{fail, on_data}
use dolphin_core.Net.TcpLink.Gateway.{lat_none, new_reader, on_read}
use dolphin_core.Net.TcpLink.Send.{data_messages}
use dolphin_core.Net.TcpServer.{next_link_id, server_on_error, server_on_start, new_server}
use dolphin_core.Net.TcpServer.Accept.{IsFresh, next_link_id-IsFresh}
use dolphin_core.Net.TcpManager.{
  TcpManager, server, manager_on_error, manager_on_read, tcpobj_client,
}
use dolphin_core.Net.TcpManager.Calls.{next_obj_id, send_data}
use dolphin_core.Net.TcpManager.Valid.{IsValid, io-IsValid}
use dolphin_core.Net.TcpManager.Ids.{IsUnused, next_obj_id-IsUnused}
use dolphin_core.Net.Libuv.{link_write_event}
use dolphin_core.Net.Libuv.Reach.{Reachable-IsValid}
use dolphin_core.Net.Libuv.Tests.{
  oid, open_key, link, linked_server, linked_manager, linked_manager-Reachable,
}
use dolphin_core.Net.Stops.{
  HasLink, IsStopped, error_stops_link, bad_read_stops_link, own_error_faults,
}
use dolphin_core.Net.Writes.{pending}
use dolphin_core.Net.Writes.Sends.{send_data_waits}
use dolphin_core.Net.Writes.Event.{link_write_event_drains}
use dolphin_core.Net.Writes.Order.{sends, hands, link_run, sent, link_run_order}

valid : IsValid linked_manager
valid = Reachable-IsValid linked_manager linked_manager-Reachable

linked : HasLink open_key linked_manager linked_server link
linked = record { registered = refl; linked = refl }

error_stops_link_example :
    (m' : TcpManager) × (manager_on_error open_key linked_manager ≡ some m')
    × IsStopped open_key linked_manager m' linked_server
error_stops_link_example = error_stops_link open_key linked_manager linked_server link valid linked

-- A packet of two bytes, and the size field of one of 2 GB.
abbrev bytes : List ℕ
bytes = 2 ∷ 0 ∷ 0 ∷ 0 ∷ 0 ∷ 0 ∷ 71 ∷ 72 ∷ 0 ∷ 0 ∷ 0 ∷ 128 ∷ 0 ∷ 0 ∷ []

bad_bytes : (on_read (new_reader lat_none) bytes).code ≡ fail 3
unfolding on_read new_reader on_data
bad_bytes = refl

bad_read_stops_link_example :
    (m' : TcpManager) × (manager_on_read open_key bytes linked_manager ≡ some m')
    × (lookup (get_object_id open_key) m'.vec_objs
        ≡ some (server (record linked_server { link_map = erase open_key linked_server.link_map })))
    × (m'.io.closed ≡ linked_manager.io.closed ++ (open_key ∷ []))
    × (m'.io.recv_queue
        ≡ (linked_manager.io.recv_queue
            ++ data_messages open_key (on_read (new_reader lat_none) bytes).delivered)
          ++ (record { key = open_key; type = system_stop; bytes = [] } ∷ []))
bad_read_stops_link_example =
    bad_read_stops_link open_key linked_manager linked_server link valid linked bytes 3 bad_bytes

own_error_faults_example :
    server_on_error
      (set_link_key oid 0)
      (server_on_start true true (new_server oid lat_none)).0
      linked_manager.io
    ≡ none
own_error_faults_example = own_error_faults oid lat_none true true linked_manager.io

-- A key that was queued for writing.
abbrev queued_manager : TcpManager
queued_manager = record linked_manager {
  io = record (linked_manager.io) { write_queue = open_key ∷ [] };
}

link_write_event_drains_example :
    (m' : TcpManager) × (link_write_event (λ _. true) queued_manager ≡ some m')
    × IsValid m'
    × ((k : ℕ) → elem k queued_manager.io.write_queue ≡ true → pending k m' ≡ [])
link_write_event_drains_example =
    link_write_event_drains (λ _. true) queued_manager
      (io-IsValid queued_manager.io linked_manager valid) ((λ _. omega arith), tt)

link_run_order_example :
    Returns
      (λ r.
        r.0.handed ++ r.0.write_queue
        ≡ (link.handed ++ link.write_queue) ++ sent (sends (1 ∷ []) ∷ hands ∷ sends (2 ∷ []) ∷ []))
      (link_run (sends (1 ∷ []) ∷ hands ∷ sends (2 ∷ []) ∷ []) link linked_manager.io)
link_run_order_example =
    link_run_order (sends (1 ∷ []) ∷ hands ∷ sends (2 ∷ []) ∷ []) link linked_manager.io refl

next_link_id-IsFresh_example : Returns (IsFresh linked_server 1) (next_link_id 3 linked_server 1)
next_link_id-IsFresh_example = next_link_id-IsFresh 3 linked_server 1 (omega arith) (omega arith)

next_obj_id-IsUnused_example :
    Returns
      (IsUnused tcpobj_client linked_manager)
      (next_obj_id 2 tcpobj_client linked_manager linked_manager.obj_idx_indx)
next_obj_id-IsUnused_example =
    next_obj_id-IsUnused 2 tcpobj_client linked_manager (omega arith) (omega arith) (omega arith)

send_data_waits_example :
    (m' : TcpManager) × (send_data open_key (5 ∷ []) linked_manager ≡ some (m', true))
    × (pending open_key m' ≡ pending open_key linked_manager ++ ((5 ∷ []) ∷ []))
    × (m'.io.write_queue ≡ linked_manager.io.write_queue ++ (open_key ∷ []))
send_data_waits_example =
    send_data_waits open_key linked_manager linked_server link valid linked (5 ∷ [])
