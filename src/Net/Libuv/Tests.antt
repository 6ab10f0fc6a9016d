-- ===== src/Net/Libuv/Tests.antt =====
-- A server that is added, started, and has a link on which data comes.
use mathlib.Core.Path.{subst}
use dolphin_core.Base.{
  ℕ, ◌+◌, ◌^◌, ◌≡◌, refl, ap, ◌<◌, ◌≤◌, length, arith, true, false, [], ◌∷◌, Option, none, some,
  ◌⊎◌,
}
use dolphin_core.Base.Assoc.{keys}
use dolphin_core.Net.Shared.{Io, svr_accept_ok}
use dolphin_core.Net.TcpLink.Gateway.{lat_none, new_reader}
use dolphin_core.Net.TcpLink.Send.{TcpLink}
use dolphin_core.Net.TcpServer.{TcpServer, ss_closed, ss_running}
use dolphin_core.Net.TcpManager.{TcpManager, TcpObj, server}
use dolphin_core.Net.Libuv.Reach.{
  step, accept_fails, call_add_client, Reachable, initial, next, new_manager, Reachable-step,
  call_add_server, started, accepted, data_read, HasRoom,
}
use dolphin_core.Net.Isolation.{IsAside}
use dolphin_core.Net.Isolation.Events.{Reachable-isolated}

abbrev pub oid : ℕ
oid = 33554432

abbrev pub server_key : ℕ
server_key = 144115188075855872

abbrev pub open_key : ℕ
open_key = 144115188075855873

abbrev pub link : TcpLink
link = record {
  linkid = open_key;
  opened = true;
  reader = new_reader lat_none;
  write_queue = [];
  handed = [];
}

abbrev waiting_server : TcpServer
waiting_server = record {
  linkid = server_key;
  generate = 1;
  status = ss_closed;
  link_map = (server_key, none) ∷ [];
  accepting = false;
  link_attr = lat_none;
}

abbrev running_server : TcpServer
running_server = record waiting_server { status = ss_running; accepting = true }

abbrev pub linked_server : TcpServer
linked_server = record running_server {
  generate = 2;
  link_map = (server_key, none) ∷ (open_key, some link) ∷ [];
}

abbrev queues : Io
queues = record {
  recv_queue = [];
  obj_async_queue = server_key ∷ [];
  write_queue = [];
  close_queue = [];
  closed = [];
}

abbrev added_manager : TcpManager
added_manager = record {
  idx_obj_map = [];
  prepare = (oid, server waiting_server) ∷ [];
  vec_objs = [];
  obj_idx_indx = 1;
  io = queues;
}

abbrev running_manager : TcpManager
running_manager = record added_manager {
  idx_obj_map = oid ∷ [];
  prepare = [];
  vec_objs = (oid, server running_server) ∷ [];
}

abbrev pub linked_manager : TcpManager
linked_manager = record running_manager {
  vec_objs = (oid, server linked_server) ∷ [];
  io = record queues {
    recv_queue = record { key = open_key; type = svr_accept_ok; bytes = [] } ∷ [];
  };
}

step-call_add_server : step (call_add_server 2 lat_none) (new_manager 0) ≡ some added_manager
unfolding step
step-call_add_server = refl

step-started : step (started true true true server_key) added_manager ≡ some running_manager
unfolding step
step-started = refl

step-accepted : step (accepted true true true 3 server_key) running_manager ≡ some linked_manager
unfolding step
step-accepted = refl

abbrev server_of : Option TcpObj → TcpServer
server_of (some (server s)) = s
server_of _ = running_server

running_room : HasRoom 3 server_key running_manager
running_room s e =
    let same : running_server ≡ s = ap server_of e in
    let room : (length (keys running_server.link_map) < 3)
        × (running_server.generate + 3 ≤ 2 ^ 31) =
      (omega arith, omega arith) in
    subst (λ (t : TcpServer). (length (keys t.link_map) < 3) × (t.generate + 3 ≤ 2 ^ 31)) same room

pub linked_manager-Reachable : Reachable linked_manager
linked_manager-Reachable =
    next (accepted true true true 3 server_key) running_manager
      (next (started true true true server_key) added_manager
        (next (call_add_server 2 lat_none) (new_manager 0) (initial 0 (omega arith))
          (omega arith, omega arith) step-call_add_server)
        tt step-started)
      (omega arith, omega arith, running_room) step-accepted

Reachable-step_example :
    ((m' : TcpManager) × (step (data_read (some (2 ∷ 0 ∷ [])) open_key) linked_manager ≡ some m')
      × Reachable m')
    ⊎ ((accept_fails (data_read (some (2 ∷ 0 ∷ [])) open_key) ≡ true)
        × (step (data_read (some (2 ∷ 0 ∷ [])) open_key) linked_manager ≡ none))
Reachable-step_example =
    Reachable-step (data_read (some (2 ∷ 0 ∷ [])) open_key) linked_manager linked_manager-Reachable
      ((λ _. omega arith), λ s e. ground (arith, e))

Reachable-isolated_example :
    ((m' : TcpManager) × (step (call_add_client 3) linked_manager ≡ some m')
      × IsAside oid linked_manager m')
    ⊎ ((accept_fails (call_add_client 3) ≡ true) × (step (call_add_client 3) linked_manager ≡ none))
Reachable-isolated_example =
    Reachable-isolated (call_add_client 3) oid linked_manager linked_manager-Reachable
      (omega arith, omega arith) refl
