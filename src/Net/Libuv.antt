-- ===== src/Net/Libuv.antt =====
-- src/net/tcp/uv_ex.cpp: the callbacks that libuv makes on its thread and the events by which that
-- thread takes over the keys that other threads queue. What libuv answers to the requests that
-- are made meanwhile is an argument, a function of the key where there are several.
pub mod Reach
pub mod Tests
use dolphin_core.Base.{ℕ, Bool, true, false, List, [], ◌∷◌, Option, none, some, if◌then◌else◌}
use dolphin_core.Net.Shared.{Io, ◌>>=◌}
use dolphin_core.Net.TcpManager.{
  TcpManager, manager_on_accept, manager_on_error, manager_on_read, on_connect, on_write, on_close,
  on_start,
}

-- tcp_accept_cb; `ok` says that the status is 0.
unfoldable pub tcp_accept_cb : Bool → Bool → Bool → ℕ → ℕ → TcpManager → Option TcpManager
unfolding manager_on_accept manager_on_error
tcp_accept_cb ok accepts reads rounds k m =
    if ok then manager_on_accept accepts reads rounds k m else manager_on_error k m

-- tcp_connect_cb
unfoldable pub tcp_connect_cb : Bool → ℕ → TcpManager → Option TcpManager
unfolding on_connect manager_on_error
tcp_connect_cb ok k m = if ok then on_connect k m else manager_on_error k m

-- tcp_read_cb: no data where `nread` is negative.
unfoldable pub tcp_read_cb : Option (List ℕ) → ℕ → TcpManager → Option TcpManager
unfolding manager_on_read manager_on_error
tcp_read_cb none k m = manager_on_error k m
tcp_read_cb (some d) k m = manager_on_read k d m

-- after_write_cb
unfoldable pub after_write_cb : Bool → ℕ → TcpManager → Option TcpManager
unfolding manager_on_error
after_write_cb ok k m = if ok then some m else manager_on_error k m

-- A handler for each key of a queue that was swapped out.
abbrev pub each : (ℕ → TcpManager → Option TcpManager) → List ℕ → TcpManager → Option TcpManager
each f [] m = some m
each f (k ∷ ks) m = f k m >>= each f ks

-- TcpObjectEvent, LinkWriteEvent and LinkCloseEvent
unfoldable pub tcp_object_event :
    (ℕ → Bool) → (ℕ → Bool) → (ℕ → Bool) → TcpManager → Option TcpManager
unfolding on_start
tcp_object_event connects bound listens m =
    each (λ k. on_start (connects k) (bound k) (listens k) k) m.io.obj_async_queue
      (record m { io = record (m.io) { obj_async_queue = [] } })

unfoldable pub link_write_event : (ℕ → Bool) → TcpManager → Option TcpManager
unfolding on_write
link_write_event ok m =
    each (λ k. on_write (ok k) k) m.io.write_queue
      (record m { io = record (m.io) { write_queue = [] } })

unfoldable pub link_close_event : TcpManager → Option TcpManager
unfolding on_close
link_close_event m =
    each on_close m.io.close_queue (record m { io = record (m.io) { close_queue = [] } })
