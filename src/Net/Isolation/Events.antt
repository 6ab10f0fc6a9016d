-- ===== src/Net/Isolation/Events.antt =====
-- Every event, seen from an object that it is not about.
use dolphin_core.Base.{ℕ, ◌≡◌, ◌≢◌, Bool, true, false, none, some, ◌⊎◌, inl, inr}
use dolphin_core.Base.Assoc.{elem}
use dolphin_core.Net.TcpManager.Ids.{taken}
use dolphin_core.Net.Returns.{IfReturns, >>=-IfReturns}
use dolphin_core.Net.Shared.{get_object_id}
use dolphin_core.Net.Libuv.{tcp_accept_cb, tcp_connect_cb, tcp_read_cb, after_write_cb}
use dolphin_core.Net.Libuv.Reach.{
  Event, step, accept_fails, Allowed, Reachable, Reachable-step, call_add_client, call_add_server,
  call_send, call_client_send, call_kick, call_stop, started, connected, accepted, data_read,
  write_ready, written, close_ready,
}
use dolphin_core.Net.TcpManager.{TcpManager}
use dolphin_core.Net.TcpManager.Calls.{client_send, add_client, add_server, send_data}
use dolphin_core.Net.Isolation.{IsAside, IsAside-refl}
use dolphin_core.Net.Isolation.Handlers.{
  manager_on_error-IsAside, on_close-IsAside, manager_on_read-IsAside, on_write-IsAside,
  on_connect-IsAside, on_start-IsAside, manager_on_accept-IsAside, send_data-IsAside,
  kick_link-IsAside, client_send-IsAside, stop_obj-IsAside, add_client-IsAside, add_server-IsAside,
}

-- An object that an event is not about: another than the one that it names, and for the two calls
-- that make an object any that is there, registered or waiting.
abbrev pub IsOther : Event → ℕ → TcpManager → Type 0
IsOther (call_add_client rounds) i m = elem i (taken m) ≡ true
IsOther (call_add_server rounds attr) i m = elem i (taken m) ≡ true
IsOther (call_send k d) i m = i ≢ get_object_id k
IsOther (call_client_send objid d) i m = i ≢ objid
IsOther (call_kick k) i m = i ≢ get_object_id k
IsOther (call_stop objid) i m = i ≢ objid
IsOther (started connects bound listens k) i m = i ≢ get_object_id k
IsOther (connected ok k) i m = i ≢ get_object_id k
IsOther (accepted ok accepts reads rounds k) i m = i ≢ get_object_id k
IsOther (data_read d k) i m = i ≢ get_object_id k
IsOther (write_ready ok k) i m = i ≢ get_object_id k
IsOther (written ok k) i m = i ≢ get_object_id k
IsOther (close_ready k) i m = i ≢ get_object_id k

step-IsAside :
    (e : Event) (i : ℕ) (m : TcpManager) → IsOther e i m → IfReturns (IsAside i m) (step e m)
unfolding step tcp_connect_cb tcp_accept_cb tcp_read_cb after_write_cb
step-IsAside (call_add_client rounds) i m h =
    >>=-IfReturns (λ (q : TcpManager × ℕ). IsAside i m q.0) (IsAside i m) (add_client rounds m) _
      (add_client-IsAside i rounds m h) (λ _ p. p)
step-IsAside (call_add_server rounds attr) i m h =
    >>=-IfReturns (λ (q : TcpManager × ℕ). IsAside i m q.0) (IsAside i m) (add_server rounds attr m)
      _ (add_server-IsAside i rounds m h attr) (λ _ p. p)
step-IsAside (call_send k d) i m h =
    >>=-IfReturns (λ (q : TcpManager × Bool). IsAside i m q.0) (IsAside i m) (send_data k d m) _
      (send_data-IsAside i k h d m) (λ _ p. p)
step-IsAside (call_client_send objid d) i m h =
    >>=-IfReturns (λ (q : TcpManager × Bool). IsAside i m q.0) (IsAside i m) (client_send objid d m)
      _ (client_send-IsAside i objid d m h) (λ _ p. p)
step-IsAside (call_kick k) i m h = kick_link-IsAside i k h m
step-IsAside (call_stop objid) i m h = stop_obj-IsAside i objid m
step-IsAside (started connects bound listens k) i m h =
    on_start-IsAside i k h connects bound listens m
step-IsAside (connected true k) i m h = on_connect-IsAside i k h m
step-IsAside (connected false k) i m h = manager_on_error-IsAside i k h m
step-IsAside (accepted true accepts reads rounds k) i m h =
    manager_on_accept-IsAside i k h accepts reads rounds m
step-IsAside (accepted false accepts reads rounds k) i m h = manager_on_error-IsAside i k h m
step-IsAside (data_read none k) i m h = manager_on_error-IsAside i k h m
step-IsAside (data_read (some d) k) i m h = manager_on_read-IsAside i k h d m
step-IsAside (write_ready ok k) i m h = on_write-IsAside i k h ok m
step-IsAside (written true k) i m h = IsAside-refl i m
step-IsAside (written false k) i m h = manager_on_error-IsAside i k h m
step-IsAside (close_ready k) i m h = on_close-IsAside i k h m

-- Whatever is allowed in a state that can be reached returns, unless it is an accept that fails,
-- and leaves the objects that it is not about as they are: registered or not, with their links,
-- their bytes and their status.
pub Reachable-isolated :
    (e : Event) (i : ℕ) (m : TcpManager)
    → Reachable m
    → Allowed e m
    → IsOther e i m
    → ((m' : TcpManager) × (step e m ≡ some m') × IsAside i m m')
      ⊎ ((accept_fails e ≡ true) × (step e m ≡ none))
Reachable-isolated e i m r a h = elim (Reachable-step e m r a) [
  | inl (m', s, _) ↦
      let p : IfReturns (IsAside i m) (step e m) = step-IsAside e i m h in inl (m', s, rw s at p)
  | inr f ↦ inr f
]
