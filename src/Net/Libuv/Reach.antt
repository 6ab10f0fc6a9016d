-- ===== src/Net/Libuv/Reach.antt =====
-- The network as a transition system: calls of other threads and callbacks of libuv, in any order.
use dolphin_core.Base.{
  ℕ, ◌+◌, ◌/◌, ◌^◌, ◌≤◌, ◌<◌, ◌≡◌, ◌≢◌, refl, Bool, true, false, List, [], Option, none, some,
  length, not, ◌&&◌, ◌||◌, ◌⊎◌, inl, inr, Bool-cases, false≢true, sym,
}
use dolphin_core.Base.Assoc.{keys, lookup}
use dolphin_core.Net.Shared.{get_object_id, link_bits, ◌>>=◌}
use dolphin_core.Net.Returns.{Returns, >>=-Returns, IfReturns, IfReturns-of_Returns}
use dolphin_core.Net.TcpManager.Failed.{unread-IfReturns, own_error-IfReturns}
use dolphin_core.Net.TcpLink.Gateway.{LinkAttr}
use dolphin_core.Net.TcpServer.{TcpServer}
use dolphin_core.Net.TcpManager.{TcpManager, TcpObj, server, on_start, on_write, on_close}
use dolphin_core.Net.TcpManager.Calls.{
  send_data, client_send, kick_link, stop_obj, add_client, add_server,
}
use dolphin_core.Net.TcpManager.Valid.{IsValid, IsStartting}
use dolphin_core.Net.TcpManager.Ids.{taken, add_client-IsValid, add_server-IsValid}
use dolphin_core.Net.TcpManager.Handlers.{
  send_data-IsValid, client_send-IsValid, kick_link-IsValid, stop_obj-IsValid, on_close-IsValid,
}
use dolphin_core.Net.TcpManager.Callbacks.{
  manager_on_error-IsValid, on_write-IsValid, accept-IsValid, on_connect-IsValid, on_start-IsValid,
  manager_on_read-IsValid,
}
use dolphin_core.Net.Libuv.{tcp_accept_cb, tcp_connect_cb, tcp_read_cb, after_write_cb}

pub data Event : Type 0 where
  call_add_client : ℕ → Event
  call_add_server : ℕ → LinkAttr → Event
  call_send : ℕ → List ℕ → Event
  call_client_send : ℕ → List ℕ → Event
  call_kick : ℕ → Event
  call_stop : ℕ → Event
  started : Bool → Bool → Bool → ℕ → Event
  connected : Bool → ℕ → Event
  accepted : Bool → Bool → Bool → ℕ → ℕ → Event
  data_read : Option (List ℕ) → ℕ → Event
  write_ready : Bool → ℕ → Event
  written : Bool → ℕ → Event
  close_ready : ℕ → Event

unfoldable pub step : Event → TcpManager → Option TcpManager
unfolding add_client add_server send_data client_send kick_link stop_obj on_start tcp_connect_cb
    tcp_accept_cb tcp_read_cb on_write after_write_cb on_close
step (call_add_client rounds) m = add_client rounds m >>= λ r. some r.0
step (call_add_server rounds attr) m = add_server rounds attr m >>= λ r. some r.0
step (call_send k d) m = send_data k d m >>= λ r. some r.0
step (call_client_send objid d) m = client_send objid d m >>= λ r. some r.0
step (call_kick k) m = kick_link k m
step (call_stop objid) m = some (stop_obj objid m)
step (started connects bound listens k) m = on_start connects bound listens k m
step (connected ok k) m = tcp_connect_cb ok k m
step (accepted ok accepts reads rounds k) m = tcp_accept_cb ok accepts reads rounds k m
step (data_read d k) m = tcp_read_cb d k m
step (write_ready ok k) m = on_write ok k m
step (written ok k) m = after_write_cb ok k m
step (close_ready k) m = on_close k m

-- A key that a link may have: below a server, its own; and no server under it waits to be started.
abbrev pub IsLinkKey : ℕ → TcpManager → Type 0
IsLinkKey k m =
    (get_object_id k / 2 ^ 24 ≢ 1 → 0 < link_bits k)
    × ((s : TcpServer) → lookup (get_object_id k) m.prepare ≢ some (server s))

-- Fewer ids and links than there are numbers for them.
abbrev pub HasRoom : ℕ → ℕ → TcpManager → Type 0
HasRoom rounds k m =
    (s : TcpServer)
    → lookup (get_object_id k) m.vec_objs ≡ some (server s)
    → (length (keys s.link_map) < rounds) × (s.generate + rounds ≤ 2 ^ 31)

-- An accept that fails: libuv reports an error for it, or the link that it takes cannot be read from.
abbrev pub accept_fails : Event → Bool
accept_fails (accepted ok accepts reads rounds k) = not ok || (accepts && not reads)
accept_fails _ = false

-- What callers and libuv keep to: data sent on a link, reads, errors and writes come with the key of
-- a link, data sent by a client with its id, a connection is answered that was asked for, and an
-- accept, whatever comes of it, comes with the key of a server, which has had fewer than 2 ^ 31
-- links. No status that libuv gives is ruled out.
abbrev pub Allowed : Event → TcpManager → Type 0
Allowed (call_add_client rounds) m = (length (taken m) < rounds) × (rounds ≤ 2 ^ 16)
Allowed (call_add_server rounds attr) m = (length (taken m) < rounds) × (rounds ≤ 2 ^ 16)
Allowed (call_send k d) m = 0 < link_bits k
Allowed (call_client_send objid d) m = objid / 2 ^ 24 ≡ 1
Allowed (call_kick k) m = Unit
Allowed (call_stop objid) m = Unit
Allowed (started connects bound listens k) m = Unit
Allowed (connected true k) m =
    (o : TcpObj) → lookup (get_object_id k) m.prepare ≡ some o → IsStartting o
Allowed (connected false k) m = IsLinkKey k m × (get_object_id k / 2 ^ 24 ≡ 1)
Allowed (accepted ok accepts reads rounds k) m =
    (get_object_id k / 2 ^ 24 ≡ 2) × (link_bits k ≡ 0) × HasRoom rounds k m
Allowed (data_read d k) m = IsLinkKey k m
Allowed (write_ready ok k) m = get_object_id k / 2 ^ 24 ≢ 1 → 0 < link_bits k
Allowed (written ok k) m = IsLinkKey k m
Allowed (close_ready k) m = k < 2 ^ 64

-- What is allowed in a valid state and is no failed accept returns, and leaves a valid state.
step-IsValid :
    (e : Event) (m : TcpManager)
    → IsValid m
    → Allowed e m
    → accept_fails e ≡ false
    → Returns IsValid (step e m)
unfolding step tcp_connect_cb tcp_accept_cb tcp_read_cb after_write_cb
step-IsValid (call_add_client rounds) m v a g =
    >>=-Returns (λ (q : TcpManager × ℕ). IsValid q.0) IsValid (add_client rounds m) _
      (add_client-IsValid rounds m v a.0 a.1) (λ _ p. p)
step-IsValid (call_add_server rounds attr) m v a g =
    >>=-Returns (λ (q : TcpManager × ℕ). IsValid q.0) IsValid (add_server rounds attr m) _
      (add_server-IsValid rounds m v a.0 a.1 attr) (λ _ p. p)
step-IsValid (call_send k d) m v a g =
    >>=-Returns (λ (q : TcpManager × Bool). IsValid q.0) IsValid (send_data k d m) _
      (send_data-IsValid m v k d a) (λ _ p. p)
step-IsValid (call_client_send objid d) m v a g =
    >>=-Returns (λ (q : TcpManager × Bool). IsValid q.0) IsValid (client_send objid d m) _
      (client_send-IsValid m v objid d a) (λ _ p. p)
step-IsValid (call_kick k) m v a g = kick_link-IsValid m v k
step-IsValid (call_stop objid) m v a g = stop_obj-IsValid m v objid
step-IsValid (started connects bound listens k) m v a g =
    on_start-IsValid m v k connects bound listens
step-IsValid (connected true k) m v a g = on_connect-IsValid m v k a
step-IsValid (connected false k) m v a g = manager_on_error-IsValid m v k a.0.0 a.0.1
step-IsValid (accepted false accepts reads rounds k) m v a g = absurd (false≢true (sym g))
step-IsValid (accepted true true false rounds k) m v a g = absurd (false≢true (sym g))
step-IsValid (accepted true false false rounds k) m v a g =
    accept-IsValid m v k false rounds a.0 a.2
step-IsValid (accepted true accepts true rounds k) m v a g =
    accept-IsValid m v k accepts rounds a.0 a.2
step-IsValid (data_read none k) m v a g = manager_on_error-IsValid m v k a.0 a.1
step-IsValid (data_read (some d) k) m v a g = manager_on_read-IsValid m v k d a.0 a.1
step-IsValid (write_ready ok k) m v a g = on_write-IsValid m v k ok a
step-IsValid (written true k) m v a g = v
step-IsValid (written false k) m v a g = manager_on_error-IsValid m v k a.0 a.1
step-IsValid (close_ready k) m v a g = on_close-IsValid m v k a

-- A failed accept leaves a valid state where it returns.
failed-IfReturns :
    (e : Event) (m : TcpManager)
    → IsValid m
    → Allowed e m
    → accept_fails e ≡ true
    → IfReturns IsValid (step e m)
unfolding step tcp_accept_cb
failed-IfReturns (accepted false accepts reads rounds k) m v a g = own_error-IfReturns m v k a.0 a.1
failed-IfReturns (accepted true true false rounds k) m v a g = unread-IfReturns m v k rounds
failed-IfReturns (accepted true false reads rounds k) m v a g = absurd (false≢true g)
failed-IfReturns (accepted true true true rounds k) m v a g = absurd (false≢true g)
failed-IfReturns (call_add_client rounds) m v a g = absurd (false≢true g)
failed-IfReturns (call_add_server rounds attr) m v a g = absurd (false≢true g)
failed-IfReturns (call_send k d) m v a g = absurd (false≢true g)
failed-IfReturns (call_client_send objid d) m v a g = absurd (false≢true g)
failed-IfReturns (call_kick k) m v a g = absurd (false≢true g)
failed-IfReturns (call_stop objid) m v a g = absurd (false≢true g)
failed-IfReturns (started connects bound listens k) m v a g = absurd (false≢true g)
failed-IfReturns (connected ok k) m v a g = absurd (false≢true g)
failed-IfReturns (data_read d k) m v a g = absurd (false≢true g)
failed-IfReturns (write_ready ok k) m v a g = absurd (false≢true g)
failed-IfReturns (written ok k) m v a g = absurd (false≢true g)
failed-IfReturns (close_ready k) m v a g = absurd (false≢true g)

step-IfReturns :
    (e : Event) (m : TcpManager) → IsValid m → Allowed e m → IfReturns IsValid (step e m)
step-IfReturns e m v a = elim (Bool-cases (accept_fails e)) [
  | inl f ↦ failed-IfReturns e m v a f
  | inr g ↦ IfReturns-of_Returns IsValid (step e m) (step-IsValid e m v a g)
]

-- No object yet; the constructor does not set the counter.
abbrev pub new_manager : ℕ → TcpManager
new_manager indx = record {
  idx_obj_map = [];
  prepare = [];
  vec_objs = [];
  obj_idx_indx = indx;
  io = record {
    recv_queue = [];
    obj_async_queue = [];
    write_queue = [];
    close_queue = [];
    closed = [];
  };
}

pub data Reachable : TcpManager → Type 0 where
  initial : (indx : ℕ) → indx < 2 ^ 16 → Reachable (new_manager indx)
  next :
      (e : Event) (m : TcpManager) {m' : TcpManager}
      → Reachable m
      → Allowed e m
      → step e m ≡ some m'
      → Reachable m'

pub Reachable-IsValid : (m : TcpManager) → Reachable m → IsValid m
Reachable-IsValid m (initial indx h) = record {
  weak = refl;
  once = tt;
  waiting = tt;
  apart = λ i h. refl;
  live = tt;
  prepared = tt;
  counted = h;
}
Reachable-IsValid m' (next e m r a s) =
    let p : IfReturns IsValid (step e m) = step-IfReturns e m (Reachable-IsValid m r) a in rw s at p

-- What Allowed admits in a state that can be reached, which rules out no status of libuv, returns,
-- to such a state again, without a failed assert, a call through NULL or an endless search for a
-- number; only an accept that fails, by an error that libuv reports for it or on a link that cannot
-- be read from, may fault instead.
pub Reachable-step :
    (e : Event) (m : TcpManager)
    → Reachable m
    → Allowed e m
    → ((m' : TcpManager) × (step e m ≡ some m') × Reachable m')
      ⊎ ((accept_fails e ≡ true) × (step e m ≡ none))
Reachable-step e m r a = go (step e m) (accept_fails e) refl refl
  where
    go :
        (q : Option TcpManager) (b : Bool)
        → step e m ≡ q
        → accept_fails e ≡ b
        → ((m' : TcpManager) × (step e m ≡ some m') × Reachable m')
          ⊎ ((accept_fails e ≡ true) × (step e m ≡ none))
    go (some m') b s f = inl (m', s, next e m r a s)
    go none true s f = inr (f, s)
    go none false s f =
        let p : Returns IsValid (step e m) = step-IsValid e m (Reachable-IsValid m r) a f in
        absurd (rw s at p)
