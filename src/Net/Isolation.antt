-- ===== src/Net/Isolation.antt =====
-- What the handlers of one object leave alone: the other objects and, below a server, the other
-- links; and what an error at a link comes to.
pub mod Handlers
pub mod Events
use dolphin_core.Base.{
  ℕ, ◌+◌, ◌/◌, ◌%◌, ◌^◌, ◌<◌, ◌≡◌, ◌≢◌, refl, sym, ◌∙◌, arith, Bool, true, false, List, [], ◌∷◌,
  ◌++◌, Option, none, some, ◌==◌, if◌then◌else◌, if_elim, Option-cases, inl, inr,
}
use dolphin_core.Base.Assoc.{
  elem, keys, lookup, update, erase, remove, lookup-update_ne, lookup-erase_ne, lookup-append_ne,
  lookup-append, insert, lookup-none, keys-erase, elem-remove_self, elem_of_lookup,
}
use dolphin_core.Net.Shared.{
  Io, TcpMessage, MessageType, system_stop, get_object_id, link_bits, object_bits, ◌>>=◌,
}
use dolphin_core.Net.Returns.{IfReturns, >>=-IfReturns, any_result}
use dolphin_core.Net.TcpLink.{Code, success, fail}
use dolphin_core.Net.TcpLink.Gateway.{LinkAttr}
use dolphin_core.Net.Libuv.{tcp_accept_cb, tcp_connect_cb, tcp_read_cb, after_write_cb}
use dolphin_core.Net.Libuv.Reach.{
  Event, step, Allowed, Reachable, Reachable-step, call_add_client, call_add_server, call_send,
  call_client_send, call_kick, call_stop, started, connected, accepted, data_read, write_ready,
  written, close_ready,
}
use dolphin_core.Net.TcpLink.Send.{TcpLink, stop}
use dolphin_core.Net.TcpClient.{
  TcpClient, client_send_data, client_on_start, client_on_error, client_on_stop,
}
use dolphin_core.Net.TcpServer.{
  TcpServer, server_on_start, on_accept, on_stop_link, server_on_error, server_on_stop,
}
use dolphin_core.Net.TcpServer.Safe.{IsServer, IsRunning, LinkEntry}
use dolphin_core.Net.TcpManager.Handlers.{object_bits-id}
use dolphin_core.Net.TcpManager.{
  TcpManager, TcpObj, client, server, switch, lock, store, remove_obj, removed, manager_on_error,
  as_client, as_server, get_obj_type, tcpobj_client, tcpobj_server, manager_on_read, register,
  on_connect, on_start, manager_on_accept, after_read, on_write, on_close,
}
use dolphin_core.Net.TcpManager.Calls.{
  client_send, kick_link, stop_obj, add_client, add_server, next_obj_id, send_data,
}

-- What was there under another id still is.
pub record IsAside (i : ℕ) (m m' : TcpManager) : Type 0 where
  pub objects : lookup i m'.vec_objs ≡ lookup i m.vec_objs
  pub waiting : lookup i m'.prepare ≡ lookup i m.prepare

pub IsAside-trans : {i : ℕ} {a b c : TcpManager} → IsAside i a b → IsAside i b c → IsAside i a c
IsAside-trans p q = record { objects = q.objects ∙ p.objects; waiting = q.waiting ∙ p.waiting }

pub switch-IfReturns :
    {A : Type 0} (P : A → Type 0) (oid : ℕ) (o : TcpObj) (f : TcpClient → Option A)
    (g : TcpServer → Option A)
    → ((c : TcpClient) → IfReturns P (f c))
    → ((s : TcpServer) → IfReturns P (g s))
    → IfReturns P (switch oid o f g)
unfolding switch
switch-IfReturns P oid (client c) f g hf hg =
    >>=-IfReturns (λ _. Unit {0}) P (as_client oid (client c)) f
      (any_result (as_client oid (client c))) (λ c' _. hf c')
switch-IfReturns P oid (server s) f g hf hg =
    >>=-IfReturns (λ _. Unit {0}) P (as_server oid (server s)) g
      (any_result (as_server oid (server s))) (λ s' _. hg s')

module _ (i : ℕ) (m : TcpManager) where
  pub IsAside-refl : IsAside i m m
  IsAside-refl = record { objects = refl; waiting = refl }

  -- A call on an object that is looked up first.
  pub lock-IsAside :
      (oid : ℕ) (f : TcpObj → Option TcpManager)
      → ((o : TcpObj) → IfReturns (IsAside i m) (f o))
      → IfReturns (IsAside i m) (if elem oid m.idx_obj_map then lock oid m >>= f else some m)
  lock-IsAside oid f h =
      if_elim (IfReturns (IsAside i m)) (elem oid m.idx_obj_map) _ _
        (λ _.
          >>=-IfReturns (λ _. Unit {0}) (IsAside i m) (lock oid m) f (any_result (lock oid m))
            (λ o _. h o))
        (λ _. IsAside-refl)

  pub store-IsAside : (oid : ℕ) (r : TcpObj × Io) → i ≢ oid → IsAside i m (store oid m r)
  unfolding store
  store-IsAside oid r h = record {
    objects = lookup-update_ne oid i r.0 m.vec_objs h;
    waiting = refl;
  }

  pub remove_obj-IsAside : (k : ℕ) → i ≢ get_object_id k → IfReturns (IsAside i m) (remove_obj k m)
  unfolding remove_obj
  remove_obj-IsAside k h =
      if_elim (IfReturns (IsAside i m)) (elem (get_object_id k) (keys m.vec_objs)) _ _
        (λ _. record { objects = lookup-erase_ne (get_object_id k) i m.vec_objs h; waiting = refl })
        (λ _. tt)

  pub removed-IsAside :
      (k : ℕ) (t : MessageType) → i ≢ get_object_id k → IfReturns (IsAside i m) (removed k t m)
  unfolding removed
  removed-IsAside k t h =
      if_elim (IfReturns (IsAside i m)) (link_bits k == 0) _ _
        (λ _.
          >>=-IfReturns (IsAside i m) (IsAside i m) (remove_obj k m) _ (remove_obj-IsAside k h)
            (λ m' p. record { objects = p.objects; waiting = p.waiting }))
        (λ _. IsAside-refl)

pub IfReturns-trans :
    {i : ℕ} {a b : TcpManager} (q : Option TcpManager)
    → IsAside i a b
    → IfReturns (IsAside i b) q
    → IfReturns (IsAside i a) q
IfReturns-trans none p h = tt
IfReturns-trans (some c) p h = IsAside-trans p h

-- What becomes of an object, and after that its removal.
pub replaced-IsAside :
    (i k oid : ℕ) (t : MessageType) (m : TcpManager) (r : TcpObj × Io)
    → i ≢ oid
    → get_object_id k ≡ oid
    → IfReturns (IsAside i m) (removed k t (store oid m r))
replaced-IsAside i k oid t m r h e =
    IfReturns-trans (removed k t (store oid m r)) (store-IsAside i m oid r h)
      (removed-IsAside i (store oid m r) k t (λ q. h (q ∙ e)))
