-- ===== src/Net/Isolation/Handlers.antt =====
-- Every handler, seen from an object that it is not about.
use dolphin_core.Base.{
  ℕ, zero, suc, ◌+◌, ◌%◌, ◌^◌, ◌≡◌, ◌≢◌, refl, sym, ap, ◌∙◌, Bool, true, false, ◌||◌, List, ◌==◌,
  if_elim, Option-cases, inl, inr, false≢true,
}
use dolphin_core.Base.Assoc.{
  elem, keys, lookup, update, lookup-update_ne, lookup-erase_ne, lookup-append_ne, elem-append,
  insert,
}
use dolphin_core.Net.Returns.{IfReturns, >>=-IfReturns, any_result}
use dolphin_core.Net.Shared.{Io, get_object_id, object_bits}
use dolphin_core.Net.TcpLink.{Code, success, fail}
use dolphin_core.Net.TcpLink.Gateway.{LinkAttr}
use dolphin_core.Net.TcpClient.{client_send_data, client_on_start, client_on_error, client_on_stop}
use dolphin_core.Net.TcpServer.{server_on_start, on_accept, server_on_error, server_on_stop}
use dolphin_core.Net.TcpManager.Handlers.{object_bits-id}
use dolphin_core.Net.TcpManager.Ids.{taken}
use dolphin_core.Net.TcpManager.{
  TcpManager, TcpObj, client, server, switch, lock, store, manager_on_error, as_client,
  get_obj_type, tcpobj_client, tcpobj_server, manager_on_read, register, on_connect, on_start,
  manager_on_accept, after_read, on_write, on_close,
}
use dolphin_core.Net.TcpManager.Calls.{
  client_send, kick_link, stop_obj, add_client, add_server, next_obj_id, send_data,
}
use dolphin_core.Net.Isolation.{
  IsAside, switch-IfReturns, IsAside-refl, lock-IsAside, store-IsAside, IfReturns-trans,
  replaced-IsAside,
}

module _ (i k : ℕ) (h : i ≢ get_object_id k) where
  pub manager_on_error-IsAside : (m : TcpManager) → IfReturns (IsAside i m) (manager_on_error k m)
  unfolding manager_on_error
  manager_on_error-IsAside m =
      if_elim (IfReturns (IsAside i m)) (elem (get_object_id k) m.idx_obj_map) _ _
        (λ _.
          >>=-IfReturns (λ _. Unit {0}) (IsAside i m) (lock (get_object_id k) m) _
            (any_result (lock (get_object_id k) m))
            (λ o _.
              switch-IfReturns (IsAside i m) (get_object_id k) o _ _
                (λ c.
                  >>=-IfReturns (λ _. Unit {0}) (IsAside i m) (client_on_error k c m.io) _
                    (any_result (client_on_error k c m.io))
                    (λ (c', io') _.
                      replaced-IsAside i (object_bits k) (get_object_id k) _ m (client c', io') h
                        (object_bits-id k)))
                (λ s.
                  >>=-IfReturns (λ _. Unit {0}) (IsAside i m) (server_on_error k s m.io) _
                    (any_result (server_on_error k s m.io))
                    (λ (s', io') _.
                      replaced-IsAside i k (get_object_id k) _ m (server s', io') h refl))))
        (λ _. elim (Option-cases (lookup (get_object_id k) m.prepare)) [
          | inl e ↦ rw (e, IfReturns) (IsAside-refl i m)
          | inr (o, e) ↦
              rw (e, IfReturns)
                (>>=-IfReturns (λ _. Unit {0}) (IsAside i m) (as_client (get_object_id k) o) _
                  (any_result (as_client (get_object_id k) o))
                  (λ _ _. record {
                    objects = refl;
                    waiting = lookup-erase_ne (get_object_id k) i m.prepare h;
                  }))
        ])

  pub on_close-IsAside : (m : TcpManager) → IfReturns (IsAside i m) (on_close k m)
  unfolding on_close
  on_close-IsAside m = lock-IsAside i m (get_object_id k) _ (λ o.
      switch-IfReturns (IsAside i m) (get_object_id k) o _ _
        (λ c.
          >>=-IfReturns (λ _. Unit {0}) (IsAside i m) (client_on_stop k c m.io) _
            (any_result (client_on_stop k c m.io))
            (λ (c', io') _.
              replaced-IsAside i (object_bits k) (get_object_id k) _ m (client c', io') h
                (object_bits-id k)))
        (λ s.
          >>=-IfReturns (λ _. Unit {0}) (IsAside i m) (server_on_stop k s m.io) _
            (any_result (server_on_stop k s m.io))
            (λ (s', io') _. replaced-IsAside i k (get_object_id k) _ m (server s', io') h refl)))

  pub manager_on_read-IsAside :
      (d : List ℕ) (m : TcpManager) → IfReturns (IsAside i m) (manager_on_read k d m)
  unfolding manager_on_read
  manager_on_read-IsAside d m = lock-IsAside i m (get_object_id k) _ (λ o.
      >>=-IfReturns (λ _. Unit {0}) (IsAside i m) (switch (get_object_id k) o _ _) _
        (any_result (switch (get_object_id k) o _ _))
        (λ (r, ret) _.
          IfReturns-trans (after_read ret k (store (get_object_id k) m r))
            (store-IsAside i m (get_object_id k) r h) (after ret (store (get_object_id k) m r))))
    where
      after : (ret : Code) (m' : TcpManager) → IfReturns (IsAside i m') (after_read ret k m')
      after success m' = IsAside-refl i m'
      after (fail n) m' = manager_on_error-IsAside m'

  pub on_write-IsAside : (ok : Bool) (m : TcpManager) → IfReturns (IsAside i m) (on_write ok k m)
  unfolding on_write
  on_write-IsAside ok m = lock-IsAside i m (get_object_id k) _ (λ o.
      >>=-IfReturns (λ _. Unit {0}) (IsAside i m) (switch (get_object_id k) o _ _) _
        (any_result (switch (get_object_id k) o _ _))
        (λ r _. store-IsAside i m (get_object_id k) r h))

  pub register-IsAside :
      (o : TcpObj) (io : Io) (m : TcpManager)
      → IsAside i m (record (register (get_object_id k) o m) { io = io })
  unfolding register
  register-IsAside o io m = record {
    objects = lookup-append_ne (get_object_id k) i o m.vec_objs h;
    waiting = lookup-erase_ne (get_object_id k) i m.prepare h;
  }

  pub on_connect-IsAside : (m : TcpManager) → IfReturns (IsAside i m) (on_connect k m)
  unfolding on_connect
  on_connect-IsAside m = elim (Option-cases (lookup (get_object_id k) m.prepare)) [
    | inl e ↦ rw (e, IfReturns) (IsAside-refl i m)
    | inr (server s, e) ↦ rw (e, IfReturns) tt
    | inr (client c, e) ↦ rw (e, IfReturns) (register-IsAside _ _ m)
  ]

  pub on_start-IsAside :
      (connects bound listens : Bool) (m : TcpManager)
      → IfReturns (IsAside i m) (on_start connects bound listens k m)
  unfolding on_start
  on_start-IsAside connects bound listens m =
      elim (Option-cases (lookup (get_object_id k) m.prepare)) [
        | inl e ↦ rw (e, IfReturns) (IsAside-refl i m)
        | inr (o, e) ↦
            rw (e, IfReturns)
              (switch-IfReturns (IsAside i m) (get_object_id k) o _ _
                (λ c.
                  if_elim (IsAside i m) (client_on_start connects c).1 _ _ (λ _. changed m _ _)
                    (λ _. changed m _ _))
                (λ s.
                  if_elim (IsAside i m) (server_on_start bound listens s).1 _ _
                    (λ _. register-IsAside _ m.io m) (λ _. changed m _ _)))
      ]
    where
      changed :
          (m : TcpManager) (o : TcpObj) (io : Io)
          → IsAside i m (record m { prepare = update (get_object_id k) o m.prepare; io = io })
      changed m o io = record {
        objects = refl;
        waiting = lookup-update_ne (get_object_id k) i o m.prepare h;
      }

  pub manager_on_accept-IsAside :
      (accepts reads : Bool) (rounds : ℕ) (m : TcpManager)
      → IfReturns (IsAside i m) (manager_on_accept accepts reads rounds k m)
  unfolding manager_on_accept store
  manager_on_accept-IsAside accepts reads rounds m =
      if_elim (IfReturns (IsAside i m)) (elem (get_object_id k) m.idx_obj_map) _ _
        (λ _. elim (Option-cases (lookup (get_object_id k) m.vec_objs)) [
          | inl e ↦ rw (e, IfReturns) tt
          | inr (client c, e) ↦ rw (e, IfReturns) tt
          | inr (server s, e) ↦
              rw (e, IfReturns)
                (>>=-IfReturns (λ _. Unit {0}) (IsAside i m) (on_accept accepts reads rounds s) _
                  (any_result (on_accept accepts reads rounds s))
                  (λ (s', key) _. store-IsAside i m (get_object_id k) (server s', _) h))
        ])
        (λ _. IsAside-refl i m)

  pub send_data-IsAside :
      (d : List ℕ) (m : TcpManager) → IfReturns (λ q. IsAside i m q.0) (send_data k d m)
  unfolding send_data
  send_data-IsAside d m =
      if_elim (IfReturns (λ (q : TcpManager × Bool). IsAside i m q.0))
        (elem (get_object_id k) m.idx_obj_map) _ _
        (λ _.
          >>=-IfReturns (λ _. Unit {0}) (λ (q : TcpManager × Bool). IsAside i m q.0)
            (lock (get_object_id k) m) _ (any_result (lock (get_object_id k) m))
            (λ o _.
              >>=-IfReturns (λ _. Unit {0}) (λ (q : TcpManager × Bool). IsAside i m q.0)
                (switch (get_object_id k) o _ _) _ (any_result (switch (get_object_id k) o _ _))
                (λ r _. store-IsAside i m (get_object_id k) r h)))
        (λ _. IsAside-refl i m)

  pub kick_link-IsAside : (m : TcpManager) → IfReturns (IsAside i m) (kick_link k m)
  unfolding kick_link
  kick_link-IsAside m = lock-IsAside i m (get_object_id k) _ (λ o.
      >>=-IfReturns (λ _. Unit {0}) (IsAside i m) (switch (get_object_id k) o _ _) _
        (any_result (switch (get_object_id k) o _ _))
        (λ io' _. record { objects = refl; waiting = refl }))

pub client_send-IsAside :
    (i objid : ℕ) (d : List ℕ) (m : TcpManager)
    → i ≢ objid
    → IfReturns (λ q. IsAside i m q.0) (client_send objid d m)
unfolding client_send
client_send-IsAside i objid d m h =
    if_elim (IfReturns P) (get_obj_type objid == tcpobj_client) _ _
      (λ _.
        if_elim (IfReturns P) (elem objid m.idx_obj_map) _ _
          (λ _.
            >>=-IfReturns (λ _. Unit {0}) P (lock objid m) _ (any_result (lock objid m))
              (λ o _.
                >>=-IfReturns (λ _. Unit {0}) P (as_client objid o) _
                  (any_result (as_client objid o))
                  (λ c _.
                    store-IsAside i m objid
                      (client (client_send_data d c m.io).0, (client_send_data d c m.io).1) h)))
          (λ _. IsAside-refl i m))
      (λ _. tt)
  where
    P : TcpManager × Bool → Type 0
    P q = IsAside i m q.0

pub stop_obj-IsAside : (i objid : ℕ) (m : TcpManager) → IsAside i m (stop_obj objid m)
unfolding stop_obj
stop_obj-IsAside i objid m =
    if_elim (IsAside i m) (elem objid m.idx_obj_map) _ _
      (λ _. record { objects = refl; waiting = refl }) (λ _. IsAside-refl i m)

-- GetNextObjId gives no id that is taken.
next_obj_id-untaken :
    (rounds type : ℕ) (m : TcpManager) (id : ℕ)
    → IfReturns (λ r. elem r.0 (taken m) ≡ false) (next_obj_id rounds type m id)
unfolding next_obj_id
next_obj_id-untaken zero type m id = tt
next_obj_id-untaken (suc rounds) type m id =
    if_elim (IfReturns (λ (r : ℕ × ℕ). elem r.0 (taken m) ≡ false))
      (elem (type + id) m.idx_obj_map || elem (type + id) (keys m.prepare)) _ _
      (λ _. next_obj_id-untaken rounds type m ((id + 1) % 2 ^ 16))
      (λ e. elem-append (type + id) m.idx_obj_map (keys m.prepare) ∙ e)

module _ (i rounds : ℕ) (m : TcpManager) (h : elem i (taken m) ≡ true) where
  pub insert-IsAside :
      (r : ℕ × ℕ) (o : TcpObj) (io : Io)
      → elem r.0 (taken m) ≡ false
      → IsAside i m (record m { prepare = insert r.0 o m.prepare; obj_idx_indx = r.1; io = io })
  insert-IsAside r o io u = record {
    objects = refl;
    waiting =
        if_elim (λ p. lookup i p ≡ lookup i m.prepare) (elem r.0 (keys m.prepare)) _ _ (λ _. refl)
          (λ _. lookup-append_ne r.0 i o m.prepare other);
  }
    where
      other : i ≢ r.0
      other e = false≢true (sym u ∙ ap (λ j. elem j (taken m)) (sym e) ∙ h)

  pub add_client-IsAside : IfReturns (λ q. IsAside i m q.0) (add_client rounds m)
  unfolding add_client
  add_client-IsAside =
      >>=-IfReturns (λ r. elem r.0 (taken m) ≡ false) (λ (q : TcpManager × ℕ). IsAside i m q.0)
        (next_obj_id rounds tcpobj_client m m.obj_idx_indx) _
        (next_obj_id-untaken rounds tcpobj_client m m.obj_idx_indx) (λ r u. insert-IsAside r _ _ u)

  pub add_server-IsAside :
      (attr : LinkAttr) → IfReturns (λ q. IsAside i m q.0) (add_server rounds attr m)
  unfolding add_server
  add_server-IsAside attr =
      >>=-IfReturns (λ r. elem r.0 (taken m) ≡ false) (λ (q : TcpManager × ℕ). IsAside i m q.0)
        (next_obj_id rounds tcpobj_server m m.obj_idx_indx) _
        (next_obj_id-untaken rounds tcpobj_server m m.obj_idx_indx) (λ r u. insert-IsAside r _ _ u)
