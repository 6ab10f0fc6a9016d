-- ===== src/Net/TcpManager/Handlers.antt =====
-- The calls of other threads and the callbacks, each on a registry as Valid has it.
use dolphin_core.Base.{ℕ, ◌*◌, ◌/◌, ◌^◌, ◌<◌, ◌≡◌, refl, sym, ap, ◌∙◌, arith, Bool, true}
use dolphin_core.Base.{
  List, Option, none, some, ◌==◌, if◌then◌else◌, if_elim, Bool-cases, ==_iff, if_true, inl, inr,
}
use dolphin_core.Base.Assoc.{elem, elem_of_lookup}
use dolphin_core.Net.Shared.{Io, MessageType, get_object_id, link_bits, object_bits, ◌>>=◌}
use dolphin_core.Net.Returns.{Returns, >>=-Returns, Returns-weaken}
use dolphin_core.Net.TcpLink.Send.{TcpLink, stop, send_message}
use dolphin_core.Net.TcpClient.{TcpClient, client_send_data, client_on_stop, client_on_error}
use dolphin_core.Net.TcpServer.{TcpServer, server_send_data, server_on_stop, on_stop_link}
use dolphin_core.Net.TcpServer.Safe.{IsRunning, server_send_data-IsRunning, on_stop_link-IsRunning}
use dolphin_core.Net.TcpServer.Accept.{server_on_stop_lem}
use dolphin_core.Net.TcpManager.{
  TcpManager, TcpObj, client, server, switch, lock, store, remove_obj, removed, on_close, as_client,
}
use dolphin_core.Net.TcpManager.Calls.{send_data, client_send, kick_link, stop_obj}
use dolphin_core.Net.TcpManager.Valid.{
  IsConnected, IsLive, IsValid, switch-Returns, locked-Returns, store-IsValid, io-IsValid,
  remove_obj-IsValid,
}

-- A client with another open link of the same key.
pub relink-IsConnected :
    {oid : ℕ} {c : TcpClient} (l l' : TcpLink)
    → IsConnected oid c
    → c.link ≡ some l
    → l'.opened ≡ l.opened
    → l'.linkid ≡ l.linkid
    → IsConnected oid (record c { link = some l' })
relink-IsConnected {oid} {c} l l' k e o i =
    let same : k.open_link ≡ l = ground (arith, k.has, e) in
    record {
      valid = record { typed = k.valid.typed; own = k.valid.own };
      open_link = l';
      has = refl;
      opened = o ∙ ap (λ (x : TcpLink). x.opened) (sym same) ∙ k.opened;
      keyed = i ∙ ap (λ (x : TcpLink). x.linkid) (sym same) ∙ k.keyed;
    }

pub removed-IsValid :
    (k oid : ℕ) (t : MessageType) (o : TcpObj) (io : Io) (m : TcpManager)
    → get_object_id k ≡ oid
    → IsValid m
    → elem oid m.idx_obj_map ≡ true
    → (0 < link_bits k → IsLive oid o)
    → Returns IsValid (removed k t (store oid m (o, io)))
unfolding removed
removed-IsValid k oid t o io m e v h l = rw (sym e) (
    if_elim (Returns IsValid) (link_bits k == 0) _ _
      (λ z.
        >>=-Returns (λ m'. IsValid (record m' { io = io })) IsValid
          (remove_obj k (store (get_object_id k) m (o, io))) _
          (remove_obj-IsValid k o io io m v (rw e h))
          (λ m' v'. io-IsValid _ (record m' { io = io }) v'))
      (λ z. store-IsValid (get_object_id k) m (o, io) v (rw e (l (ground arith)))))

-- A client's link is stopped: it has one, and that is open.
pub client_on_error_lem :
    {oid : ℕ} {c : TcpClient} (k : ℕ) (io : Io)
    → IsConnected oid c
    → Returns (λ _. Unit {0}) (client_on_error k c io)
unfolding client_on_error stop
client_on_error_lem k io l = rw (l.has, l.opened) tt

client_on_stop_lem :
    {oid : ℕ} {c : TcpClient} (k : ℕ) (io : Io)
    → IsConnected oid c
    → Returns (λ _. Unit {0}) (client_on_stop k c io)
unfolding client_on_stop stop
client_on_stop_lem k io l = rw (l.has, l.opened) tt

pub object_bits-id : (k : ℕ) → get_object_id (object_bits k) ≡ get_object_id k
object_bits-id k = omega arith

pub object_bits-link : (k : ℕ) → 0 < link_bits (object_bits k) → ⊥
object_bits-link k h = omega arith

module _ (m : TcpManager) (v : IsValid m) (k : ℕ) where
  pub send_data-IsValid :
      (d : List ℕ) → 0 < link_bits k → Returns (λ q. IsValid q.0) (send_data k d m)
  unfolding send_data client_send_data send_message
  send_data-IsValid d h =
      locked-Returns (λ q. IsValid q.0) (get_object_id k) m _ _ v
        (λ o e l.
          >>=-Returns (λ (r : TcpObj × Io). IsLive (get_object_id k) r.0)
            (λ (q : TcpManager × Bool). IsValid q.0)
            (switch (get_object_id k) o
              (λ c. let (c', io') = client_send_data d c m.io in some (client c', io'))
              (λ s. server_send_data k d s m.io >>= λ (s', io'). some (server s', io')))
            _
            (switch-Returns (λ (r : TcpObj × Io). IsLive (get_object_id k) r.0) (get_object_id k) o
              _ _ l (λ c lc. rw lc.has (relink-IsConnected lc.open_link _ lc lc.has refl refl))
              (λ s ls.
                >>=-Returns (λ (q : TcpServer × Io). IsRunning (get_object_id k) q.0)
                  (λ (r : TcpObj × Io). IsLive (get_object_id k) r.0) (server_send_data k d s m.io)
                  _ (server_send_data-IsRunning (get_object_id k) k s m.io ls h d) (λ q p. p)))
            (λ r lr. store-IsValid (get_object_id k) m r v lr))
        (λ _. v)

  pub client_send-IsValid :
      (d : List ℕ) → k / 2 ^ 24 ≡ 1 → Returns (λ q. IsValid q.0) (client_send k d m)
  unfolding client_send client_send_data send_message
  client_send-IsValid d h =
      rw typed (locked-Returns (λ q. IsValid q.0) k m _ _ v (λ o e l. send o l) (λ _. v))
    where
      typed : (k / 2 ^ 24 * 2 ^ 24 == 2 ^ 24) ≡ true
      typed = ground (arith, h)

      send :
          (o : TcpObj)
          → IsLive k o
          → Returns
              (λ (q : TcpManager × Bool). IsValid q.0)
              (as_client k o >>= λ c.
                let (c', io') = client_send_data d c m.io in
                some (store k m (client c', io'), true))
      send (client c) l =
          rw (if_true {b = k / 2 ^ 24 * 2 ^ 24 == 2 ^ 24} (some c) none typed, l.has)
            (store-IsValid k m (client (record c { link = some _ }), _) v
              (relink-IsConnected l.open_link _ l l.has refl refl))
      send (server s) l = absurd (omega (arith, h, l.valid.typed))

  pub kick_link-IsValid : Returns IsValid (kick_link k m)
  unfolding kick_link
  kick_link-IsValid =
      locked-Returns IsValid (get_object_id k) m _ _ v
        (λ o e l.
          >>=-Returns (λ (_ : Io). Unit {0}) IsValid (switch (get_object_id k) o _ _) _
            (switch-Returns (λ (_ : Io). Unit {0}) (get_object_id k) o _ _ l (λ _ _. tt)
              (λ _ _. tt))
            (λ io _. io-IsValid io m v))
        (λ _. v)

  pub stop_obj-IsValid : IsValid (stop_obj k m)
  unfolding stop_obj
  stop_obj-IsValid = if_elim IsValid (elem k m.idx_obj_map) _ _ (λ _. io-IsValid _ m v) (λ _. v)

  pub registered-Returns :
      (f : TcpObj → Option TcpManager)
      → ((o : TcpObj)
          → elem (get_object_id k) m.idx_obj_map ≡ true
          → IsLive (get_object_id k) o
          → Returns IsValid (f o))
      → Returns IsValid
          (if elem (get_object_id k) m.idx_obj_map then lock (get_object_id k) m >>= f else some m)
  registered-Returns f h =
      locked-Returns IsValid (get_object_id k) m f (some m) v
        (λ o e l. h o (rw (← v.weak) (elem_of_lookup (get_object_id k) m.vec_objs o e)) l) (λ _. v)

  pub on_close-IsValid : k < 2 ^ 64 → Returns IsValid (on_close k m)
  unfolding on_close server_on_stop
  on_close-IsValid lt = registered-Returns _ (λ o h l.
      switch-Returns IsValid (get_object_id k) o _ _ l
        (λ c lc.
          >>=-Returns (λ _. Unit {0}) IsValid (client_on_stop k c m.io) _
            (client_on_stop_lem k m.io lc)
            (λ (c', io') _.
              removed-IsValid (object_bits k) (get_object_id k) _ (client c') io' m
                (object_bits-id k) v h (λ z. absurd (object_bits-link k z))))
        (λ s ls.
          >>=-Returns (λ (q : TcpServer × Io). 0 < link_bits k → IsRunning (get_object_id k) q.0)
            IsValid (server_on_stop k s m.io) _ (stops s ls)
            (λ (s', io') p. removed-IsValid k (get_object_id k) _ (server s') io' m refl v h p)))
    where
      stops :
          (s : TcpServer)
          → IsRunning (get_object_id k) s
          → Returns
              (λ (q : TcpServer × Io). 0 < link_bits k → IsRunning (get_object_id k) q.0)
              (server_on_stop k s m.io)
      stops s ls = elim (Bool-cases (k == s.linkid)) [
        | inl e ↦
            let same : k ≡ s.linkid = (==_iff k s.linkid).0 e in
            Returns-weaken (λ (_ : TcpServer × Io). Unit {0}) _ (server_on_stop k s m.io)
              (rw same (server_on_stop_lem m.io ls)) (λ _ _ z. absurd (omega (arith, ls.valid.own)))
        | inr e ↦ rw e (
            Returns-weaken (λ (q : TcpServer × Io). IsRunning (get_object_id k) q.0) _
              (on_stop_link k s m.io)
              (on_stop_link-IsRunning (get_object_id k) k s m.io ls (ground (arith, ls.valid.own)))
              (λ _ r _. r))
      ]
