-- ===== src/Net/Writes.antt =====
-- LinkWriteEvent of src/net/tcp/uv_ex.cpp and OnWrite of src/net/tcp/tcp_manager.cpp: what waits on
-- the links before and after.
pub mod Event
pub mod Order
pub mod Sends
use dolphin_core.Base.{
  ℕ, ◌+◌, ◌/◌, ◌%◌, ◌^◌, ◌<◌, ◌≡◌, ◌≢◌, refl, sym, ap, ◌∙◌, arith, Bool, true, false, ◌||◌, List,
  [], ◌∷◌, ◌++◌, Option, none, some, ◌==◌, if◌then◌else◌, if_elim, ==_iff, Bool-cases, Option-cases,
  inl, inr, append-nil, append_assoc,
}
use dolphin_core.Base.Assoc.{
  elem, keys, lookup, update, lookup-update_self, lookup-update_ne, lookup-none, elem_of_lookup,
}
use dolphin_core.Net.Shared.{Io, get_object_id, link_bits, ◌>>=◌}
use dolphin_core.Net.Returns.{IfReturns, >>=-IfReturns}
use dolphin_core.Net.Isolation.{switch-IfReturns}
use dolphin_core.Net.TcpLink.Send.{TcpLink, send_message, on_async_write}
use dolphin_core.Net.TcpClient.{TcpClient, client_on_link_write}
use dolphin_core.Net.TcpServer.{TcpServer, is_closed, at_link, server_on_link_write}
use dolphin_core.Net.TcpManager.{
  TcpManager, TcpObj, client, server, switch, lock, store, on_write, get_obj_type, tcpobj_client,
  tcpobj_server, as_client, as_server,
}
use dolphin_core.Net.TcpManager.Valid.{IsValid, io-IsValid}
use dolphin_core.Net.TcpManager.Callbacks.{on_write-IsValid}
use dolphin_core.Net.Libuv.{each, link_write_event}

-- The packets that wait on a link.
abbrev pub on_link : Option (Option TcpLink) → List (List ℕ)
on_link none = []
on_link (some none) = []
on_link (some (some l)) = l.write_queue

abbrev pub on_object : ℕ → Option TcpObj → List (List ℕ)
on_object k none = []
on_object k (some (client c)) = on_link (some c.link)
on_object k (some (server s)) = on_link (lookup k s.link_map)

abbrev pub pending : ℕ → TcpManager → List (List ℕ)
pending k m = on_object k (lookup (get_object_id k) m.vec_objs)

-- Nothing waits under `k` any more, and under no key does something wait that did not.
abbrev pub Drains : ℕ → (ℕ → List (List ℕ)) → (ℕ → List (List ℕ)) → Type 0
Drains k before after = (after k ≡ []) × ((j : ℕ) → before j ≡ [] → after j ≡ [])

pub on_async_write_drains :
    (ok : Bool) (l : TcpLink) → IfReturns (λ l'. l'.write_queue ≡ []) (on_async_write ok l)
unfolding on_async_write
on_async_write_drains ok l = go l.write_queue refl
  where
    after : List (List ℕ) → Option TcpLink
    after q = elim q [
      | [] ↦ some l
      | d ∷ ds ↦
          if l.opened
          then some (record l {
            write_queue = [];
            handed = if ok then l.handed ++ (d ∷ ds) else l.handed;
          })
          else none
    ]

    go :
        (q : List (List ℕ))
        → l.write_queue ≡ q
        → IfReturns (λ (l' : TcpLink). l'.write_queue ≡ []) (after q)
    go [] e = e
    go (d ∷ ds) e =
        if_elim (IfReturns (λ (l' : TcpLink). l'.write_queue ≡ [])) l.opened _ _ (λ _. refl)
          (λ _. tt)

pub server_on_link_write-Drains :
    (ok : Bool) (k : ℕ) (s : TcpServer)
    → IfReturns
        (λ s'. Drains k (λ j. on_link (lookup j s.link_map)) (λ j. on_link (lookup j s'.link_map)))
        (server_on_link_write ok k s)
unfolding server_on_link_write
server_on_link_write-Drains ok k s =
    if_elim (λ q. IfReturns P (q >>= λ (_ : Unit {0}). rest (lookup k s.link_map)))
      (is_closed s.status) none (some tt) (λ _. tt) (λ _. go (lookup k s.link_map) refl)
  where
    P : TcpServer → Type 0
    P s' = Drains k (λ j. on_link (lookup j s.link_map)) (λ j. on_link (lookup j s'.link_map))

    rest : Option (Option TcpLink) → Option TcpServer
    rest v = at_link v (some s) (λ l.
        on_async_write ok l >>= λ l'. some (record s { link_map = update k (some l') s.link_map }))

    go : (v : Option (Option TcpLink)) → lookup k s.link_map ≡ v → IfReturns P (rest v)
    go none e = (ap on_link e, λ j h. h)
    go (some none) e = tt
    go (some (some l)) e =
        >>=-IfReturns (λ (l' : TcpLink). l'.write_queue ≡ []) P (on_async_write ok l) _
          (on_async_write_drains ok l)
          (λ l' w.
            let self : lookup k (update k (some l') s.link_map) ≡ some (some l') =
              lookup-update_self k (some l') s.link_map (elem_of_lookup k s.link_map (some l) e) in
            (
              ap on_link self ∙ w,
              λ j h. elim (Bool-cases (j == k)) [
                | inl t ↦ let same : j ≡ k = (==_iff j k).0 t in rw same (ap on_link self ∙ w)
                | inr f ↦
                    ap on_link
                      (lookup-update_ne k j (some l') s.link_map (λ q. ground (arith, f, q)))
                    ∙ h
              ],
            ))

pub client_on_link_write_drains :
    (ok : Bool) (c : TcpClient)
    → IfReturns (λ c'. on_link (some c'.link) ≡ []) (client_on_link_write ok c)
unfolding client_on_link_write
client_on_link_write_drains ok c = elim (Option-cases c.link) [
  | inl e ↦ rw (e, IfReturns) (rw e refl)
  | inr (l, e) ↦
      rw (e, IfReturns)
        (>>=-IfReturns (λ (l' : TcpLink). l'.write_queue ≡ [])
          (λ (c' : TcpClient). on_link (some c'.link) ≡ []) (on_async_write ok l) _
          (on_async_write_drains ok l) (λ l' w. w))
]

pub switch_client-IfReturns :
    {A : Type 0} (P : A → Type 0) (oid : ℕ) (c : TcpClient) (f : TcpClient → Option A)
    (g : TcpServer → Option A)
    → IfReturns P (f c)
    → IfReturns P (switch oid (client c) f g)
unfolding switch
switch_client-IfReturns P oid c f g h =
    if_elim (λ q. IfReturns P (q >>= f)) (get_obj_type oid == tcpobj_client) (some c) none (λ _. h)
      (λ _. tt)

pub switch_server-IfReturns :
    {A : Type 0} (P : A → Type 0) (oid : ℕ) (s : TcpServer) (f : TcpClient → Option A)
    (g : TcpServer → Option A)
    → IfReturns P (g s)
    → IfReturns P (switch oid (server s) f g)
unfolding switch
switch_server-IfReturns P oid s f g h =
    if_elim (λ q. IfReturns P (q >>= g)) (get_obj_type oid == tcpobj_server) (some s) none (λ _. h)
      (λ _. tt)

pub store-Drains :
    (k : ℕ) (m : TcpManager) (o o' : TcpObj) (io : Io)
    → lookup (get_object_id k) m.vec_objs ≡ some o
    → on_object k (some o') ≡ []
    → ((j : ℕ) → on_object j (some o) ≡ [] → on_object j (some o') ≡ [])
    → Drains k (λ j. pending j m) (λ j. pending j (store (get_object_id k) m (o', io)))
unfolding store
store-Drains k m o o' io e p q =
    let self : lookup (get_object_id k) (update (get_object_id k) o' m.vec_objs) ≡ some o' =
      lookup-update_self (get_object_id k) o' m.vec_objs
        (elem_of_lookup (get_object_id k) m.vec_objs o e) in
    (
      ap (on_object k) self ∙ p,
      λ j h. elim (Bool-cases (get_object_id j == get_object_id k)) [
        | inl t ↦
            let same : get_object_id j ≡ get_object_id k =
              (==_iff (get_object_id j) (get_object_id k)).0 t in
            ap (on_object j)
              (ap (λ i. lookup i (update (get_object_id k) o' m.vec_objs)) same ∙ self)
            ∙ q j (sym (ap (on_object j) (ap (λ i. lookup i m.vec_objs) same ∙ e)) ∙ h)
        | inr f ↦
            ap (on_object j) (
              lookup-update_ne (get_object_id k) (get_object_id j) o' m.vec_objs
                (λ r. ground (arith, f, r)))
            ∙ h
      ],
    )

pub on_write-Drains :
    (ok : Bool) (k : ℕ) (m : TcpManager)
    → IsValid m
    → IfReturns (λ m'. Drains k (λ j. pending j m) (λ j. pending j m')) (on_write ok k m)
unfolding on_write lock
on_write-Drains ok k m v =
    if_elim (IfReturns P) (elem (get_object_id k) m.idx_obj_map) _ _
      (λ _. elim (Option-cases (lookup (get_object_id k) m.vec_objs)) [
        | inl e ↦ rw (e, IfReturns) tt
        | inr (o, e) ↦ rw (e, IfReturns) (object o e)
      ])
      (λ f. (ap (on_object k) (lookup-none (get_object_id k) m.vec_objs (rw v.weak f)), λ j h. h))
  where
    P : TcpManager → Type 0
    P m' = Drains k (λ j. pending j m) (λ j. pending j m')

    of_client : TcpClient → Option (TcpObj × Io)
    of_client c = client_on_link_write ok c >>= λ c'. some (client c', m.io)

    of_server : TcpServer → Option (TcpObj × Io)
    of_server s = server_on_link_write ok k s >>= λ s'. some (server s', m.io)

    write : TcpObj → Option (TcpObj × Io)
    write o = switch (get_object_id k) o of_client of_server

    Q : TcpObj → TcpObj × Io → Type 0
    Q o r =
        (on_object k (some r.0) ≡ [])
        × ((j : ℕ) → on_object j (some o) ≡ [] → on_object j (some r.0) ≡ [])

    object :
        (o : TcpObj)
        → lookup (get_object_id k) m.vec_objs ≡ some o
        → IfReturns P (write o >>= λ r. some (store (get_object_id k) m r))
    object (client c) e =
        >>=-IfReturns (Q (client c)) P (write (client c)) (λ r. some (store (get_object_id k) m r))
          (switch_client-IfReturns (Q (client c)) (get_object_id k) c of_client of_server (
            >>=-IfReturns (λ (c' : TcpClient). on_link (some c'.link) ≡ []) (Q (client c))
              (client_on_link_write ok c) (λ c'. some (client c', m.io))
              (client_on_link_write_drains ok c) (λ c' w. (w, λ j h. w))))
          (λ (o', io) q. store-Drains k m (client c) o' io e q.0 q.1)
    object (server s) e =
        >>=-IfReturns (Q (server s)) P (write (server s)) (λ r. some (store (get_object_id k) m r))
          (switch_server-IfReturns (Q (server s)) (get_object_id k) s of_client of_server (
            >>=-IfReturns
              (λ (s' : TcpServer).
                Drains k (λ j. on_link (lookup j s.link_map)) (λ j. on_link (lookup j s'.link_map)))
              (Q (server s)) (server_on_link_write ok k s) (λ s'. some (server s', m.io))
              (server_on_link_write-Drains ok k s) (λ s' w. w)))
          (λ (o', io) q. store-Drains k m (server s) o' io e q.0 q.1)
