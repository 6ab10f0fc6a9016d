-- ===== src/Net/TcpManager/Valid.antt =====
-- What holds of the registry between two callbacks: the weak pointers are those of the registered
-- objects, every object has one place, its type is that of its id, and the registered ones are
-- connected or listening.
use dolphin_core.Base.{ℕ, ◌*◌, ◌/◌, ◌^◌, ◌<◌, ◌≡◌, refl, ap, ◌∙◌, arith, true, false}
use dolphin_core.Base.{
  List, [], ◌∷◌, ◌++◌, Option, none, some, ◌==◌, if◌then◌else◌, if_elim, if_true, Bool-cases, inl,
  inr,
}
use dolphin_core.Base.Assoc.{
  elem, remove, keys, lookup, update, erase, Distinct, AllEntries, keys-update, keys-erase,
  keys-append, elem-append, elem-remove, remove-Distinct, append-Distinct_one, elem-remove_self,
}
use dolphin_core.Base.Assoc.{
  AllEntries-lookup, AllEntries-update, AllEntries-erase, AllEntries-append, lookup-elem,
}
use dolphin_core.Net.Shared.{Io, set_link_key, get_object_id, ◌>>=◌}
use dolphin_core.Net.Returns.{Returns}
use dolphin_core.Net.TcpLink.Send.{TcpLink}
use dolphin_core.Net.TcpClient.{TcpClient, own_link, is_startting}
use dolphin_core.Net.TcpServer.{TcpServer}
use dolphin_core.Net.TcpServer.Safe.{IsServer, IsRunning}
use dolphin_core.Net.TcpManager.{
  TcpManager, TcpObj, client, server, switch, lock, store, register, remove_obj,
}

pub record IsClient (oid : ℕ) (c : TcpClient) : Type 0 where
  pub typed : oid / 2 ^ 24 ≡ 1
  pub own : c.link_id ≡ set_link_key oid 0

pub record IsConnected (oid : ℕ) (c : TcpClient) : Type 0 where
  pub valid : IsClient oid c
  pub open_link : TcpLink
  pub has : c.link ≡ some open_link
  pub opened : open_link.opened ≡ true
  pub keyed : open_link.linkid ≡ own_link c

-- A registered object, and one that is not yet.
abbrev pub IsLive : ℕ → TcpObj → Type 0
IsLive oid (client c) = IsConnected oid c
IsLive oid (server s) = IsRunning oid s

abbrev pub IsPrepared : ℕ → TcpObj → Type 0
IsPrepared oid (client c) = IsClient oid c
IsPrepared oid (server s) = IsServer oid s

-- A client that waits for its connection.
abbrev pub IsStartting : TcpObj → Type 0
IsStartting (client c) = is_startting c.status ≡ true
IsStartting (server s) = ⊥

pub record IsValid (m : TcpManager) : Type 0 where
  pub weak : keys m.vec_objs ≡ m.idx_obj_map
  pub once : Distinct m.idx_obj_map
  pub waiting : Distinct (keys m.prepare)
  pub apart : (i : ℕ) → elem i m.idx_obj_map ≡ true → elem i (keys m.prepare) ≡ false
  pub live : AllEntries IsLive m.vec_objs
  pub prepared : AllEntries IsPrepared m.prepare
  pub counted : m.obj_idx_indx < 2 ^ 16

-- The switch goes through the pointer that is set.
switch-client :
    {A : Type 0} (oid : ℕ) (c : TcpClient) (f : TcpClient → Option A) (g : TcpServer → Option A)
    → oid / 2 ^ 24 ≡ 1
    → switch oid (client c) f g ≡ f c
unfolding switch
switch-client oid c f g h =
    rw (if_true {b = oid / 2 ^ 24 * 2 ^ 24 == 2 ^ 24} (some c) none (ground (arith, h))) refl

pub switch-server :
    {A : Type 0} (oid : ℕ) (s : TcpServer) (f : TcpClient → Option A) (g : TcpServer → Option A)
    → oid / 2 ^ 24 ≡ 2
    → switch oid (server s) f g ≡ g s
unfolding switch
switch-server oid s f g h =
    rw (if_true {b = oid / 2 ^ 24 * 2 ^ 24 == 2 ^ 25} (some s) none (ground (arith, h))) refl

module _ {A : Type 0} (P : A → Type 0) (oid : ℕ) where
  pub switch-Returns :
      (o : TcpObj) (f : TcpClient → Option A) (g : TcpServer → Option A)
      → IsLive oid o
      → ((c : TcpClient) → IsConnected oid c → Returns P (f c))
      → ((s : TcpServer) → IsRunning oid s → Returns P (g s))
      → Returns P (switch oid o f g)
  switch-Returns (client c) f g k hf hg = rw (switch-client oid c f g k.valid.typed) (hf c k)
  switch-Returns (server s) f g k hf hg = rw (switch-server oid s f g k.valid.typed) (hg s k)

  pub prepared_switch-Returns :
      (o : TcpObj) (f : TcpClient → Option A) (g : TcpServer → Option A)
      → IsPrepared oid o
      → ((c : TcpClient) → IsClient oid c → Returns P (f c))
      → ((s : TcpServer) → IsServer oid s → Returns P (g s))
      → Returns P (switch oid o f g)
  prepared_switch-Returns (client c) f g k hf hg = rw (switch-client oid c f g k.typed) (hf c k)
  prepared_switch-Returns (server s) f g k hf hg = rw (switch-server oid s f g k.typed) (hg s k)

-- A call on the object that the registry has under an id, if it has one.
pub locked-Returns :
    {A : Type 0} (P : A → Type 0) (oid : ℕ) (m : TcpManager) (f : TcpObj → Option A)
    (missing : Option A)
    → IsValid m
    → ((o : TcpObj) → lookup oid m.vec_objs ≡ some o → IsLive oid o → Returns P (f o))
    → (elem oid m.idx_obj_map ≡ false → Returns P missing)
    → Returns P (if elem oid m.idx_obj_map then lock oid m >>= f else missing)
unfolding lock
locked-Returns P oid m f missing v h k =
    if_elim (Returns P) (elem oid m.idx_obj_map) _ _
      (λ e. found (lookup-elem oid m.vec_objs (rw v.weak e))) k
  where
    found : (o : TcpObj) × (lookup oid m.vec_objs ≡ some o) → Returns P (lock oid m >>= f)
    found (o, e) = rw e (h o e (AllEntries-lookup IsLive oid m.vec_objs v.live e))

pub store-IsValid :
    (oid : ℕ) (m : TcpManager) (r : TcpObj × Io)
    → IsValid m
    → IsLive oid r.0
    → IsValid (store oid m r)
unfolding store
store-IsValid oid m (o, io) v l = record {
  weak = keys-update oid o m.vec_objs ∙ v.weak;
  once = v.once;
  waiting = v.waiting;
  apart = v.apart;
  live = AllEntries-update IsLive oid o m.vec_objs v.live l;
  prepared = v.prepared;
  counted = v.counted;
}

-- The queues do not matter.
pub io-IsValid : (io : Io) (m : TcpManager) → IsValid m → IsValid (record m { io = io })
io-IsValid io m v = record {
  weak = v.weak;
  once = v.once;
  waiting = v.waiting;
  apart = v.apart;
  live = v.live;
  prepared = v.prepared;
  counted = v.counted;
}

-- An object that is about to go does not count.
pub erase-update :
    {V : Type 0} (oid : ℕ) (o : V) (m : List (ℕ × V)) → erase oid (update oid o m) ≡ erase oid m
erase-update oid o [] = refl
erase-update oid o ((j, w) ∷ m) = ground (arith, erase-update oid o m)

-- Out of the registry goes one object, whatever became of it: everything holds of the others.
pub remove_obj-IsValid :
    (k : ℕ) (o : TcpObj) (io io' : Io) (m : TcpManager)
    → IsValid m
    → elem (get_object_id k) m.idx_obj_map ≡ true
    → Returns
        (λ m'. IsValid (record m' { io = io' }))
        (remove_obj k (store (get_object_id k) m (o, io)))
unfolding remove_obj store
remove_obj-IsValid k o io io' m v h =
    let oid = get_object_id k in
    rw (keys-update oid o m.vec_objs, v.weak, h)
      (record {
        weak =
            rw (erase-update oid o m.vec_objs, keys-erase oid m.vec_objs) (ap (remove oid) v.weak);
        once = remove-Distinct oid m.idx_obj_map v.once;
        waiting = v.waiting;
        apart = λ i e. v.apart i (kept i e);
        live = rw (erase-update oid o m.vec_objs) (AllEntries-erase IsLive oid m.vec_objs v.live);
        prepared = v.prepared;
        counted = v.counted;
      })
  where
    kept :
        (i : ℕ)
        → elem i (remove (get_object_id k) m.idx_obj_map) ≡ true
        → elem i m.idx_obj_map ≡ true
    kept i e = elim (Bool-cases (elem i m.idx_obj_map)) [
      | inl t ↦ t
      | inr f ↦ let g = elem-remove i (get_object_id k) m.idx_obj_map f in cc
    ]

pub register-IsValid :
    (oid : ℕ) (o : TcpObj) (io : Io) (m : TcpManager)
    → IsValid m
    → elem oid (keys m.prepare) ≡ true
    → IsLive oid o
    → IsValid (record (register oid o m) { io = io })
unfolding register
register-IsValid oid o io m v h l = rw absent (record {
  weak = rw (keys-append m.vec_objs ((oid, o) ∷ [])) (ap (λ ks. ks ++ (oid ∷ [])) v.weak);
  once = append-Distinct_one oid m.idx_obj_map v.once absent;
  waiting = rw (keys-erase oid m.prepare) (remove-Distinct oid (keys m.prepare) v.waiting);
  apart = others;
  live = AllEntries-append IsLive m.vec_objs ((oid, o) ∷ []) v.live (l, tt);
  prepared = AllEntries-erase IsPrepared oid m.prepare v.prepared;
  counted = v.counted;
})
  where
    absent : elem oid m.idx_obj_map ≡ false
    absent = elim (Bool-cases (elem oid m.idx_obj_map)) [
      | inl t ↦ let g = v.apart oid t in cc
      | inr f ↦ f
    ]

    others :
        (i : ℕ)
        → elem i (m.idx_obj_map ++ (oid ∷ [])) ≡ true
        → elem i (keys (erase oid m.prepare)) ≡ false
    others i e = rw (keys-erase oid m.prepare) (elim (Bool-cases (elem i m.idx_obj_map)) [
      | inl t ↦ elem-remove i oid (keys m.prepare) (v.apart i t)
      | inr f ↦
          let same : i ≡ oid = ground (arith, elem-append i m.idx_obj_map (oid ∷ [])) in
          rw same (elem-remove_self oid (keys m.prepare) v.waiting)
    ])
