-- ===== src/Net/TcpServer/Accept.antt =====
-- GetNextLinkId ends with a key that no link has, OnAccept enters the link under it, and OnStop
-- closes all links.
use dolphin_core.Base.{
  ℕ, zero, suc, ◌+◌, ◌%◌, ◌^◌, ◌≤◌, ◌<◌, ◌≡◌, refl, ◌∙◌, arith, Bool, true, false,
}
use dolphin_core.Base.{List, [], ◌∷◌, ◌++◌, Option, none, some, if_elim, if_false, ==_iff, length}
use dolphin_core.Base.Assoc.{
  elem, keys, erase, insert, AllEntries, remove, keys-erase, keys-append, append-Distinct_one,
  elem-remove_self,
}
use dolphin_core.Base.Assoc.{AllEntries-erase, AllEntries-append, elem-remove_ne, length-remove}
use dolphin_core.Net.Shared.{Io, set_link_key, get_object_id, link_bits, link_del}
use dolphin_core.Net.Returns.{Returns, >>=-Returns}
use dolphin_core.Net.TcpLink.Send.{TcpLink, new_link, stop}
use dolphin_core.Net.TcpServer.{
  TcpServer, stop_links, next_link_id, link_key, on_accept, server_on_stop,
}
use dolphin_core.Net.TcpServer.Safe.{LinkEntry, IsRunning}

-- A key that is not in use, for a number from `id` on.
pub record IsFresh (s : TcpServer) (id : ℕ) (r : ℕ × ℕ) : Type 0 where
  pub unused : elem r.0 (keys s.link_map) ≡ false
  pub number : ℕ
  pub key : r.0 ≡ s.linkid + number
  pub from : id ≤ number
  pub below : number < 2 ^ 31
  pub next : r.1 ≡ number + 1

-- `used` holds the keys in use that are still ahead of the counter.
next_link_id-ahead :
    (rounds : ℕ) (s : TcpServer) (id : ℕ) (used : List ℕ)
    → ((j : ℕ)
        → id ≤ j
        → elem (s.linkid + j) (keys s.link_map) ≡ true
        → elem (s.linkid + j) used ≡ true)
    → length used < rounds
    → id + rounds ≤ 2 ^ 31
    → Returns (IsFresh s id) (next_link_id rounds s id)
unfolding next_link_id
next_link_id-ahead zero s id used all h lt = absurd (omega arith)
next_link_id-ahead (suc rounds) s id used all h lt = rw small (
    if_elim (Returns (IsFresh s id)) (elem (s.linkid + id) (keys s.link_map)) _ _
      (λ e. weaken (next_link_id rounds s ((id + 1) % 2 ^ 32)) (
        rw counter (
          next_link_id-ahead rounds s (id + 1) (remove (s.linkid + id) used)
            (λ j le k.
              elem-remove_ne (s.linkid + j) (s.linkid + id) used (λ q. omega arith)
              ∙ all j (omega arith) k)
            (omega (arith, length-remove (s.linkid + id) used (all id (omega arith) e)))
            (omega arith))))
      (λ e. record {
        unused = e;
        number = id;
        key = refl;
        from = omega arith;
        below = omega arith;
        next = counter;
      }))
  where
    small : link_key s.linkid id ≡ s.linkid + id
    small = ground arith

    counter : (id + 1) % 2 ^ 32 ≡ id + 1
    counter = omega arith

    weaken : (q : Option (ℕ × ℕ)) → Returns (IsFresh s (id + 1)) q → Returns (IsFresh s id) q
    weaken none f = f
    weaken (some r) f = record {
      unused = f.unused;
      number = f.number;
      key = f.key;
      from = omega (arith, f.from);
      below = f.below;
      next = f.next;
    }

-- GetNextLinkId ends, with a key that is not in use: one round more than there are links is
-- enough, as long as the counter stays in the positive `int32_t` range.
pub next_link_id-IsFresh :
    (rounds : ℕ) (s : TcpServer) (id : ℕ)
    → length (keys s.link_map) < rounds
    → id + rounds ≤ 2 ^ 31
    → Returns (IsFresh s id) (next_link_id rounds s id)
next_link_id-IsFresh rounds s id h lt =
    next_link_id-ahead rounds s id (keys s.link_map) (λ j le e. e) h lt

-- The link that OnAccept enters.
enter-IsRunning :
    {oid : ℕ} {s : TcpServer} (r : ℕ × ℕ) (l : TcpLink)
    → IsRunning oid s
    → IsFresh s s.generate r
    → l.opened ≡ true
    → l.linkid ≡ r.0
    → IsRunning oid (record s { generate = r.1; link_map = insert r.0 (some l) s.link_map })
enter-IsRunning {oid} {s} r l run f o e = record {
  valid = record {
    typed = run.valid.typed;
    own = run.valid.own;
    distinct =
        rw (absent, keys-append s.link_map ((r.0, some l) ∷ []))
          (append-Distinct_one r.0 (keys s.link_map) run.valid.distinct f.unused);
    links = rw absent (
        AllEntries-append (LinkEntry oid) s.link_map ((r.0, some l) ∷ []) run.valid.links
          ((o, e, object, bits), tt));
    counted = omega (arith, f.next);
  };
  running = run.running;
}
  where
    absent : insert r.0 (some l) s.link_map ≡ s.link_map ++ ((r.0, some l) ∷ [])
    absent = if_false {b = elem r.0 (keys s.link_map)} _ _ f.unused

    object : get_object_id r.0 ≡ oid
    object = omega (arith, f.key, f.below, run.valid.own, run.valid.typed)

    bits : 0 < link_bits r.0
    bits = omega (arith, f.key, f.below, f.from, run.valid.own, run.valid.counted)

pub on_accept-IsRunning :
    (accepts : Bool) (rounds oid : ℕ) (s : TcpServer)
    → IsRunning oid s
    → length (keys s.link_map) < rounds
    → s.generate + rounds ≤ 2 ^ 31
    → Returns (λ r. IsRunning oid r.0) (on_accept accepts true rounds s)
unfolding on_accept new_link
on_accept-IsRunning accepts rounds oid s r h lt = rw r.running (
    if_elim (Returns (λ (q : TcpServer × ℕ). IsRunning oid q.0)) accepts _ _
      (λ e.
        >>=-Returns (IsFresh s s.generate) (λ q. IsRunning oid q.0)
          (next_link_id rounds s s.generate) _ (next_link_id-IsFresh rounds s s.generate h lt)
          (λ q f. enter-IsRunning q _ r f refl refl))
      (λ e. r))

-- All that is left once the server's own key is gone are open links, which close.
stop_links_lem :
    (oid id : ℕ) (m : List (ℕ × Option TcpLink)) (io : Io)
    → AllEntries (LinkEntry oid) m
    → elem (set_link_key oid 0) (keys m) ≡ false
    → Returns (λ _. Unit {0}) (stop_links id m io)
unfolding stop_links stop
stop_links_lem oid id [] io a h = tt
stop_links_lem oid id ((k, none) ∷ m) io a h = ground (arith, a.0)
stop_links_lem oid id ((k, some l) ∷ m) io a h = rw a.0.0 (
    stop_links_lem oid id m (link_del id (record io { closed = io.closed ++ (l.linkid ∷ []) })) a.1
      (ground arith))

pub server_on_stop_lem :
    {oid : ℕ} {s : TcpServer} (io : Io)
    → IsRunning oid s
    → Returns (λ _. Unit {0}) (server_on_stop s.linkid s io)
unfolding server_on_stop
server_on_stop_lem {oid} {s} io r = rw ((==_iff s.linkid s.linkid).1 refl) (
    >>=-Returns (λ (_ : Io). Unit {0}) (λ (_ : TcpServer × Io). Unit {0})
      (stop_links s.linkid (erase s.linkid s.link_map) io) _
      (stop_links_lem oid s.linkid (erase s.linkid s.link_map) io
        (AllEntries-erase (LinkEntry oid) s.linkid s.link_map r.valid.links)
        (rw (keys-erase s.linkid s.link_map, ← r.valid.own)
          (elem-remove_self s.linkid (keys s.link_map) r.valid.distinct)))
      (λ _ _. tt))
