-- ===== src/Net/TcpServer/Safe.antt =====
-- What holds of a server between two calls, and that its operations keep it and meet no fault.
use dolphin_core.Base.{ℕ, ◌/◌, ◌^◌, ◌<◌, ◌≡◌, refl, ◌∙◌, arith, Bool, true, false}
use dolphin_core.Base.{List, [], ◌∷◌, ◌++◌, Option, none, some, if◌then◌else◌, if_elim}
use dolphin_core.Base.Assoc.{
  keys, lookup, update, erase, Distinct, AllEntries, keys-update, keys-erase, remove-Distinct,
}
use dolphin_core.Base.Assoc.{AllEntries-lookup, AllEntries-update, AllEntries-erase}
use dolphin_core.Net.Shared.{Io, set_link_key, get_object_id, link_bits, ◌>>=◌}
use dolphin_core.Net.Returns.{Returns, >>=-Returns}
use dolphin_core.Net.TcpLink.{Code}
use dolphin_core.Net.TcpLink.Send.{TcpLink, stop, send_message, on_async_write, link_read}
use dolphin_core.Net.TcpServer.{
  TcpServer, is_closed, server_send_data, on_stop_link, server_on_link_read, server_on_link_write,
  at_link, assert_open,
}

-- A link under its own key, below the server's; or the empty pointer under the server's.
abbrev pub LinkEntry : ℕ → ℕ → Option TcpLink → Type 0
LinkEntry oid k none = k ≡ set_link_key oid 0
LinkEntry oid k (some l) =
    (l.opened ≡ true) × (l.linkid ≡ k) × (get_object_id k ≡ oid) × (0 < link_bits k)

pub record IsServer (oid : ℕ) (s : TcpServer) : Type 0 where
  pub typed : oid / 2 ^ 24 ≡ 2
  pub own : s.linkid ≡ set_link_key oid 0
  pub distinct : Distinct (keys s.link_map)
  pub links : AllEntries (LinkEntry oid) s.link_map
  pub counted : 0 < s.generate

pub record IsRunning (oid : ℕ) (s : TcpServer) : Type 0 where
  pub valid : IsServer oid s
  pub running : is_closed s.status ≡ false

-- A call at a key of a link meets no empty pointer.
at_link-Returns :
    {A : Type 0} (P : A → Type 0) {oid : ℕ} {s : TcpServer} (k : ℕ) (v : Option (Option TcpLink))
    (missing : Option A) (call : TcpLink → Option A)
    → IsServer oid s
    → 0 < link_bits k
    → lookup k s.link_map ≡ v
    → Returns P missing
    → ((l : TcpLink)
        → lookup k s.link_map ≡ some (some l)
        → LinkEntry oid k (some l)
        → Returns P (call l))
    → Returns P (at_link v missing call)
at_link-Returns P k none missing call i h e m f = m
at_link-Returns P {oid} {s} k (some none) missing call i h e m f =
    absurd (omega (arith, AllEntries-lookup (LinkEntry oid) k s.link_map i.links e))
at_link-Returns P {oid} {s} k (some (some l)) missing call i h e m f =
    f l e (AllEntries-lookup (LinkEntry oid) k s.link_map i.links e)

-- A link is exchanged for an open one with the same key, or taken out.
pub update-IsRunning :
    {oid : ℕ} {s : TcpServer} (k : ℕ) (l l' : TcpLink)
    → IsRunning oid s
    → lookup k s.link_map ≡ some (some l)
    → l'.opened ≡ true
    → l'.linkid ≡ l.linkid
    → IsRunning oid (record s { link_map = update k (some l') s.link_map })
update-IsRunning {oid} {s} k l l' r e o same =
    let entry : LinkEntry oid k (some l) =
      AllEntries-lookup (LinkEntry oid) k s.link_map r.valid.links e in
    record {
      valid = record {
        typed = r.valid.typed;
        own = r.valid.own;
        distinct = rw (keys-update k (some l') s.link_map) r.valid.distinct;
        links =
            AllEntries-update (LinkEntry oid) k (some l') s.link_map r.valid.links
              (o, same ∙ entry.1, entry.2, entry.3);
        counted = r.valid.counted;
      };
      running = r.running;
    }

erase-IsRunning :
    {oid : ℕ} {s : TcpServer} (k : ℕ)
    → IsRunning oid s
    → IsRunning oid (record s { link_map = erase k s.link_map })
erase-IsRunning {oid} {s} k r = record {
  valid = record {
    typed = r.valid.typed;
    own = r.valid.own;
    distinct = rw (keys-erase k s.link_map) (remove-Distinct k (keys s.link_map) r.valid.distinct);
    links = AllEntries-erase (LinkEntry oid) k s.link_map r.valid.links;
    counted = r.valid.counted;
  };
  running = r.running;
}

pub on_async_write_lem :
    (ok : Bool) (l : TcpLink)
    → l.opened ≡ true
    → Returns (λ l'. (l'.opened ≡ true) × (l'.linkid ≡ l.linkid)) (on_async_write ok l)
unfolding on_async_write
on_async_write_lem ok l o = go l.write_queue
  where
    after : List (List ℕ) → Option TcpLink
    after q = elim q [
      | [] ↦ some l
      | d ∷ ds ↦
          if l.opened
          then some (record l {
            write_queue = [];
            handed = if ok then l.handed ++ (d ∷ ds) else l.handed;
          })
          else none
    ]

    go : (q : List (List ℕ)) → Returns (λ l'. (l'.opened ≡ true) × (l'.linkid ≡ l.linkid)) (after q)
    go [] = (o, refl)
    go (d ∷ ds) =
        if_elim (Returns (λ (l' : TcpLink). (l'.opened ≡ true) × (l'.linkid ≡ l.linkid))) l.opened _
          _ (λ e. (o, refl)) (λ e. cc)

module _ (oid k : ℕ) (s : TcpServer) (io : Io) (r : IsRunning oid s) (h : 0 < link_bits k) where
  pub server_send_data-IsRunning :
      (d : List ℕ) → Returns (λ q. IsRunning oid q.0) (server_send_data k d s io)
  unfolding server_send_data send_message
  server_send_data-IsRunning d =
      at_link-Returns (λ (q : TcpServer × Io). IsRunning oid q.0) k _ _ _ r.valid h refl r
        (λ l e entry. update-IsRunning k l _ r e entry.0 refl)

  assert_open_lem :
      {A : Type 0} (P : A → Type 0) (q : Option A)
      → Returns P q
      → Returns P (assert_open s >>= λ _. q)
  assert_open_lem P q p = rw r.running p

  pub on_stop_link-IsRunning : Returns (λ q. IsRunning oid q.0) (on_stop_link k s io)
  unfolding on_stop_link stop
  on_stop_link-IsRunning =
      assert_open_lem (λ (q : TcpServer × Io). IsRunning oid q.0) _
        (at_link-Returns (λ (q : TcpServer × Io). IsRunning oid q.0) k _ _ _ r.valid h refl r
          (λ l e entry. rw entry.0 (erase-IsRunning k r)))

  pub server_on_link_read-IsRunning :
      (d : List ℕ) → Returns (λ q. IsRunning oid q.0) (server_on_link_read k d s io)
  unfolding server_on_link_read link_read
  server_on_link_read-IsRunning d =
      assert_open_lem (λ (q : TcpServer × Io × Code). IsRunning oid q.0) _
        (at_link-Returns (λ (q : TcpServer × Io × Code). IsRunning oid q.0) k _ _ _ r.valid h refl r
          (λ l e entry. update-IsRunning k l _ r e entry.0 refl))

  pub server_on_link_write-IsRunning :
      (ok : Bool) → Returns (IsRunning oid) (server_on_link_write ok k s)
  unfolding server_on_link_write
  server_on_link_write-IsRunning ok = assert_open_lem (IsRunning oid) _ (
      at_link-Returns (IsRunning oid) k _ _ _ r.valid h refl r (λ l e entry.
        >>=-Returns (λ l'. (l'.opened ≡ true) × (l'.linkid ≡ l.linkid)) (IsRunning oid)
          (on_async_write ok l) _ (on_async_write_lem ok l entry.0)
          (λ l' q. update-IsRunning k l l' r e q.0 q.1)))
