-- ===== src/Net/TcpManager/Callbacks.antt =====
-- The callbacks for reads, writes, errors, new links, connections and starts, each on a registry as
-- Valid has it.
use dolphin_core.Base.{
  ℕ, ◌+◌, ◌*◌, ◌/◌, ◌^◌, ◌≤◌, ◌<◌, ◌≡◌, ◌≢◌, refl, sym, ap, ◌∙◌, arith, Bool, true, false,
}
use dolphin_core.Base.{
  List, none, some, ◌==◌, if_elim, Bool-cases, if_true, length, Option-cases, inl, inr,
}
use dolphin_core.Base.Assoc.{elem, keys, lookup, elem_of_lookup, AllEntries-lookup, lookup-elem}
use dolphin_core.Net.Shared.{Io, get_object_id, link_bits, object_bits, ◌>>=◌}
use dolphin_core.Net.Returns.{Returns, >>=-Returns}
use dolphin_core.Net.TcpLink.Gateway.{lat_none}
use dolphin_core.Net.TcpLink.{Code, success, fail}
use dolphin_core.Net.TcpLink.Send.{new_link, on_async_write, link_read}
use dolphin_core.Net.TcpClient.{
  own_link, client_on_connect, client_on_link_read, client_on_link_write, client_on_error,
  client_on_start,
}
use dolphin_core.Net.TcpServer.{
  TcpServer, server_on_start, server_on_error, on_stop_link, on_accept, server_on_link_read,
  server_on_link_write,
}
use dolphin_core.Net.TcpServer.Safe.{
  IsRunning, on_stop_link-IsRunning, server_on_link_read-IsRunning, server_on_link_write-IsRunning,
  on_async_write_lem,
}
use dolphin_core.Net.TcpServer.Accept.{on_accept-IsRunning}
use dolphin_core.Net.TcpManager.{
  TcpManager, TcpObj, client, server, switch, lock, store, on_connect, manager_on_accept,
  manager_on_error, manager_on_read, after_read, on_write, on_start,
}
use dolphin_core.Net.TcpManager.Valid.{
  IsClient, IsConnected, IsLive, IsPrepared, IsValid, switch-Returns, locked-Returns, store-IsValid,
  register-IsValid, prepared_switch-Returns, IsStartting,
}
use dolphin_core.Net.TcpManager.Handlers.{
  relink-IsConnected, removed-IsValid, client_on_error_lem, object_bits-id, object_bits-link,
  registered-Returns,
}
use dolphin_core.Net.TcpManager.Prepared.{
  erase_prepared-IsValid, update_prepared-IsValid, client_on_start_lem, server_on_start-IsServer,
  server_on_start-IsRunning,
}

module _ (m : TcpManager) (v : IsValid m) (k : ℕ) where
  -- A link's error, or that of a client that waits for its connection.
  pub manager_on_error-IsValid :
      (get_object_id k / 2 ^ 24 ≢ 1 → 0 < link_bits k)
      → ((s : TcpServer) → lookup (get_object_id k) m.prepare ≢ some (server s))
      → Returns IsValid (manager_on_error k m)
  unfolding manager_on_error server_on_error
  manager_on_error-IsValid b w =
      locked-Returns IsValid (get_object_id k) m _ _ v
        (λ o e l.
          let h : elem (get_object_id k) m.idx_obj_map ≡ true =
            rw (← v.weak) (elem_of_lookup (get_object_id k) m.vec_objs o e) in
          switch-Returns IsValid (get_object_id k) o _ _ l
            (λ c lc.
              >>=-Returns (λ _. Unit {0}) IsValid (client_on_error k c m.io) _
                (client_on_error_lem k m.io lc)
                (λ (c', io') _.
                  removed-IsValid (object_bits k) (get_object_id k) _ (client c') io' m
                    (object_bits-id k) v h (λ z. absurd (object_bits-link k z))))
            (λ s ls.
              >>=-Returns (λ (q : TcpServer × Io). IsRunning (get_object_id k) q.0) IsValid
                (on_stop_link k s m.io) _
                (on_stop_link-IsRunning (get_object_id k) k s m.io ls
                  (b (λ q. omega (arith, ls.valid.typed))))
                (λ (s', io') p.
                  removed-IsValid k (get_object_id k) _ (server s') io' m refl v h (λ _. p))))
        (λ _. elim (Option-cases (lookup (get_object_id k) m.prepare)) [
          | inl e ↦ rw e v
          | inr (client c, e) ↦
              let p : IsClient (get_object_id k) c =
                AllEntries-lookup IsPrepared (get_object_id k) m.prepare v.prepared e in
              rw
                (
                  e,
                  if_true {b = get_object_id k / 2 ^ 24 * 2 ^ 24 == 2 ^ 24} (some c) none
                      (ground (arith, p.typed)),
                )
                (erase_prepared-IsValid _ m v (get_object_id k))
          | inr (server s, e) ↦ absurd (w s e)
        ])

  read_object :
      (d : List ℕ) (o : TcpObj)
      → IsLive (get_object_id k) o
      → (get_object_id k / 2 ^ 24 ≢ 1 → 0 < link_bits k)
      → Returns
          (λ (q : (TcpObj × Io) × Code). IsLive (get_object_id k) q.0.0)
          (switch
            (get_object_id k)
            o
            (λ c. let (c', io', ret) = client_on_link_read d c m.io in some ((client c', io'), ret))
            (λ s.
              server_on_link_read k d s m.io >>= λ (s', io', ret). some ((server s', io'), ret)))
  unfolding client_on_link_read link_read
  read_object d o l b =
      switch-Returns (λ (q : (TcpObj × Io) × Code). IsLive (get_object_id k) q.0.0)
        (get_object_id k) o _ _ l
        (λ c lc. rw lc.has (relink-IsConnected lc.open_link _ lc lc.has refl refl))
        (λ s ls.
          >>=-Returns (λ (q : TcpServer × Io × Code). IsRunning (get_object_id k) q.0)
            (λ (q : (TcpObj × Io) × Code). IsLive (get_object_id k) q.0.0)
            (server_on_link_read k d s m.io) _
            (server_on_link_read-IsRunning (get_object_id k) k s m.io ls
              (b (λ q. omega (arith, ls.valid.typed))) d)
            (λ q p. p))

  pub on_write-IsValid :
      (ok : Bool)
      → (get_object_id k / 2 ^ 24 ≢ 1 → 0 < link_bits k)
      → Returns IsValid (on_write ok k m)
  unfolding on_write client_on_link_write
  on_write-IsValid ok b = registered-Returns m v k _ (λ o _ l.
      >>=-Returns (λ (r : TcpObj × Io). IsLive (get_object_id k) r.0) IsValid
        (switch (get_object_id k) o _ _) _
        (switch-Returns (λ (r : TcpObj × Io). IsLive (get_object_id k) r.0) (get_object_id k) o _ _
          l
          (λ c lc. rw lc.has (
            >>=-Returns (λ c'. IsConnected (get_object_id k) c') _
              (on_async_write ok lc.open_link >>= λ l'. some (record c { link = some l' })) _
              (>>=-Returns (λ l'. (l'.opened ≡ true) × (l'.linkid ≡ lc.open_link.linkid)) _
                (on_async_write ok lc.open_link) _ (on_async_write_lem ok lc.open_link lc.opened)
                (λ l' q. relink-IsConnected lc.open_link l' lc lc.has (q.0 ∙ sym lc.opened) q.1))
              (λ c' p. p)))
          (λ s ls.
            >>=-Returns (IsRunning (get_object_id k)) _ (server_on_link_write ok k s) _
              (server_on_link_write-IsRunning (get_object_id k) k s m.io ls
                (b (λ q. omega (arith, ls.valid.typed))) ok)
              (λ s' p. p)))
        (λ r lr. store-IsValid (get_object_id k) m r v lr))

  accepted-IsValid :
      (accepts : Bool) (rounds : ℕ) (o : TcpObj)
      → lookup (get_object_id k) m.vec_objs ≡ some o
      → IsLive (get_object_id k) o
      → get_object_id k / 2 ^ 24 ≡ 2
      → ((s : TcpServer)
          → o ≡ server s
          → (length (keys s.link_map) < rounds) × (s.generate + rounds ≤ 2 ^ 31))
      → Returns IsValid (manager_on_accept accepts true rounds k m)
  unfolding manager_on_accept lock store
  accepted-IsValid accepts rounds (client c) e l t b = absurd (omega (arith, t, l.valid.typed))
  accepted-IsValid accepts rounds (server s) e l t b =
      rw (← v.weak, elem_of_lookup (get_object_id k) m.vec_objs (server s) e, e)
        (>>=-Returns (λ (q : TcpServer × ℕ). IsRunning (get_object_id k) q.0) IsValid
          (on_accept accepts true rounds s) _
          (on_accept-IsRunning accepts rounds (get_object_id k) s l (b s refl).0 (b s refl).1)
          (λ (s', key) p. store-IsValid (get_object_id k) m (server s', _) v p))

  not_accepted-IsValid :
      (accepts : Bool) (rounds : ℕ)
      → elem (get_object_id k) m.idx_obj_map ≡ false
      → Returns IsValid (manager_on_accept accepts true rounds k m)
  unfolding manager_on_accept
  not_accepted-IsValid accepts rounds h = rw h v

  pub accept-IsValid :
      (accepts : Bool) (rounds : ℕ)
      → get_object_id k / 2 ^ 24 ≡ 2
      → ((s : TcpServer)
          → lookup (get_object_id k) m.vec_objs ≡ some (server s)
          → (length (keys s.link_map) < rounds) × (s.generate + rounds ≤ 2 ^ 31))
      → Returns IsValid (manager_on_accept accepts true rounds k m)
  accept-IsValid accepts rounds t b = elim (Bool-cases (elem (get_object_id k) m.idx_obj_map)) [
    | inl h ↦
        let found : (o : TcpObj) × (lookup (get_object_id k) m.vec_objs ≡ some o) =
          lookup-elem (get_object_id k) m.vec_objs (rw v.weak h) in
        accepted-IsValid accepts rounds found.0 found.1
          (AllEntries-lookup IsLive (get_object_id k) m.vec_objs v.live found.1) t
          (λ s e. b s (found.1 ∙ ap some e))
    | inr h ↦ not_accepted-IsValid accepts rounds h
  ]

  pub on_connect-IsValid :
      ((o : TcpObj) → lookup (get_object_id k) m.prepare ≡ some o → IsStartting o)
      → Returns IsValid (on_connect k m)
  unfolding on_connect client_on_connect new_link
  on_connect-IsValid h = elim (Option-cases (lookup (get_object_id k) m.prepare)) [
    | inl e ↦ rw (e, Returns) v
    | inr (server s, e) ↦ absurd (h (server s) e)
    | inr (client c, e) ↦
        let p : IsClient (get_object_id k) c =
          AllEntries-lookup IsPrepared (get_object_id k) m.prepare v.prepared e in
        rw (e, h (client c) e, Returns)
          (register-IsValid (get_object_id k) _ _ m v
            (elem_of_lookup (get_object_id k) m.prepare (client c) e)
            (record {
              valid = record { typed = p.typed; own = p.own };
              open_link = new_link (own_link c) lat_none;
              has = refl;
              opened = refl;
              keyed = refl;
            }))
  ]

  pub on_start-IsValid :
      (connects bound listens : Bool) → Returns IsValid (on_start connects bound listens k m)
  unfolding on_start
  on_start-IsValid connects bound listens =
      elim (Option-cases (lookup (get_object_id k) m.prepare)) [
        | inl e ↦ rw (e, Returns) v
        | inr (o, e) ↦
            rw (e, Returns)
              (prepared_switch-Returns IsValid (get_object_id k) o _ _
                (AllEntries-lookup IsPrepared (get_object_id k) m.prepare v.prepared e)
                (λ c p.
                  if_elim IsValid (client_on_start connects c).1 _ _
                    (λ _.
                      update_prepared-IsValid m.io m v (get_object_id k)
                        (client (client_on_start connects c).0) (client_on_start_lem connects p))
                    (λ _.
                      update_prepared-IsValid _ m v (get_object_id k)
                        (client (client_on_start connects c).0) (client_on_start_lem connects p)))
                (λ s p.
                  if_elim IsValid (server_on_start bound listens s).1 _ _
                    (λ ok.
                      register-IsValid (get_object_id k) _ m.io m v
                        (elem_of_lookup (get_object_id k) m.prepare o e)
                        (server_on_start-IsRunning bound listens p ok))
                    (λ _.
                      update_prepared-IsValid _ m v (get_object_id k)
                        (server (server_on_start bound listens s).0)
                        (server_on_start-IsServer bound listens p))))
      ]

-- A read, after which a link with bad data is closed.
pub manager_on_read-IsValid :
    (m : TcpManager)
    → IsValid m
    → (k : ℕ) (d : List ℕ) → (get_object_id k / 2 ^ 24 ≢ 1 → 0 < link_bits k)
    → ((s : TcpServer) → lookup (get_object_id k) m.prepare ≢ some (server s))
    → Returns IsValid (manager_on_read k d m)
unfolding manager_on_read store
manager_on_read-IsValid m v k d b w = registered-Returns m v k _ (λ o _ l.
    >>=-Returns (λ (q : (TcpObj × Io) × Code). IsLive (get_object_id k) q.0.0) IsValid
      (switch (get_object_id k) o _ _) _ (read_object m v k d o l b)
      (λ (r, ret) p. after ret r (store-IsValid (get_object_id k) m r v p)))
  where
    after :
        (ret : Code) (r : TcpObj × Io)
        → IsValid (store (get_object_id k) m r)
        → Returns IsValid (after_read ret k (store (get_object_id k) m r))
    after success r p = p
    after (fail n) r p = manager_on_error-IsValid (store (get_object_id k) m r) p k b w
