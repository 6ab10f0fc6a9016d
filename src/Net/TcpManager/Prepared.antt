-- ===== src/Net/TcpManager/Prepared.antt =====
-- Objects in `prepare_`, and what starting makes of them.
use dolphin_core.Base.{ℕ, ◌≡◌, refl, arith, Bool, true, false}
use dolphin_core.Base.{not, ◌&&◌, if◌then◌else◌, if_elim}
use dolphin_core.Base.Assoc.{
  keys, AllEntries-update, AllEntries-erase, keys-update, keys-erase, erase, update,
  remove-Distinct, elem-remove,
}
use dolphin_core.Net.Shared.{Io}
use dolphin_core.Net.TcpClient.{TcpClient, is_linkstoped, has_link, cs_startting, client_on_start}
use dolphin_core.Net.TcpServer.{TcpServer, is_closed, ServerStatus, ss_running, server_on_start}
use dolphin_core.Net.TcpServer.Safe.{IsServer, IsRunning}
use dolphin_core.Net.TcpManager.{TcpManager, TcpObj}
use dolphin_core.Net.TcpManager.Valid.{IsClient, IsPrepared, IsValid}

pub erase_prepared-IsValid :
    (io : Io) (m : TcpManager)
    → IsValid m
    → (i : ℕ) → IsValid (record m { prepare = erase i m.prepare; io = io })
erase_prepared-IsValid io m v i = record {
  weak = v.weak;
  once = v.once;
  waiting = rw (keys-erase i m.prepare) (remove-Distinct i (keys m.prepare) v.waiting);
  apart = λ j e. rw (keys-erase i m.prepare) (elem-remove j i (keys m.prepare) (v.apart j e));
  live = v.live;
  prepared = AllEntries-erase IsPrepared i m.prepare v.prepared;
  counted = v.counted;
}

pub update_prepared-IsValid :
    (io : Io) (m : TcpManager)
    → IsValid m
    → (i : ℕ) (o : TcpObj) → IsPrepared i o
    → IsValid (record m { prepare = update i o m.prepare; io = io })
update_prepared-IsValid io m v i o p = record {
  weak = v.weak;
  once = v.once;
  waiting = rw (keys-update i o m.prepare) v.waiting;
  apart = λ j e. rw (keys-update i o m.prepare) (v.apart j e);
  live = v.live;
  prepared = AllEntries-update IsPrepared i o m.prepare v.prepared p;
  counted = v.counted;
}

pub client_on_start_lem :
    (connects : Bool) {oid : ℕ} {c : TcpClient}
    → IsClient oid c
    → IsClient oid (client_on_start connects c).0
unfolding client_on_start
client_on_start_lem connects {oid} {c} p =
    if_elim (λ (q : TcpClient × Bool). IsClient oid q.0)
      (not (is_linkstoped c.status) && has_link c.link) (c, true)
      (if connects then (record c { status = cs_startting }, true) else (c, false)) (λ _. p)
      (λ _.
        if_elim (λ (q : TcpClient × Bool). IsClient oid q.0) connects
          (record c { status = cs_startting }, true) (c, false)
          (λ _. record { typed = p.typed; own = p.own }) (λ _. p))

module _ (bound listens : Bool) {oid : ℕ} {s : TcpServer} (p : IsServer oid s) where
  pub same-IsServer :
      (a : Bool) (t : ServerStatus) → IsServer oid (record s { status = t; accepting = a })
  same-IsServer a t = record {
    typed = p.typed;
    own = p.own;
    distinct = p.distinct;
    links = p.links;
    counted = p.counted;
  }

  pub server_on_start-IsServer : IsServer oid (server_on_start bound listens s).0
  unfolding server_on_start
  server_on_start-IsServer =
      if_elim (λ (q : TcpServer × Bool). IsServer oid q.0) (not (is_closed s.status)) (s, true)
        (if bound && listens
          then (record s { status = ss_running; accepting = true }, true)
          else (record s { accepting = true }, false))
        (λ _. p)
        (λ _.
          if_elim (λ (q : TcpServer × Bool). IsServer oid q.0) (bound && listens)
            (record s { status = ss_running; accepting = true }, true)
            (record s { accepting = true }, false) (λ _. same-IsServer true ss_running)
            (λ _. same-IsServer true s.status))

  pub server_on_start_lem :
      (server_on_start bound listens s).1 ≡ true
      → is_closed (server_on_start bound listens s).0.status ≡ false
  unfolding server_on_start
  server_on_start_lem =
      if_elim (λ (q : TcpServer × Bool). q.1 ≡ true → is_closed q.0.status ≡ false)
        (not (is_closed s.status)) _ _ (λ e _. ground (arith, e))
        (λ _.
          if_elim (λ (q : TcpServer × Bool). q.1 ≡ true → is_closed q.0.status ≡ false)
            (bound && listens) _ _ (λ _ _. refl) (λ _ f. absurd (ground (arith, f))))

  pub server_on_start-IsRunning :
      (server_on_start bound listens s).1 ≡ true → IsRunning oid (server_on_start bound listens s).0
  server_on_start-IsRunning ok = record {
    valid = server_on_start-IsServer;
    running = server_on_start_lem ok;
  }
