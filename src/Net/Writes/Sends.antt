-- ===== src/Net/Writes/Sends.antt =====
-- SendData of src/net/tcp/tcp_manager.cpp at a link of a server.
use dolphin_core.Base.{ℕ, ◌≡◌, refl, ap, ◌∙◌, true, List, [], ◌∷◌, ◌++◌, some}
use dolphin_core.Base.Assoc.{update, lookup-update_self, elem_of_lookup}
use dolphin_core.Net.Shared.{get_object_id, link_write_wakeup}
use dolphin_core.Net.TcpLink.Send.{TcpLink, send_message}
use dolphin_core.Net.TcpServer.{TcpServer, server_send_data}
use dolphin_core.Net.TcpManager.{TcpManager, server, lock, store}
use dolphin_core.Net.TcpManager.Calls.{send_data}
use dolphin_core.Net.TcpManager.Valid.{IsValid, switch-server}
use dolphin_core.Net.TcpManager.Handlers.{send_data-IsValid}
use dolphin_core.Net.Stops.{HasLink, running, entry, known}
use dolphin_core.Net.Writes.{pending, on_object, on_link}

module _ (k : ℕ) (m : TcpManager) (s : TcpServer) (l : TcpLink) (v : IsValid m)
    (h : HasLink k m s l) (d : List ℕ) where
  server_send_data_lem :
      server_send_data k d s m.io
      ≡ some (
        record s {
          link_map =
              update k (some (record l { write_queue = l.write_queue ++ (d ∷ []) })) s.link_map;
        },
        link_write_wakeup k m.io,
      )
  unfolding server_send_data send_message link_write_wakeup
  server_send_data_lem = rw h.linked (rw (entry k m s l v h).1 refl)

  sent_manager : TcpManager
  sent_manager = store (get_object_id k) m (
    server (record s {
      link_map = update k (some (record l { write_queue = l.write_queue ++ (d ∷ []) })) s.link_map;
    }),
    link_write_wakeup k m.io,
  )

  send_data_lem : send_data k d m ≡ some (sent_manager, true)
  unfolding send_data lock sent_manager
  send_data_lem =
      rw
        (
          known k m s l v h,
          h.registered,
          switch-server (get_object_id k) s _ _ (running k m s l v h).valid.typed,
          server_send_data_lem,
        )
        refl

  pending-sent : pending k sent_manager ≡ pending k m ++ (d ∷ [])
  unfolding sent_manager store
  pending-sent =
      let l1 : TcpLink = record l { write_queue = l.write_queue ++ (d ∷ []) } in
      let s1 : TcpServer = record s { link_map = update k (some l1) s.link_map } in
      ap (on_object k) (
        lookup-update_self (get_object_id k) (server s1) m.vec_objs
          (elem_of_lookup (get_object_id k) m.vec_objs (server s) h.registered))
      ∙ ap on_link (
          lookup-update_self k (some l1) s.link_map (elem_of_lookup k s.link_map (some l) h.linked))
      ∙ rw (h.registered, h.linked) refl

  -- Data that is sent on a link of a server is accepted, waits on this link behind what waits there
  -- already, and the key of the link is queued for the libuv thread.
  pub send_data_waits :
      (m' : TcpManager) × (send_data k d m ≡ some (m', true))
      × (pending k m' ≡ pending k m ++ (d ∷ []))
      × (m'.io.write_queue ≡ m.io.write_queue ++ (k ∷ []))
  unfolding sent_manager store link_write_wakeup
  send_data_waits = (sent_manager, send_data_lem, pending-sent, refl)

  sent-HasLink :
      HasLink k sent_manager
        (record s {
          link_map =
              update k (some (record l { write_queue = l.write_queue ++ (d ∷ []) })) s.link_map;
        })
        (record l { write_queue = l.write_queue ++ (d ∷ []) })
  unfolding sent_manager store
  sent-HasLink = record {
    registered =
        lookup-update_self (get_object_id k) _ m.vec_objs
          (elem_of_lookup (get_object_id k) m.vec_objs (server s) h.registered);
    linked = lookup-update_self k _ s.link_map (elem_of_lookup k s.link_map (some l) h.linked);
  }

  sent-IsValid : IsValid sent_manager
  sent-IsValid = rw send_data_lem at (send_data-IsValid m v k d (entry k m s l v h).3)

-- A link of a server that is open in a valid registry.
abbrev pub IsOn : ℕ → TcpManager → Type 0
IsOn k m = (s : TcpServer) × (l : TcpLink) × IsValid m × HasLink k m s l

-- What is sent on it waits behind the rest, and it stays open.
pub send_data-IsOn :
    (k : ℕ) (m : TcpManager) (d : List ℕ)
    → IsOn k m
    → (m' : TcpManager) × (send_data k d m ≡ some (m', true))
      × IsOn k m'
      × (pending k m' ≡ pending k m ++ (d ∷ []))
send_data-IsOn k m d (s, l, v, h) = (
  sent_manager k m s l v h d,
  send_data_lem k m s l v h d,
  (_, _, sent-IsValid k m s l v h d, sent-HasLink k m s l v h d),
  pending-sent k m s l v h d,
)
