-- ===== src/Service/LogicBase/Frees.antt =====
-- ProcessMsg and the blocks of messages, for a program whose callbacks keep to rules.
use dolphin_core.Base.{
  ℕ, ◌+◌, ◌^◌, ◌≤◌, ◌≡◌, ◌≢◌, refl, ap, subst, ◌∙◌, sym, arith, Bool, true, false, if_elim,
}
use dolphin_core.Base.{List, [], ◌∷◌, none, some, Option, length, ◌==◌}
use dolphin_core.Base.Assoc.{lookup, elem, keys, keys-erase, lookup-elem}
use dolphin_core.Net.Shared.{◌>>=◌}
use dolphin_core.Net.Returns.{Returns, >>=-Returns, Returns-weaken}
use dolphin_core.Net.TcpManager.Valid.{IsValid}
use dolphin_core.Net.TcpManager.Ids.{taken}
use dolphin_core.Serialize.MsgPack.{Zlib}
use dolphin_core.Service.MsgTrans.{Malloc, Heap, QueueMsg}
use dolphin_core.Service.LogicObj.{LogicObj, Sending, on_check_signal}
use dolphin_core.Service.Fetch.{
  Service, StEvent, EventType, evt_on_data, evt_on_connect_fail, evt_on_listen_fail, evt_on_connect,
  evt_on_disconnect, fetch_msg,
}
use dolphin_core.Service.Fetch.Memory.{Owns, no_event, a_block, no_block, AreProper}
use dolphin_core.Service.Fetch.Reconnect.{fetch_msg-Owns}
use dolphin_core.Service.LogicBase.{
  Logic, Callbacks, block_of, dispach_logic_msg, check_signal, parse_msg, free_data, parse_event,
  parse_all, process_msg, value_of, login_value, check_signal_value,
}

abbrev pub heap_of : Logic → Heap
heap_of l = l.service.heap

abbrev pub with_sent : Sending → Logic → Logic
with_sent net l = record l {
  service = record (l.service) { manager = net.manager };
  array = net.array;
}

-- The rules: from any state in which `Inv` holds, a callback returns to such a state, allocates and
-- frees no block and leaves the pointer and `bofree` of the event as they are; heartbeats are
-- answered; and `Inv` is about neither the heap nor news of a valid network.
pub record IsCalm (zip : Zlib) (cb : Callbacks) (Inv : Logic → Type 0) : Type 0 where
  pub add_link :
      (ev : StEvent) (l : Logic)
      → Inv l
      → Returns (λ r. Inv r.0 × (heap_of r.0 ≡ heap_of l)) (cb.on_add_link ev l)
  pub del_link :
      (ev : StEvent) (l : Logic)
      → Inv l
      → Returns (λ r. Inv r.0 × (heap_of r.0 ≡ heap_of l)) (cb.on_del_link ev l)
  pub add_logic :
      (ev : StEvent) (l : Logic)
      → Inv l
      → Returns
          (λ r.
            Inv r.0
            × (heap_of r.0 ≡ heap_of l)
            × (r.1.bofree ≡ ev.bofree)
            × (r.1.queue_msg ≡ ev.queue_msg))
          (cb.on_add_logic ev l)
  pub parse :
      (obj : LogicObj) (a : ℕ) (q : QueueMsg) (bofree : Bool) (l : Logic)
      → Inv l
      → Returns
          (λ r. Inv r.0 × (heap_of r.0 ≡ heap_of l) × (r.1 ≡ bofree))
          (cb.msg_parse obj a q bofree l)
  pub answers :
      (id : ℕ) (cmd : List ℕ) (l : Logic)
      → Inv l
      → Returns
          (λ net. Inv (with_sent net l))
          (on_check_signal zip id cmd l.objs
            (record { manager = l.service.manager; array = l.array }))
  pub heap_free :
      (h : Heap) (l : Logic) → Inv l → Inv (record l { service = record (l.service) { heap = h } })
  pub news :
      (sv : Service) (l : Logic) → IsValid sv.manager → Inv l → Inv (record l { service = sv })

module _ (zip : Zlib) (cb : Callbacks) (Inv : Logic → Type 0) (calm : IsCalm zip cb Inv) where
  -- The state and the event behind ParseMsg.
  abbrev Parsed : StEvent → Logic → Logic × StEvent → Type 0
  Parsed ev l r =
      Inv r.0
      × (heap_of r.0 ≡ heap_of l)
      × (r.1.bofree ≡ ev.bofree)
      × (r.1.queue_msg ≡ ev.queue_msg)

  -- The rest of the blocks belongs to the rest of the queue.
  abbrev Left : List ℕ → Logic → Type 0
  Left addrs l = Inv l × (keys (heap_of l).blocks ≡ addrs)

  block_of_lem :
      (ev : StEvent) (a : ℕ) (l : Logic) (addrs : List ℕ)
      → ev.queue_msg ≡ some a
      → keys (heap_of l).blocks ≡ a ∷ addrs
      → (q : QueueMsg) × (block_of ev l ≡ some (a, q))
  unfolding block_of
  block_of_lem ev a l addrs p e =
      let here : elem a (keys (heap_of l).blocks) ≡ true = rw e (ground arith) in
      let (q, found) = lookup-elem a (heap_of l).blocks here in (q, rw (p, found) refl)

  dispach-Parsed :
      (ev : StEvent) (a : ℕ) (q : QueueMsg) (l : Logic)
      → Inv l
      → block_of ev l ≡ some (a, q)
      → Returns (Parsed ev l) (dispach_logic_msg cb ev l)
  unfolding dispach_logic_msg
  dispach-Parsed ev a q l i b = go (lookup ev.id l.objs)
    where
      go :
          (o : Option LogicObj)
          → Returns (Parsed ev l) (elim o [
            | none ↦ some (l, ev)
            | some obj ↦ block_of ev l >>= λ (a, q).
                cb.msg_parse obj a q ev.bofree l >>= λ (l', bofree').
                some (l', record ev { bofree = bofree' })
          ])
      go none = (i, refl, refl, refl)
      go (some obj) = rw b (
          >>=-Returns
            (λ (r : Logic × Bool). Inv r.0 × (heap_of r.0 ≡ heap_of l) × (r.1 ≡ ev.bofree))
            (Parsed ev l) (cb.msg_parse obj a q ev.bofree l) _ (calm.parse obj a q ev.bofree l i)
            (λ r (j, h, f). (j, h, f, refl)))

  parse_msg-Parsed :
      (ev : StEvent) (a : ℕ) (l : Logic) (addrs : List ℕ)
      → Inv l
      → ev.queue_msg ≡ some a
      → keys (heap_of l).blocks ≡ a ∷ addrs
      → Returns (Parsed ev l) (parse_msg zip cb ev l)
  unfolding parse_msg
  parse_msg-Parsed ev a l addrs i p e =
      let (q, b) = block_of_lem ev a l addrs p e in
      rw b (
        if_elim (Returns (Parsed ev l)) (value_of q == login_value) _ _ (λ _. calm.add_logic ev l i)
          (λ _.
            if_elim (Returns (Parsed ev l)) (value_of q == check_signal_value)
              (check_signal zip ev q l) (dispach_logic_msg cb ev l)
              (λ _.
                >>=-Returns (λ net. Inv (with_sent net l)) (Parsed ev l) _ _
                  (calm.answers ev.id q.cmd_buffer l i) (λ net j. (j, refl, refl, refl)))
              (λ _. dispach-Parsed ev a q l i b)))

  free_data-Left :
      (ev : StEvent) (a : ℕ) (l l' : Logic) (ev' : StEvent) (addrs : List ℕ)
      → ev.queue_msg ≡ some a
      → ev.bofree ≡ true
      → keys (heap_of l).blocks ≡ a ∷ addrs
      → Parsed ev l (l', ev')
      → Returns (Left addrs) (free_data (l', ev'))
  free_data-Left ev a l l' ev' addrs p f e (i, h, f', p') =
      let here : keys (heap_of l').blocks ≡ a ∷ addrs = ap (λ u. keys u.blocks) h ∙ e in
      let there : elem a (keys (heap_of l').blocks) ≡ true = rw here (ground arith) in
      rw (f' ∙ f, p' ∙ p, there)
        (calm.heap_free _ l' i, keys-erase a (heap_of l').blocks ∙ rw here (ground arith))

  abbrev handled : StEvent → Logic → EventType → Option Logic
  handled ev l t = elim t [
    | evt_on_data ↦ parse_msg zip cb ev l >>= free_data
    | evt_on_connect ↦ cb.on_add_link ev l >>= λ (l', ev'). some l'
    | evt_on_disconnect ↦ cb.on_del_link ev l >>= λ (l', ev'). some l'
    | evt_on_connect_fail ↦ some l
    | evt_on_listen_fail ↦ some l
  ]

  parse_event-Left :
      (ev : StEvent) (queue : List StEvent) (l : Logic) (all : List ℕ)
      → Inv l
      → Owns (ev ∷ queue) all
      → keys (heap_of l).blocks ≡ all
      → Returns (λ l'. Inv l' × Owns queue (keys (heap_of l').blocks)) (parse_event zip cb ev l)
  unfolding parse_event
  parse_event-Left _ queue l _ i (a_block {addrs = addrs} ev a d p f o) e =
      subst (λ t. Returns (λ l'. Inv l' × Owns queue (keys (heap_of l').blocks)) (handled ev l t))
        (sym d)
        (>>=-Returns (Parsed ev l) _ (parse_msg zip cb ev l) free_data
          (parse_msg-Parsed ev a l addrs i p e)
          (λ (l', ev') r.
            Returns-weaken (Left addrs) _ (free_data (l', ev'))
              (free_data-Left ev a l l' ev' addrs p f e r) (λ l'' (j, k). (j, rw k o))))
  parse_event-Left _ queue l _ i (no_block ev n o) e = go ev.event n
    where
      Good : Logic → Type 0
      Good l' = Inv l' × Owns queue (keys (heap_of l').blocks)

      kept :
          (r : Option (Logic × StEvent))
          → Returns (λ r. Inv r.0 × (heap_of r.0 ≡ heap_of l)) r
          → Returns Good (r >>= λ (l', ev'). some l')
      kept r h = >>=-Returns _ Good r _ h (λ q (j, k). (j, rw (k, e) o))

      go : (t : EventType) → t ≢ evt_on_data → Returns Good (handled ev l t)
      go evt_on_data h = absurd (h refl)
      go evt_on_connect h = kept (cb.on_add_link ev l) (calm.add_link ev l i)
      go evt_on_disconnect h = kept (cb.on_del_link ev l) (calm.del_link ev l i)
      go evt_on_connect_fail h = (i, rw e o)
      go evt_on_listen_fail h = (i, rw e o)

  parse_all-frees :
      (queue : List StEvent) (l : Logic)
      → Inv l
      → Owns queue (keys (heap_of l).blocks)
      → Returns (λ l'. Inv l' × (keys (heap_of l').blocks ≡ [])) (parse_all zip cb queue l)
  unfolding parse_all
  parse_all-frees [] l i o = (i, nothing _ o)
    where
      nothing : (addrs : List ℕ) → Owns [] addrs → addrs ≡ []
      nothing _ no_event = refl
  parse_all-frees (ev ∷ queue) l i o =
      >>=-Returns _ _ (parse_event zip cb ev l) _
        (parse_event-Left ev queue l (keys (heap_of l).blocks) i o refl)
        (λ l' (j, o'). parse_all-frees queue l' j o')

  -- The program keeps to the rules, the registry is valid, packets arrive that carry messages for
  -- which there is memory, each endpoint can be given an id once more, and no block is allocated.
  -- Then ProcessMsg returns, every block that it allocated is freed, none of them twice or while
  -- an event still needs it, and the rules hold on.
  pub process_msg_frees :
      (malloc : Malloc) (rounds now : ℕ) (l : Logic)
      → Inv l
      → IsValid l.service.manager
      → AreProper zip malloc l.service.manager.io.recv_queue
      → (heap_of l).blocks ≡ []
      → elem 0 (keys l.service.endian_map) ≡ false
      → length (taken l.service.manager)
          + (length l.service.endian_map + length l.service.reconnect_map)
        ≤ rounds
      → rounds ≤ 2 ^ 16
      → Returns
          (λ r. Inv r.0 × (keys (heap_of r.0).blocks ≡ []))
          (process_msg zip malloc rounds now cb [] l)
  unfolding process_msg
  process_msg_frees malloc rounds now l i v p empty z room lt =
      >>=-Returns _ _ (fetch_msg zip malloc rounds now l.service []) _
        (fetch_msg-Owns zip malloc rounds now l.service [] v p (rw empty tt) (rw empty no_event) z
          room lt)
        (λ (sv', queue') (o, f, w).
          >>=-Returns _ _ (parse_all zip cb queue' (record l { service = sv' })) _
            (parse_all-frees queue' (record l { service = sv' }) (calm.news sv' l w i) o)
            (λ l' r. r))
