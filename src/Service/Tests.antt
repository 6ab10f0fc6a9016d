-- ===== src/Service/Tests.antt =====
-- Messages of a program with one link of a server: encoded, sent, delivered, handed on and handled.
use dolphin_core.Base.{
  ℕ, zero, suc, ◌+◌, ◌≡◌, ◌≤◌, refl, ap, arith, false, inl, List, [], ◌∷◌, none, some, length, pos,
  concat, append-nil,
}
use dolphin_core.Base.Assoc.{keys, AllEntries}
use dolphin_core.Net.Shared.{svr_accept_ok, net_data, system_stop, svr_accept_ok, get_object_id}
use dolphin_core.Net.Returns.{Returns, Returns-weaken}
use dolphin_core.Net.TcpLink.{success}
use dolphin_core.Net.TcpLink.Gateway.{lat_none, new_reader, on_reads}
use dolphin_core.Net.TcpManager.Valid.{IsValid, io-IsValid}
use dolphin_core.Net.Libuv.Reach.{Reachable-IsValid}
use dolphin_core.Net.Libuv.Tests.{open_key, link, linked_manager, linked_manager-Reachable}
use dolphin_core.Serialize.MsgPack.Tests.{stored, stored-IsZlib, filled, message}
use dolphin_core.Service.MsgTrans.{
  Malloc, Heap, package_size, new_push_buffer, encode_message, queue_msg_size, msg_buffer_size,
}
use dolphin_core.Serialize.MsgPack.Whole.{Carries}
use dolphin_core.Service.MsgTrans.RoundTrip.{encode_message-Carries}
use dolphin_core.Service.MsgTrans.Stream.{encode_all, decode_all, HasMemory, messages_delivered}
use dolphin_core.Service.LogicObj.{LogicObj, Sending}
use dolphin_core.Service.Fetch.{Service}
use dolphin_core.Service.LogicBase.{Logic, Callbacks, process_msg}
use dolphin_core.Service.LogicBase.Frees.{IsCalm, heap_of, with_sent, process_msg_frees}
use dolphin_core.Service.LogicBase.Answers.{IsLinked, on_check_signal-Returns}

length-filled : (n : ℕ) → length (filled n) ≡ n
length-filled zero = refl
length-filled (suc n) = ap suc (length-filled n)

-- An allocator that has memory.
abbrev plenty : Malloc
plenty n = some (filled n)

plenty-HasMemory : HasMemory plenty package_size
unfolding new_push_buffer
plenty-HasMemory n h = (_, refl)

abbrev empty_heap : Heap
empty_heap = record { blocks = []; next = 1 }

messages_delivered_example :
    let ps = encode_all stored (pos 0) (message ∷ message ∷ []) (filled package_size) in
    let out = on_reads (new_reader lat_none) (concat ps ∷ []) in
    (out.code ≡ success)
    × (decode_all stored plenty out.delivered none empty_heap ≡ some (message ∷ message ∷ []))
messages_delivered_example =
    messages_delivered stored (pos 0) plenty (message ∷ message ∷ []) (filled package_size)
      (concat (encode_all stored (pos 0) (message ∷ message ∷ []) (filled package_size)) ∷ []) none
      empty_heap stored-IsZlib (length-filled package_size)
      ((omega arith, omega arith, inl refl), ((omega arith, omega arith, inl refl), tt))
      plenty-HasMemory tt (append-nil _)

linked-IsValid : IsValid linked_manager
linked-IsValid = Reachable-IsValid linked_manager linked_manager-Reachable

abbrev obj : LogicObj
obj = record { link = open_key; mark = 5; cache = 1 ∷ [] }

abbrev sending : Sending
sending = record { manager = linked_manager; array = filled package_size }

-- A program that takes note of nothing, with an object on the link.
abbrev idle : Callbacks
idle = record {
  on_add_link = λ ev l. some (l, ev);
  on_del_link = λ ev l. some (l, ev);
  on_add_logic = λ ev l. some (l, ev);
  msg_parse = λ o a q bofree l. some (l, bofree);
}

abbrev Steady : Logic → Type 0
Steady l = IsValid l.service.manager × AllEntries IsLinked l.objs

idle-IsCalm : IsCalm stored idle Steady
idle-IsCalm = record {
  add_link = λ ev l i. (i, refl);
  del_link = λ ev l i. (i, refl);
  add_logic = λ ev l i. (i, refl, refl, refl);
  parse = λ o a q f l i. (i, refl, refl);
  answers = λ id cmd l i.
      Returns-weaken (λ net. IsValid net.manager) (λ net. Steady (with_sent net l)) _
        (on_check_signal-Returns stored id cmd l.objs
          (record { manager = l.service.manager; array = l.array }) i.0 i.1)
        (λ net w. (w, i.1));
  heap_free = λ h l i. i;
  news = λ sv l v i. (v, i.1);
}

-- What arrives on the link: the news of it, a message, and the end of the link.
packed :
    (p : List ℕ) × (array' : List ℕ) × (encode_message stored none message (pos 0) (filled 100)
      ≡ (some p, array'))
    × Carries stored p message
    × (length p ≤ 100)
    × (length array' ≡ 100)
packed =
    encode_message-Carries stored (pos 0) message (filled 100) stored-IsZlib (omega arith)
      (omega arith, omega arith, inl refl)

abbrev service : Service
service = record {
  manager = record linked_manager {
    io = record (linked_manager.io) {
      recv_queue =
          record { key = open_key; type = svr_accept_ok; bytes = [] }
          ∷ record { key = open_key; type = net_data; bytes = packed.0 }
          ∷ record { key = open_key; type = system_stop; bytes = [] }
          ∷ [];
    };
  };
  heap = empty_heap;
  endian_map =
      (
        get_object_id open_key,
        record { objid = get_object_id open_key; mark = 5; ip = []; port = 80; retry = false },
      )
      ∷ [];
  reconnect_map = [];
  next_reconn_time = 0;
}

abbrev logic : Logic
logic = record { service = service; objs = (open_key, obj) ∷ []; array = filled package_size }

service-IsValid : IsValid service.manager
service-IsValid = io-IsValid service.manager.io linked_manager linked-IsValid

block_for :
    (b : List ℕ) × (new_push_buffer plenty (msg_buffer_size (length message) + queue_msg_size)
      ≡ some b)
unfolding new_push_buffer
block_for = (_, refl)

process_msg_frees_example :
    Returns
      (λ r. Steady r.0 × (keys (heap_of r.0).blocks ≡ []))
      (process_msg stored plenty 10 5 idle [] logic)
process_msg_frees_example =
    process_msg_frees stored idle Steady idle-IsCalm plenty 10 5 logic
      (service-IsValid, (omega arith, tt)) service-IsValid
      (tt, ((message, block_for.0, packed.3, omega arith, omega arith, block_for.1), (tt, tt))) refl
      refl (omega arith) (omega arith)
