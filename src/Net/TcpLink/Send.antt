-- ===== src/Net/TcpLink/Send.antt =====
-- src/net/tcp/tcp_link.cpp: a link as the client and the server hold it, with what is sent on it.
use dolphin_core.Base.{ℕ, Bool, true, false, List, [], ◌∷◌, ◌++◌, Option, none, some, if◌then◌else◌}
use dolphin_core.Net.Shared.{TcpMessage, net_data, Io, link_write_wakeup, put_recv_queue}
use dolphin_core.Net.TcpLink.{Code}
use dolphin_core.Net.TcpLink.Gateway.{LinkAttr, Reader, new_reader, on_read}

-- `opened` is false once `tcp_link_` is NULL. `handed` are the buffers given to `uv_write`.
pub record TcpLink : Type 0 where
  pub linkid : ℕ
  pub opened : Bool
  pub reader : Reader
  pub write_queue : List (List ℕ)
  pub handed : List (List ℕ)

-- The constructor.
unfoldable pub new_link : ℕ → LinkAttr → TcpLink
unfolding new_reader
new_link id attr = record {
  linkid = id;
  opened = true;
  reader = new_reader attr;
  write_queue = [];
  handed = [];
}

-- Stop: a second call closes a NULL handle.
unfoldable pub stop : TcpLink → Io → Option (TcpLink × Io)
stop l io =
    if l.opened
    then some (record l { opened = false }, record io { closed = io.closed ++ (l.linkid ∷ []) })
    else none

unfoldable pub send_message : List ℕ → TcpLink → Io → TcpLink × Io
unfolding link_write_wakeup
send_message d l io =
    (record l { write_queue = l.write_queue ++ (d ∷ []) }, link_write_wakeup l.linkid io)

-- OnAsyncWrite: one `uv_write` of all that waits. `ok` says whether it takes the buffers; they are
-- freed if not.
unfoldable pub on_async_write : Bool → TcpLink → Option TcpLink
on_async_write ok l = elim l.write_queue [
  | [] ↦ some l
  | d ∷ ds ↦
      if l.opened
      then some
          (record l { write_queue = []; handed = if ok then l.handed ++ (d ∷ ds) else l.handed })
      else none
]

-- The messages of the packets that a read cut off.
abbrev pub data_messages : ℕ → List (List ℕ) → List TcpMessage
data_messages k [] = []
data_messages k (d ∷ ds) = record { key = k; type = net_data; bytes = d } ∷ data_messages k ds

-- OnRead with `rcv_msg_cb_`, which is PutRecvQueue.
unfoldable pub link_read : List ℕ → TcpLink → Io → TcpLink × Io × Code
unfolding put_recv_queue on_read
link_read d l io =
    let r = on_read l.reader d in
    (record l { reader = r.reader }, put_recv_queue (data_messages l.linkid r.delivered) io, r.code)
