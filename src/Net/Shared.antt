-- ===== src/Net/Shared.antt =====
-- What the objects of src/net/tcp share: keys and messages of publish/include/define/common.h, the
-- receive queue of TcpManager, and the queues by which other threads wake the libuv thread
-- (`Libuv` of src/net/tcp/uv_ex.cpp). A failed assert and a call through NULL are `none`.
use dolphin_core.Base.{ℕ, ◌+◌, ◌*◌, ◌/◌, ◌%◌, ◌^◌, List, [], ◌∷◌, ◌++◌, Option, none, some}

-- SETLINKKEY, GETOBJECTID and the masks with MASK32BIT.
abbrev pub set_link_key : ℕ → ℕ → ℕ
set_link_key objid id = (objid * 2 ^ 32 + id % 2 ^ 32) % 2 ^ 64

abbrev pub get_object_id : ℕ → ℕ
get_object_id key = key / 2 ^ 32 % 2 ^ 32

abbrev pub link_bits : ℕ → ℕ
link_bits key = key % 2 ^ 32

abbrev pub object_bits : ℕ → ℕ
object_bits key = key / 2 ^ 32 * 2 ^ 32 % 2 ^ 64

-- TM_TYPE_*, as far as a message is made with it.
pub data MessageType : Type 0 where
  net_data system_stop : MessageType
  cli_start_failed cli_error cli_connect_failed cli_connect_ok : MessageType
  svr_start_failed svr_error svr_accept_failed svr_accept_ok : MessageType

pub record TcpMessage : Type 0 where
  pub key : ℕ
  pub type : MessageType
  pub bytes : List ℕ

-- `closed` are the keys of the links whose handles were given to `uv_close`.
pub record Io : Type 0 where
  pub recv_queue : List TcpMessage
  pub obj_async_queue : List ℕ
  pub write_queue : List ℕ
  pub close_queue : List ℕ
  pub closed : List ℕ

-- PutMessage; LinkDel, which is `del_func_`, is PutMessage with TM_TYPE_SYSTEM_STOP.
unfoldable pub put_message : ℕ → MessageType → Io → Io
put_message k t io = record io {
  recv_queue = io.recv_queue ++ (record { key = k; type = t; bytes = [] } ∷ []);
}

unfoldable pub link_del : ℕ → Io → Io
unfolding put_message
link_del k io = put_message k system_stop io

-- PutRecvQueue
unfoldable pub put_recv_queue : List TcpMessage → Io → Io
put_recv_queue q io = record io { recv_queue = io.recv_queue ++ q }

-- TcpStartWakeup, LinkWriteWakeup and LinkCloseWakeup
unfoldable pub tcp_start_wakeup : ℕ → Io → Io
tcp_start_wakeup k io = record io { obj_async_queue = io.obj_async_queue ++ (k ∷ []) }

unfoldable pub link_write_wakeup : ℕ → Io → Io
link_write_wakeup k io = record io { write_queue = io.write_queue ++ (k ∷ []) }

unfoldable pub link_close_wakeup : ℕ → Io → Io
link_close_wakeup k io = record io { close_queue = io.close_queue ++ (k ∷ []) }

infixl 5 ◌>>=◌
abbrev pub ◌>>=◌ {ℓ κ} : {A : Type ℓ} {B : Type κ} → Option A → (A → Option B) → Option B
none >>= f = none
some a >>= f = f a
