-- ===== src/Net/TcpClient.antt =====
-- src/net/tcp/tcp_client.cpp. What libuv answers is an argument.
use dolphin_core.Base.{
  ℕ, ◌+◌, ◌%◌, ◌^◌, Bool, true, false, not, ◌&&◌, List, Option, none, some, ◌==◌, if◌then◌else◌,
}
use dolphin_core.Net.Shared.{Io, set_link_key, link_del, link_close_wakeup, ◌>>=◌}
use dolphin_core.Net.TcpLink.{Code, fail}
use dolphin_core.Net.TcpLink.Gateway.{lat_none}
use dolphin_core.Net.TcpLink.Send.{TcpLink, new_link, stop, send_message, on_async_write, link_read}

-- ClientStatus
pub data ClientStatus : Type 0 where
  cs_closed cs_startting cs_running cs_error cs_linkstoped : ClientStatus

pub record TcpClient : Type 0 where
  pub link : Option TcpLink
  pub link_id : ℕ
  pub status : ClientStatus

unfoldable pub new_client : ℕ → TcpClient
new_client objid = record { link = none; link_id = set_link_key objid 0; status = cs_linkstoped }

-- `link_id_ + 1`
abbrev pub own_link : TcpClient → ℕ
own_link c = (c.link_id + 1) % 2 ^ 64

abbrev pub is_linkstoped : ClientStatus → Bool
is_linkstoped cs_linkstoped = true
is_linkstoped _ = false

abbrev pub is_startting : ClientStatus → Bool
is_startting cs_startting = true
is_startting _ = false

abbrev pub has_link : Option TcpLink → Bool
has_link none = false
has_link (some l) = true

unfoldable pub client_send_data : List ℕ → TcpClient → Io → TcpClient × Io
unfolding send_message
client_send_data d c io = elim c.link [
  | none ↦ (c, io)
  | some l ↦ let (l', io') = send_message d l io in (record c { link = some l' }, io')
]

unfoldable pub client_kick_link : ℕ → TcpClient → Io → Io
unfolding link_close_wakeup
client_kick_link k c io = if own_link c == k then link_close_wakeup k io else io

-- OnStart; `connects` says whether `uv_tcp_connect` takes the request.
unfoldable pub client_on_start : Bool → TcpClient → TcpClient × Bool
client_on_start connects c =
    if not (is_linkstoped c.status) && has_link c.link
    then (c, true)
    else if connects
    then (record c { status = cs_startting }, true)
    else (c, false)

-- OnConnect: the key of the link, or 0.
unfoldable pub client_on_connect : TcpClient → TcpClient × ℕ
unfolding new_link
client_on_connect c =
    if is_startting c.status
    then (
      record c { link = some (new_link (own_link c) lat_none); status = cs_running },
      own_link c,
    )
    else (record c { status = cs_closed }, 0)

-- OnStop, with OnStopLink.
unfoldable pub client_on_stop : ℕ → TcpClient → Io → Option (TcpClient × Io)
unfolding stop link_del
client_on_stop id c io = elim c.link [
  | none ↦ some (c, io)
  | some l ↦ stop l io >>= λ (l', io'). some (
      if id == c.link_id
      then (record c { link = none; status = cs_closed }, link_del ((id + 1) % 2 ^ 64) io')
      else (record c { link = none; status = cs_linkstoped }, link_del id io'))
]

unfoldable pub client_on_link_read : List ℕ → TcpClient → Io → TcpClient × Io × Code
unfolding link_read
client_on_link_read d c io = elim c.link [
  | none ↦ (c, io, fail 1)
  | some l ↦ let (l', io', ret) = link_read d l io in (record c { link = some l' }, io', ret)
]

unfoldable pub client_on_link_write : Bool → TcpClient → Option TcpClient
unfolding on_async_write
client_on_link_write ok c = elim c.link [
  | none ↦ some c
  | some l ↦ on_async_write ok l >>= λ l'. some (record c { link = some l' })
]

-- OnError calls through `link_` whether there is one or not.
unfoldable pub client_on_error : ℕ → TcpClient → Io → Option (TcpClient × Io)
unfolding stop link_del
client_on_error k c io = elim c.link [
  | none ↦ none
  | some l ↦ stop l io >>= λ (l', io').
      some (record c { link = none; status = cs_linkstoped }, link_del k io')
]
