-- ===== src/Net/TcpServer.antt =====
-- src/net/tcp/tcp_server.cpp. What libuv answers is an argument. `link_map` holds what
-- `link_map_` does: a LinkSPtr under each key, `none` if it is empty.
pub mod Safe
pub mod Accept
use dolphin_core.Base.{
  ℕ, zero, suc, ◌+◌, ◌-◌, ◌%◌, ◌^◌, Bool, true, false, not, ◌&&◌, List, [], ◌∷◌, Option, none, some,
  ltb, ◌==◌, if◌then◌else◌,
}
use dolphin_core.Base.Assoc.{elem, keys, lookup, update, erase, insert}
use dolphin_core.Net.Shared.{Io, set_link_key, link_del, link_close_wakeup, ◌>>=◌}
use dolphin_core.Net.TcpLink.{Code, success, fail}
use dolphin_core.Net.TcpLink.Gateway.{LinkAttr}
use dolphin_core.Net.TcpLink.Send.{TcpLink, new_link, stop, send_message, on_async_write, link_read}

-- ServerStatus
pub data ServerStatus : Type 0 where
  ss_closed ss_running ss_error : ServerStatus

pub record TcpServer : Type 0 where
  pub linkid : ℕ
  pub generate : ℕ
  pub status : ServerStatus
  pub link_map : List (ℕ × Option TcpLink)
  pub accepting : Bool
  pub link_attr : LinkAttr

-- The constructor enters the server's own key with an empty pointer.
unfoldable pub new_server : ℕ → LinkAttr → TcpServer
new_server objid attr = record {
  linkid = set_link_key objid 0;
  generate = 1;
  status = ss_closed;
  link_map = (set_link_key objid 0, none) ∷ [];
  accepting = false;
  link_attr = attr;
}

abbrev pub is_closed : ServerStatus → Bool
is_closed ss_closed = true
is_closed _ = false

-- assert(status_ != SS_CLOSED)
abbrev pub assert_open : TcpServer → Option (Unit {0})
assert_open s = if is_closed s.status then none else some tt

-- `pos->second->…` for what `link_map_.find` gave: the call at a link, where there is none what the
-- function does then, and a fault at an empty pointer.
abbrev pub at_link {ℓ} :
    {A : Type ℓ} → Option (Option TcpLink) → Option A → (TcpLink → Option A) → Option A
at_link none missing call = missing
at_link (some none) missing call = none
at_link (some (some l)) missing call = call l

unfoldable pub server_send_data : ℕ → List ℕ → TcpServer → Io → Option (TcpServer × Io)
unfolding send_message
server_send_data k d s io = at_link (lookup k s.link_map) (some (s, io)) (λ l.
    let (l', io') = send_message d l io in
    some (record s { link_map = update k (some l') s.link_map }, io'))

unfoldable pub server_kick_link : ℕ → TcpServer → Io → Io
unfolding link_close_wakeup
server_kick_link k s io = if elem k (keys s.link_map) then link_close_wakeup k io else io

-- OnStart; `bound` and `listens` say whether `uv_tcp_bind` and `uv_listen` succeed.
unfoldable pub server_on_start : Bool → Bool → TcpServer → TcpServer × Bool
server_on_start bound listens s =
    if not (is_closed s.status)
    then (s, true)
    else if bound && listens
    then (record s { status = ss_running; accepting = true }, true)
    else (record s { accepting = true }, false)

-- The loop of OnStop over the links; `id` is the server's key.
unfoldable pub stop_links : ℕ → List (ℕ × Option TcpLink) → Io → Option Io
unfolding stop link_del
stop_links id [] io = some io
stop_links id ((k, none) ∷ m) io = none
stop_links id ((k, some l) ∷ m) io = stop l io >>= λ (l', io'). stop_links id m (link_del id io')

unfoldable pub on_stop_link : ℕ → TcpServer → Io → Option (TcpServer × Io)
unfolding stop link_del
on_stop_link k s io = assert_open s >>= λ _. at_link (lookup k s.link_map) (some (s, io)) (λ l.
    stop l io >>= λ (l', io'). some (record s { link_map = erase k s.link_map }, link_del k io'))

unfoldable pub server_on_stop : ℕ → TcpServer → Io → Option (TcpServer × Io)
unfolding stop_links on_stop_link
server_on_stop id s io =
    if id == s.linkid
    then (stop_links id (erase s.linkid s.link_map) io >>= λ io'.
        some (record s { status = ss_closed; link_map = []; accepting = false }, io'))
    else on_stop_link id s io

unfoldable pub server_on_error : ℕ → TcpServer → Io → Option (TcpServer × Io)
unfolding on_stop_link
server_on_error k s io = on_stop_link k s io

-- `linkid_ | id` for the `int32_t` id that `generate_` gives: from 2 ^ 31 on it is negative, and
-- its sign fills the upper half.
abbrev pub link_key : ℕ → ℕ → ℕ
link_key linkid id = if ltb id (2 ^ 31) then linkid + id else 2 ^ 64 - 2 ^ 32 + id

-- GetNextLinkId from a counter on, in at most so many rounds: the key and the counter afterwards.
unfoldable pub next_link_id : ℕ → TcpServer → ℕ → Option (ℕ × ℕ)
next_link_id zero s id = none
next_link_id (suc rounds) s id =
    let next = (id + 1) % 2 ^ 32 in
    let rest = next_link_id rounds s next in
    if elem (link_key s.linkid id) (keys s.link_map)
    then rest
    else some (link_key s.linkid id, next)

-- OnAccept: the key of the new link, or 0. `accepts` and `reads` say whether `uv_accept` and
-- `uv_read_start` succeed; if the second fails, the open link is destroyed, against the assert of
-- its destructor. A counter of 32 bits ends every search within 2 ^ 32 rounds, if at all;
-- the map has fewer entries than the rounds given.
unfoldable pub on_accept : Bool → Bool → ℕ → TcpServer → Option (TcpServer × ℕ)
unfolding next_link_id new_link
on_accept accepts reads rounds s = assert_open s >>= λ _.
    if accepts
    then (next_link_id rounds s s.generate >>= λ (key, next).
        if reads
        then some (
          record s {
            generate = next;
            link_map = insert key (some (new_link key s.link_attr)) s.link_map;
          },
          key,
        )
        else none)
    else some (s, 0)

unfoldable pub server_on_link_read : ℕ → List ℕ → TcpServer → Io → Option (TcpServer × Io × Code)
unfolding link_read
server_on_link_read k d s io = assert_open s >>= λ _.
    at_link (lookup k s.link_map) (some (s, io, fail 2)) (λ l.
      let (l', io', ret) = link_read d l io in
      some (record s { link_map = update k (some l') s.link_map }, io', ret))

unfoldable pub server_on_link_write : Bool → ℕ → TcpServer → Option TcpServer
unfolding on_async_write
server_on_link_write ok k s = assert_open s >>= λ _. at_link (lookup k s.link_map) (some s) (λ l.
    on_async_write ok l >>= λ l'. some (record s { link_map = update k (some l') s.link_map }))
