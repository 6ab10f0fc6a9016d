-- ===== src/Net/TcpLink/Gateway.antt =====
-- The first bytes of a gateway's link, and the whole of `OnRead`: src/net/tcp/tcp_link.cpp and
-- `GWConnecter` of publish/include/define/common.h.
use dolphin_core.Base.{
  ℕ, ◌-◌, Bool, true, false, ◌&&◌, not, Option, none, some, List, [], ◌∷◌, ◌++◌,
}
use dolphin_core.Base.{ltb, ◌==◌, if◌then◌else◌, length, take, drop, codes, c_string, contains}
use dolphin_core.Net.TcpLink.{Code, success, fail, on_data}

-- GW_AUTHORITY_SIZE and GW_AUTHORITY_PACKATE
abbrev pub gw_authority_size : ℕ
gw_authority_size = 256

abbrev pub gw_authority_packate : List ℕ
gw_authority_packate = codes "tgw_l7_forward" ++ (13 ∷ 10 ∷ codes "Host:")

-- LinkAttrType
pub data LinkAttr : Type 0 where
  lat_none lat_gateway : LinkAttr

-- `written` is `buf_[0 .. write_)`.
pub record GwConnecter : Type 0 where
  pub written : List ℕ
  pub is_auth : Bool

-- What `OnRead` reads and writes of a link.
pub record Reader : Type 0 where
  pub link_attr : LinkAttr
  pub gw_attr : GwConnecter
  pub pre_msg : List ℕ

-- The state of a new link.
unfoldable pub new_reader : LinkAttr → Reader
new_reader attr = record {
  link_attr = attr;
  gw_attr = record { written = []; is_auth = false };
  pre_msg = [];
}

-- The full buffer holds the authority string. Past its 256 bytes comes `write_`, which is 256
-- then, so that the string ends there at the latest.
unfoldable pub authorised : List ℕ → Bool
unfolding c_string contains
authorised buf = contains (c_string buf) gw_authority_packate

-- Preprocess: the count of bytes that it took, and `none` for -1.
unfoldable pub preprocess : GwConnecter → List ℕ → Option ℕ × GwConnecter
unfolding authorised
preprocess gw d =
    let need = gw_authority_size - length gw.written in
    let full = gw.written ++ take need d in
    if ltb (length d) need
    then (some (length d), record gw { written = gw.written ++ d })
    else (if authorised full then some need else none, record { written = full; is_auth = true })

-- What a call of `OnRead` returns, hands over and leaves behind.
pub record Read : Type 0 where
  pub code : Code
  pub delivered : List (List ℕ)
  pub reader : Reader

unfoldable pub read_on : Reader → List ℕ → Read
read_on r d =
    let out = on_data r.pre_msg d in
    record {
      code = out.code;
      delivered = out.delivered;
      reader = record r { pre_msg = out.pre_msg };
    }

-- What is left behind the gateway's part of a read; nothing more is done if it is empty.
unfoldable pub after_gateway : Option ℕ → Reader → List ℕ → Read
unfolding read_on
after_gateway none r d = record { code = fail 1; delivered = []; reader = r }
after_gateway (some diff) r d =
    if length d - diff == 0
    then record { code = success; delivered = []; reader = r }
    else read_on r (drop diff d)

unfoldable pub is_gateway : LinkAttr → Bool
is_gateway lat_none = false
is_gateway lat_gateway = true

unfoldable pub on_read : Reader → List ℕ → Read
unfolding preprocess after_gateway read_on is_gateway
on_read r d =
    if is_gateway r.link_attr && not r.gw_attr.is_auth
    then (let (diff, gw) = preprocess r.gw_attr d in
        after_gateway diff (record r { gw_attr = gw }) d)
    else read_on r d

-- What two reads give one after the other. TcpManager closes the link after a read that failed
-- (src/net/tcp/tcp_manager.cpp, OnRead), so that there is no other.
unfoldable pub followed : Code → Read → Read → Read
followed success first later = record later { delivered = first.delivered ++ later.delivered }
followed (fail n) first later = first

-- The reads of a link in order.
unfoldable pub on_reads : Reader → List (List ℕ) → Read
unfolding on_read followed
on_reads r [] = record { code = success; delivered = []; reader = r }
on_reads r (d ∷ ds) =
    let first = on_read r d in followed first.code first (on_reads first.reader ds)
