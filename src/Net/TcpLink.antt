-- ===== src/Net/TcpLink.antt =====
-- src/net/tcp/tcp_link.cpp: a link cuts the byte stream of its socket into packets. What
-- arrives in one read need not end where a packet ends; `pre_msg_` keeps the rest. Built without
-- _SERVER20_, so `parse_need_size_` is 6.
pub mod Cut
pub mod Reads
pub mod Gateway
pub mod Send
pub mod Segments
pub mod Delivery
pub mod Authority
mod Tests
use dolphin_core.Base.{ℕ, zero, suc, ◌+◌, ◌-◌, ◌*◌, ◌/◌, ◌%◌, ◌^◌, Bool, ◌||◌, not}
use dolphin_core.Base.{List, [], ◌∷◌, ◌++◌, ltb, leb, ◌==◌, if◌then◌else◌}
use dolphin_core.Base.{length, take, drop, get_or}

-- PARSE_PACKET_LEAST_SIZE_V15, PACKET_MIN_SIZE and PACKET_MAX_SIZE
abbrev pub parse_need_size : ℕ
parse_need_size = 6

abbrev pub packet_min_size : ℕ
packet_min_size = 8

abbrev pub packet_max_size : ℕ
packet_max_size = 10 * 1024 * 1024

-- The `int32_t` at the start of `d`, as its bit pattern (little endian).
unfoldable pub read_int32 : List ℕ → ℕ
read_int32 d = get_or d 0 0 + 2 ^ 8 * get_or d 1 0 + 2 ^ 16 * get_or d 2 0 + 2 ^ 24 * get_or d 3 0

-- GetOnePacketSize: the size field, the header (four bytes longer if bit 7 of the flag byte is
-- set), rounded up to 8 in `int32_t` arithmetic; the result is a bit pattern too.
unfoldable pub get_one_packet_size : List ℕ → ℕ
unfolding read_int32
get_one_packet_size d =
    let hdsz = if get_or d 5 0 / 2 ^ 7 % 2 == 1 then parse_need_size + 4 else parse_need_size in
    (read_int32 d + hdsz + 7) % 2 ^ 32 / 8 * 8

-- PacketSizeCheck; a pattern from 2 ^ 31 on is a negative size.
unfoldable pub packet_size_check : ℕ → Bool
packet_size_check sz = not (leb (2 ^ 31) sz || ltb sz packet_min_size || ltb packet_max_size sz)

-- What one call of `OnRead` gives: the return value of the C++ (`fail n` is -n), `pre_msg_`
-- afterwards, and the packets handed to `rcv_msg_cb_` (none at all where it is not called).
pub data Code : Type 0 where
  success : Code
  fail : ℕ → Code

pub record Outcome : Type 0 where
  pub code : Code
  pub pre_msg : List ℕ
  pub delivered : List (List ℕ)

-- The `while (true)` loop over what is left of the read; `queue` is `read_queue_`. A round takes
-- at least 8 bytes, so the fuel that `on_read` gives, one more than the bytes, is enough.
pub read_loop : ℕ → List ℕ → List (List ℕ) → Outcome
unfolding packet_size_check get_one_packet_size
read_loop zero d queue = record { code = success; pre_msg = d; delivered = queue }
read_loop (suc fuel) d queue =
    let need = get_one_packet_size d in
    let rest = read_loop fuel (drop need d) (queue ++ (take need d ∷ [])) in
    if ltb (length d) parse_need_size
    then record { code = success; pre_msg = d; delivered = queue }
    else if not (packet_size_check need)
    then record { code = fail 3; pre_msg = []; delivered = [] }
    else if ltb (length d) need
    then record { code = success; pre_msg = d; delivered = queue }
    else rest

-- The part under `left_size > 0` once `pre_msg_` holds at least 6 bytes.
pub finish_pending : List ℕ → List ℕ → Outcome
unfolding read_loop
finish_pending pre d =
    let need = get_one_packet_size pre in
    let append_size = need - length pre in
    if not (packet_size_check need)
    then record { code = fail 2; pre_msg = pre; delivered = [] }
    else if ltb (length d) append_size
    then record { code = success; pre_msg = pre ++ d; delivered = [] }
    else read_loop (suc (length d)) (drop append_size d) ((pre ++ take append_size d) ∷ [])

-- OnRead behind the gateway check.
unfoldable pub on_data : List ℕ → List ℕ → Outcome
unfolding finish_pending
on_data pre d =
    let append_size = parse_need_size - length pre in
    if length pre == 0
    then read_loop (suc (length d)) d []
    else if ltb (length pre + length d) parse_need_size
    then record { code = success; pre_msg = pre ++ d; delivered = [] }
    else if ltb (length pre) parse_need_size
    then finish_pending (pre ++ take append_size d) (drop append_size d)
    else finish_pending pre d
