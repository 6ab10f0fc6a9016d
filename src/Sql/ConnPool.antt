-- ===== src/Sql/ConnPool.antt =====
-- src/sql/connPool.cpp: the active and the sleeping connections of a pool and the round of the
-- check thread, with ReOpenDB and ReConnect of src/sql/sqlHelper.cpp. What the MySQL client
-- answers is a parameter: `server n` says whether the n-th attempt to reach the server succeeds.
pub mod Sizes
pub mod Kept
pub mod Keeps
mod Tests
use dolphin_core.Base.{ℕ, zero, suc, ◌+◌, ◌-◌, ◌*◌, ◌/◌, ◌%◌, min, Bool, true, false, ◌&&◌, not}
use dolphin_core.Base.{List, [], ◌∷◌, ◌++◌, ltb, leb, ◌==◌, if◌then◌else◌, length}

-- A CSqlClientHandle, as far as the pool looks at it; `id` stands for its address.
pub record Conn : Type 0 where
  pub id : ℕ
  pub connected : Bool
  pub active : Bool

-- `tries` counts the attempts to reach the server.
pub record Pool : Type 0 where
  pub conn_list : List Conn
  pub bak_list : List Conn
  pub last_reconnect_time : ℕ
  pub sql_count : ℕ
  pub max_handle : ℕ
  pub tries : ℕ

-- PERSECOND_THREAD_SQL_NUM * CHECKTHREAD_SPACE_TIME, and DAEMON_RECONNECT_TIME
abbrev pub sql_per_space : ℕ
sql_per_space = 200 * 5

abbrev pub daemon_reconnect_time : ℕ
daemon_reconnect_time = 30

-- ReOpenDB
unfoldable pub re_open_db : Bool → Conn → Conn
re_open_db ok c = record c { connected = ok }

-- ReConnect: the server is only asked if the connection stood.
unfoldable pub re_connect : Bool → Conn → Conn
re_connect ok c =
    if c.connected
    then record c { connected = ok; active = c.active && ok }
    else record c { active = false }

-- One round of the loop of AddConnectionFromBak at the sleeping connections `bak`; one that cannot
-- be opened stays first.
unfoldable pub add_round : (ℕ → Bool) → Pool → List Conn → Pool
unfolding re_open_db
add_round server p [] = p
add_round server p (c ∷ cs) =
    let ok = server p.tries in
    if c.connected
    then record p { conn_list = p.conn_list ++ (record c { active = true } ∷ []); bak_list = cs }
    else if ok
    then record p {
      conn_list = p.conn_list ++ (record (re_open_db ok c) { active = true } ∷ []);
      bak_list = cs;
      tries = suc p.tries;
    }
    else record p { bak_list = re_open_db ok c ∷ cs; tries = suc p.tries }

-- AddConnectionFromBak: the loop ends early when no connection sleeps, and a round changes nothing
-- then.
unfoldable pub add_connection_from_bak : (ℕ → Bool) → ℕ → Pool → Pool
unfolding add_round
add_connection_from_bak server zero p = p
add_connection_from_bak server (suc count) p =
    add_connection_from_bak server count (add_round server p p.bak_list)

-- DelConnectionFromActive, in the same way.
unfoldable pub del_round : Pool → List Conn → Pool
del_round p [] = p
del_round p (c ∷ cs) = record p {
  conn_list = cs;
  bak_list = p.bak_list ++ (record c { active = false } ∷ []);
}

unfoldable pub del_connection_from_active : ℕ → Pool → Pool
unfolding del_round
del_connection_from_active zero p = p
del_connection_from_active (suc count) p =
    del_connection_from_active count (del_round p p.conn_list)

-- The loop over the sleeping connections: a broken one is opened again, another one is checked.
unfoldable pub reconnect_bak : (ℕ → Bool) → ℕ → List Conn → List Conn
unfolding re_open_db re_connect
reconnect_bak server tries [] = []
reconnect_bak server tries (c ∷ cs) =
    (if c.connected then re_connect (server tries) c else re_open_db (server tries) c)
    ∷ reconnect_bak server (suc tries) cs

-- The loop over the active ones: those that are kept, and those that go to sleep.
unfoldable pub reconnect_active : (ℕ → Bool) → ℕ → List Conn → List Conn × List Conn
unfolding re_connect
reconnect_active server tries [] = ([], [])
reconnect_active server tries (c ∷ cs) =
    let c' = re_connect (server tries) c in
    let (kept, lost) = reconnect_active server (suc tries) cs in
    if c'.connected then (c' ∷ kept, lost) else (kept, c' ∷ lost)

-- The check of all connections, at the time `now`.
unfoldable pub reconnect : (ℕ → Bool) → ℕ → Pool → Pool
unfolding reconnect_bak reconnect_active
reconnect server now p =
    let (kept, lost) = reconnect_active server (p.tries + length p.bak_list) p.conn_list in
    record p {
      conn_list = kept;
      bak_list = reconnect_bak server p.tries p.bak_list ++ lost;
      last_reconnect_time = now;
      tries = p.tries + length p.bak_list + length p.conn_list;
    }

-- The connections that the statements of the last round ask for.
unfoldable pub thread_count : ℕ → ℕ
thread_count n = if n % sql_per_space == 0 then n / sql_per_space else suc (n / sql_per_space)

-- The scheduling of the threads.
unfoldable pub schedule : (ℕ → Bool) → Pool → Pool
unfolding thread_count add_connection_from_bak del_connection_from_active
schedule server p =
    let need = thread_count p.sql_count in
    let size = length p.conn_list in
    let half = p.max_handle / 2 in
    record (if ltb size need
      then add_connection_from_bak server (need - size) p
      else if ltb need size && leb 2 p.max_handle && ltb half size
      then del_connection_from_active (min (size - need) (size - half)) p
      else p) { sql_count = 0 }

-- One round of SqlConnectCheckThread at the time `now`.
unfoldable pub check_round : (ℕ → Bool) → ℕ → Pool → Pool
unfolding reconnect schedule
check_round server now p =
    schedule server (
      if ltb (p.last_reconnect_time + daemon_reconnect_time) now then reconnect server now p else p)
