-- ===== src/Sql/ConnPool/Sizes.antt =====
-- How many connections are active after the check thread has scheduled them.
use dolphin_core.Base.{ℕ, zero, suc, ◌+◌, ◌-◌, ◌/◌, ◌≡◌, refl, ap, arith, min, Bool, true}
use dolphin_core.Base.{List, [], ◌∷◌, ltb, leb, if◌then◌else◌, length, length-append}
use Prim.Native.Nat.{max}
use dolphin_core.Sql.ConnPool.{
  Conn, Pool, re_open_db, add_round, del_round, add_connection_from_bak, del_connection_from_active,
  thread_count, schedule,
}

-- The server answers, or every sleeping connection stands.
add_round-length :
    (server : ℕ → Bool) (p : Pool) (bs : List Conn)
    → server p.tries ≡ true
    → p.bak_list ≡ bs
    → (length (add_round server p bs).conn_list ≡ length p.conn_list + min 1 (length bs))
      × (length (add_round server p bs).bak_list ≡ length bs - 1)
unfolding add_round re_open_db
add_round-length server p [] up e = (omega arith, ap length e)
add_round-length server p (c ∷ bs) up e = ground (
  arith,
  length-append p.conn_list (record c { active = true } ∷ []),
  length-append p.conn_list (record c { connected = true; active = true } ∷ []),
)

add_connection_from_bak-length :
    (server : ℕ → Bool) (count : ℕ) (p : Pool)
    → ((n : ℕ) → server n ≡ true)
    → length (add_connection_from_bak server count p).conn_list
      ≡ length p.conn_list + min count (length p.bak_list)
unfolding add_connection_from_bak
add_connection_from_bak-length server zero p up = omega arith
add_connection_from_bak-length server (suc count) p up = omega (
  arith,
  add_connection_from_bak-length server count (add_round server p p.bak_list) up,
  add_round-length server p p.bak_list (up p.tries) refl,
)

del_round-length :
    (p : Pool) (cs : List Conn)
    → p.conn_list ≡ cs
    → length (del_round p cs).conn_list ≡ length cs - 1
unfolding del_round
del_round-length p [] e = ap length e
del_round-length p (c ∷ cs) e = omega arith

del_connection_from_active-length :
    (count : ℕ) (p : Pool)
    → length (del_connection_from_active count p).conn_list ≡ length p.conn_list - count
unfolding del_connection_from_active
del_connection_from_active-length zero p = omega arith
del_connection_from_active-length (suc count) p = omega (
  arith,
  del_connection_from_active-length count (del_round p p.conn_list),
  del_round-length p p.conn_list refl,
)

-- While the server answers, scheduling leaves as many connections active as the statements ask
-- for, as far as there are any, and keeps more than that only up to half of the pool, or if the
-- pool has fewer than two.
pub schedule-length :
    (server : ℕ → Bool) (p : Pool)
    → ((n : ℕ) → server n ≡ true)
    → let need = thread_count p.sql_count in
      let size = length p.conn_list in
      length (schedule server p).conn_list ≡ (
        if ltb size need
        then min need (size + length p.bak_list)
        else if leb 2 p.max_handle
        then min size (max need (p.max_handle / 2))
        else size)
unfolding schedule
schedule-length server p up = ground (
  arith,
  add_connection_from_bak-length server (thread_count p.sql_count - length p.conn_list) p up,
  del_connection_from_active-length
      (min (length p.conn_list - thread_count p.sql_count) (length p.conn_list - p.max_handle / 2))
      p,
)
