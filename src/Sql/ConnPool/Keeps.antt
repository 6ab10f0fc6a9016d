-- ===== src/Sql/ConnPool/Keeps.antt =====
-- The check of the connections and a whole round of the check thread, in the same terms.
use dolphin_core.Base.{ℕ, suc, ◌+◌, ◌-◌, ◌/◌, ◌≡◌, refl, ap₂, arith, min, Bool, true, false, ◌&&◌}
use dolphin_core.Base.{List, [], ◌∷◌, ◌++◌, ltb, leb, if◌then◌else◌, length, append_assoc, if_elim}
use mathlib.Core.List.{Perm, perm_middle}
use mathlib.Core.List.Perm
use mathlib.Core.List.Permᴰ
use dolphin_core.Sql.ConnPool.{Conn, Pool, re_open_db, re_connect}
use dolphin_core.Sql.ConnPool.{
  reconnect_bak, reconnect_active, reconnect, thread_count, schedule, check_round,
}
use dolphin_core.Sql.ConnPool.Kept.{
  ids, all_ids, AllActive, IsSplit, Kept, Kept-refl, Kept-trans, ids-append, AllActive-append,
  add-Kept, del-Kept,
}

-- Checking a connection: an active one is active afterwards exactly if it is connected, and a
-- sleeping one sleeps on.
re_connect_active :
    (ok : Bool) (c : Conn)
    → c.active ≡ true
    → (re_connect ok c).active ≡ (re_connect ok c).connected
unfolding re_connect
re_connect_active ok c h = ground arith

re_connect_asleep : (ok : Bool) (c : Conn) → c.active ≡ false → (re_connect ok c).active ≡ false
unfolding re_connect
re_connect_asleep ok c h = ground arith

re_connect_id : (ok : Bool) (c : Conn) → (re_connect ok c).id ≡ c.id
unfolding re_connect
re_connect_id ok c = ground arith

reconnect_bak-ids :
    (server : ℕ → Bool) (t : ℕ) (cs : List Conn) → ids (reconnect_bak server t cs) ≡ ids cs
unfolding reconnect_bak re_open_db
reconnect_bak-ids server t [] = refl
reconnect_bak-ids server t (c ∷ cs) =
    ap₂ ◌∷◌
      (if_elim (λ (d : Conn). d.id ≡ c.id) c.connected _ _ (λ _. re_connect_id (server t) c)
        (λ _. refl))
      (reconnect_bak-ids server (suc t) cs)

reconnect_bak-AllActive :
    (server : ℕ → Bool) (t : ℕ) (cs : List Conn)
    → AllActive false cs
    → AllActive false (reconnect_bak server t cs)
unfolding reconnect_bak re_open_db
reconnect_bak-AllActive server t [] h = tt
reconnect_bak-AllActive server t (c ∷ cs) (e, h) = (
  if_elim (λ (d : Conn). d.active ≡ false) c.connected _ _ (λ _. re_connect_asleep (server t) c e)
      (λ _. e),
  reconnect_bak-AllActive server (suc t) cs h,
)

-- A connection put before the one or the other of two lists.
abbrev put_either : Bool → Conn → List Conn × List Conn → List Conn × List Conn
put_either b c r = if b then (c ∷ r.0, r.1) else (r.0, c ∷ r.1)

put_either-ids :
    (b : Bool) (c : Conn) (i : ℕ) (l : List ℕ) (r : List Conn × List Conn)
    → c.id ≡ i
    → Perm (ids r.0 ++ ids r.1) l
    → let q = put_either b c r in Perm (ids q.0 ++ ids q.1) (i ∷ l)
put_either-ids true c i l r e h = rw e (Perm.cons i h)
put_either-ids false c i l r e h =
    rw e (Perm.trans (perm_middle (ids r.0) (ids r.1)) (Perm.cons i h))

put_either-AllActive :
    (b : Bool) (c : Conn) (r : List Conn × List Conn)
    → c.active ≡ b
    → AllActive true r.0 × AllActive false r.1
    → let q = put_either b c r in AllActive true q.0 × AllActive false q.1
put_either-AllActive true c r e h = ((e, h.0), h.1)
put_either-AllActive false c r e h = (h.0, (e, h.1))

reconnect_active-ids :
    (server : ℕ → Bool) (t : ℕ) (cs : List Conn)
    → Perm (ids (reconnect_active server t cs).0 ++ ids (reconnect_active server t cs).1) (ids cs)
unfolding reconnect_active
reconnect_active-ids server t [] = Perm.refl []
reconnect_active-ids server t (c ∷ cs) =
    put_either-ids (re_connect (server t) c).connected (re_connect (server t) c) c.id (ids cs)
      (reconnect_active server (suc t) cs) (re_connect_id (server t) c)
      (reconnect_active-ids server (suc t) cs)

reconnect_active-AllActive :
    (server : ℕ → Bool) (t : ℕ) (cs : List Conn)
    → AllActive true cs
    → AllActive true (reconnect_active server t cs).0
      × AllActive false (reconnect_active server t cs).1
unfolding reconnect_active
reconnect_active-AllActive server t [] h = (tt, tt)
reconnect_active-AllActive server t (c ∷ cs) (e, h) =
    put_either-AllActive (re_connect (server t) c).connected (re_connect (server t) c)
      (reconnect_active server (suc t) cs) (re_connect_active (server t) c e)
      (reconnect_active-AllActive server (suc t) cs h)

reconnect-Kept : (server : ℕ → Bool) (now : ℕ) (p : Pool) → Kept p (reconnect server now p)
unfolding reconnect
reconnect-Kept server now p = record {
  same =
      rw (ids-append baks lost, reconnect_bak-ids server p.tries p.bak_list)
        (Perm.trans (Perm.append_left (ids kept) swapped) (
          rw (← append_assoc (ids kept) (ids lost) (ids p.bak_list))
            (Perm.append_right (ids p.bak_list) (reconnect_active-ids server first p.conn_list))));
  split = λ s. record {
    awake = (reconnect_active-AllActive server first p.conn_list s.awake).0;
    asleep =
        AllActive-append false baks lost
          (reconnect_bak-AllActive server p.tries p.bak_list s.asleep)
          (reconnect_active-AllActive server first p.conn_list s.awake).1;
  };
}
  where
    first : ℕ
    first = p.tries + length p.bak_list

    kept : List Conn
    kept = (reconnect_active server first p.conn_list).0

    lost : List Conn
    lost = (reconnect_active server first p.conn_list).1

    baks : List Conn
    baks = reconnect_bak server p.tries p.bak_list

    swapped : Perm (ids p.bak_list ++ ids lost) (ids lost ++ ids p.bak_list)
    swapped = ∣ Permᴰ.append_comm (ids p.bak_list) (ids lost) ∣₁

-- The statement counter is neither.
Kept-reset : {p q : Pool} → Kept p q → Kept p (record q { sql_count = 0 })
Kept-reset h = record {
  same = h.same;
  split = λ s. record { awake = (h.split s).awake; asleep = (h.split s).asleep };
}

schedule-Kept : (server : ℕ → Bool) (p : Pool) → Kept p (schedule server p)
unfolding schedule
schedule-Kept server p = Kept-reset (
    if_elim (Kept p) (ltb size need) _ _ (λ _. add-Kept server (need - size) p)
      (λ _.
        if_elim (Kept p) (ltb need size && leb 2 p.max_handle && ltb (p.max_handle / 2) size) _ _
          (λ _. del-Kept (min (size - need) (size - p.max_handle / 2)) p) (λ _. Kept-refl p)))
  where
    need : ℕ
    need = thread_count p.sql_count

    size : ℕ
    size = length p.conn_list

check_round-Kept : (server : ℕ → Bool) (now : ℕ) (p : Pool) → Kept p (check_round server now p)
unfolding check_round
check_round-Kept server now p = Kept-trans checked (schedule-Kept server _)
  where
    checked : Kept p (if ltb (p.last_reconnect_time + 30) now then reconnect server now p else p)
    checked =
        if_elim (Kept p) (ltb (p.last_reconnect_time + 30) now) _ _
          (λ _. reconnect-Kept server now p) (λ _. Kept-refl p)

-- Whatever the server answers, a round of the check thread neither loses nor doubles a connection:
-- afterwards the active and the sleeping list together hold the same connections in some order.
pub check_round-ids :
    (server : ℕ → Bool) (now : ℕ) (p : Pool) → Perm (all_ids (check_round server now p)) (all_ids p)
check_round-ids server now p = (check_round-Kept server now p).same

-- If before a round of the check thread all connections of the active list are marked active and
-- all of the sleeping list are not, then so they are afterwards, whatever the server answers.
pub check_round-IsSplit :
    (server : ℕ → Bool) (now : ℕ) (p : Pool) → IsSplit p → IsSplit (check_round server now p)
check_round-IsSplit server now p = (check_round-Kept server now p).split
