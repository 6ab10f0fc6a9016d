-- ===== src/Sql/ConnPool/Kept.antt =====
-- Waking connections and putting them to sleep: which connections the lists hold afterwards, and
-- which are marked active.
use dolphin_core.Base.{ℕ, zero, suc, ◌≡◌, refl, ap, Bool, true, false}
use dolphin_core.Base.{List, [], ◌∷◌, ◌++◌, append_assoc, append-nil, if_elim}
use mathlib.Core.List.{Perm, perm_middle}
use mathlib.Core.List.Perm
use dolphin_core.Sql.ConnPool.{
  Conn, Pool, re_open_db, add_round, del_round, add_connection_from_bak, del_connection_from_active,
}

abbrev pub ids : List Conn → List ℕ
ids [] = []
ids (c ∷ cs) = c.id ∷ ids cs

abbrev pub all_ids : Pool → List ℕ
all_ids p = ids p.conn_list ++ ids p.bak_list

abbrev pub AllActive : Bool → List Conn → Type 0
AllActive b [] = Unit
AllActive b (c ∷ cs) = (c.active ≡ b) × AllActive b cs

-- The thread of a connection runs statements while its `m_Active` is set.
pub record IsSplit (p : Pool) : Type 0 where
  pub awake : AllActive true p.conn_list
  pub asleep : AllActive false p.bak_list

pub ids-append : (cs ds : List Conn) → ids (cs ++ ds) ≡ ids cs ++ ids ds
ids-append [] ds = refl
ids-append (c ∷ cs) ds = ap (◌∷◌ c.id) (ids-append cs ds)

pub AllActive-append :
    (b : Bool) (cs ds : List Conn) → AllActive b cs → AllActive b ds → AllActive b (cs ++ ds)
AllActive-append b [] ds h k = k
AllActive-append b (c ∷ cs) ds (e, h) k = (e, AllActive-append b cs ds h k)

-- What both lists are after a round of either loop.
pub record Kept (p q : Pool) : Type 0 where
  pub same : Perm (all_ids q) (all_ids p)
  pub split : IsSplit p → IsSplit q

pub Kept-refl : (p : Pool) → Kept p p
Kept-refl p = record { same = Perm.refl (all_ids p); split = λ s. s }

pub Kept-trans : {p q r : Pool} → Kept p q → Kept q r → Kept p r
Kept-trans h k = record { same = Perm.trans k.same h.same; split = λ s. k.split (h.split s) }

-- The first sleeping connection goes behind the active ones.
wake :
    (p : Pool) (c d : Conn) (cs : List Conn) (tries : ℕ)
    → p.bak_list ≡ c ∷ cs
    → d.id ≡ c.id
    → d.active ≡ true
    → Kept p (record p { conn_list = p.conn_list ++ (d ∷ []); bak_list = cs; tries = tries })
wake p c d cs tries e same active = record {
  same =
      rw
        (
          ids-append p.conn_list (d ∷ []),
          append_assoc (ids p.conn_list) (d.id ∷ []) (ids cs),
          e,
          same,
        )
        (Perm.refl (ids p.conn_list ++ ids (c ∷ cs)));
  split = λ s. record {
    awake = AllActive-append true p.conn_list (d ∷ []) s.awake (active, tt);
    asleep = (rw e at s.asleep).1;
  };
}

last_first : (i : ℕ) (l : List ℕ) → Perm (l ++ (i ∷ [])) (i ∷ l)
last_first i l = Perm.trans (perm_middle l []) (Perm.cons i (rw (append-nil l) (Perm.refl l)))

add_round-Kept :
    (server : ℕ → Bool) (p : Pool) (bs : List Conn)
    → p.bak_list ≡ bs
    → Kept p (add_round server p bs)
unfolding add_round re_open_db
add_round-Kept server p [] e = Kept-refl p
add_round-Kept server p (c ∷ cs) e =
    if_elim (Kept p) c.connected _ _
      (λ _. wake p c (record c { active = true }) cs p.tries e refl refl)
      (λ _.
        if_elim (Kept p) (server p.tries) _ _
          (λ _.
            wake p c (record c { connected = server p.tries; active = true }) cs (suc p.tries) e
              refl refl)
          (λ _. record {
            same = rw e (Perm.refl (ids p.conn_list ++ ids (c ∷ cs)));
            split = λ s. record { awake = s.awake; asleep = rw e at s.asleep };
          }))

del_round-Kept : (p : Pool) (cs : List Conn) → p.conn_list ≡ cs → Kept p (del_round p cs)
unfolding del_round
del_round-Kept p [] e = Kept-refl p
del_round-Kept p (c ∷ cs) e = record {
  same =
      rw
        (
          ids-append p.bak_list (record c { active = false } ∷ []),
          ← append_assoc (ids cs) (ids p.bak_list) (c.id ∷ []),
          e,
        )
        (last_first c.id (ids cs ++ ids p.bak_list));
  split = λ s. record {
    awake = (rw e at s.awake).1;
    asleep =
        AllActive-append false p.bak_list (record c { active = false } ∷ []) s.asleep (refl, tt);
  };
}

pub add-Kept :
    (server : ℕ → Bool) (count : ℕ) (p : Pool) → Kept p (add_connection_from_bak server count p)
unfolding add_connection_from_bak
add-Kept server zero p = Kept-refl p
add-Kept server (suc count) p =
    Kept-trans (add_round-Kept server p p.bak_list refl)
      (add-Kept server count (add_round server p p.bak_list))

pub del-Kept : (count : ℕ) (p : Pool) → Kept p (del_connection_from_active count p)
unfolding del_connection_from_active
del-Kept zero p = Kept-refl p
del-Kept (suc count) p =
    Kept-trans (del_round-Kept p p.conn_list refl) (del-Kept count (del_round p p.conn_list))
