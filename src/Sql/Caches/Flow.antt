-- ===== src/Sql/Caches/Flow.antt =====
-- The caches as one queue, and what each operation does to it.
use dolphin_core.Base.{
  ℕ, ◌-◌, ◌≡◌, refl, ap, ap₂, subst, ◌∙◌, sym, Bool, true, false, not, ◌&&◌, List, [], ◌∷◌, ◌++◌,
  Option, none, some,
}
use dolphin_core.Base.{
  ltb, if◌then◌else◌, if_elim, length, take, drop, append_assoc, append-nil, take-append-drop, min,
}
use dolphin_core.Base.Assoc.{elem, keys}
use dolphin_core.Mem.LoopList.{pop_front, push_back, is_full}
use dolphin_core.Mem.LoopList.Queue.{Holds, offer, push_back_refines, pop_front_refines}
use dolphin_core.Mem.LoopList.Merge.{merge_refines}
use dolphin_core.Sql.Caches.{
  SqlOperation, Caches, Answer, received, cache_copy, fetch_sql, process_sql, process_popped,
  process_loop, with_op, stored_result, add_sql_result,
}

-- The queues that the three lists hold make up one: what is at the connection first.
abbrev pub Flow : Caches → List SqlOperation → Type 0
Flow c q =
    (ql : List SqlOperation) × (qi : List SqlOperation) × (qr : List SqlOperation) × Holds c.sqllist
      ql
    × Holds c.issue qi
    × Holds c.receive qr
    × (q ≡ ql ++ (qi ++ qr))

-- Moving the front of a queue to the end of the one before it.
move : (n : ℕ) (xs ys : List SqlOperation) → xs ++ ys ≡ (xs ++ take n ys) ++ drop n ys
move n xs ys =
    ap (λ u. xs ++ u) (sym (take-append-drop n ys)) ∙ sym (append_assoc xs (take n ys) (drop n ys))

pub cache_copy-Flow : (c : Caches) (q : List SqlOperation) → Flow c q → Flow (cache_copy c) q
unfolding cache_copy
cache_copy-Flow c q (ql, qi, qr, hl, hi, hr, e) =
    let n = min (c.issue.capacity - length qi) (length qr) in
    let m = merge_refines qi qr hi hr in
    if_elim (λ (d : Caches). Flow d q) (ltb 0 c.receive.size && not (is_full c.issue)) _ _
      (λ _. (ql, qi ++ take n qr, drop n qr, hl, m.1, m.2, e ∙ ap (λ u. ql ++ u) (move n qi qr)))
      (λ _. (ql, qi, qr, hl, hi, hr, e))

pub fetch_sql-Flow : (c : Caches) (q : List SqlOperation) → Flow c q → Flow (fetch_sql c) q
unfolding fetch_sql
fetch_sql-Flow c q (ql, qi, qr, hl, hi, hr, e) =
    let n = min (c.sqllist.capacity - length ql) (length qi) in
    let m = merge_refines ql qi hl hi in
    if_elim (λ (d : Caches). Flow d q) (not (is_full c.sqllist)) _ _
      (λ _.
        if_elim (λ (d : Caches). Flow d q) (ltb 0 c.issue.size) _ _
          (λ _. (
            ql ++ take n qi,
            drop n qi,
            qr,
            m.1,
            m.2,
            hr,
            e
                ∙ sym (append_assoc ql qi qr)
                ∙ ap (λ u. u ++ qr) (move n ql qi)
                ∙ append_assoc (ql ++ take n qi) (drop n qi) qr,
          ))
          (λ _. (ql, qi, qr, hl, hi, hr, e)))
      (λ _. (ql, qi, qr, hl, hi, hr, e))

-- The operation that a cache takes, if it has room.
abbrev pub taken_by : Caches → SqlOperation → List SqlOperation
taken_by c op = if (push_back c.receive op).0 then op ∷ [] else []

pub received-Flow :
    (op : SqlOperation) (c : Caches) (q : List SqlOperation)
    → Flow c q
    → Flow (received op c) (q ++ taken_by c op)
received-Flow op c q (ql, qi, qr, hl, hi, hr, e) =
    let k = push_back_refines op hr in
    (
      ql,
      qi,
      (offer c.receive.capacity qr op).1,
      hl,
      hi,
      k.1,
      ap₂ (λ u b. u ++ (if b then op ∷ [] else [])) e k.0
          ∙ if_elim
              (λ (o : Bool × List SqlOperation).
                (ql ++ (qi ++ qr)) ++ (if o.0 then op ∷ [] else []) ≡ ql ++ (qi ++ o.1))
              (ltb (length qr) c.receive.capacity) (true, qr ++ (op ∷ [])) (false, qr)
              (λ _.
                append_assoc ql (qi ++ qr) (op ∷ [])
                ∙ ap (λ u. ql ++ u) (append_assoc qi qr (op ∷ [])))
              (λ _. append-nil (ql ++ (qi ++ qr))),
    )

-- Executing an operation touches no list.
record Keeps (c c' : Caches) : Type 0 where
  list : c'.sqllist ≡ c.sqllist
  issue : c'.issue ≡ c.issue
  receive : c'.receive ≡ c.receive

kept : (c : Caches) → Keeps c c
kept c = record { list = refl; issue = refl; receive = refl }

add_sql_result-Keeps :
    (hash effect : ℕ) (col result : Option ℕ) (c : Caches)
    → Keeps c (add_sql_result hash effect col result c).1
unfolding add_sql_result
add_sql_result-Keeps hash effect col result c =
    if_elim (λ (r : Bool × Caches). Keeps c r.1) (elem hash (keys c.result_map)) _ _ (λ _. kept c)
      (λ _. record { list = refl; issue = refl; receive = refl })

process_sql-Keeps :
    (server : List ℕ → Answer) (op : SqlOperation) (c : Caches) → Keeps c (process_sql server op c)
unfolding process_sql
process_sql-Keeps server op c =
    if_elim (Keeps c) (not (server op.sql_str).ok) _ _ (λ _. kept c)
      (λ _.
        if_elim (Keeps c) (ltb 0 op.hash_code) _ _ (λ _. stored (server op.sql_str).result op.col)
          (λ _. kept c))
  where
    stored : (r col : Option ℕ) → Keeps c (stored_result op (server op.sql_str) r col c)
    stored none col = kept c
    stored (some r) none = kept c
    stored (some r) (some col) =
        if_elim (Keeps c) (ltb 0 (server op.sql_str).num_fields) _ _
          (λ _.
            add_sql_result-Keeps op.hash_code (server op.sql_str).affected (some col) (some r) c)
          (λ _. add_sql_result-Keeps op.hash_code (server op.sql_str).affected none none c)

-- What the loop gives that executes the operations `ql` and leaves the list empty.
abbrev pub Drained : List SqlOperation → Caches → List SqlOperation × Caches → Type 0
Drained ql c r =
    (r.0 ≡ ql) × Holds r.1.sqllist [] × (r.1.issue ≡ c.issue) × (r.1.receive ≡ c.receive)

pub process_loop-drains :
    (server : List ℕ → Answer) (ql : List SqlOperation) (c : Caches)
    → Holds c.sqllist ql
    → Drained ql c (process_loop (length ql) server c)
unfolding process_loop
process_loop-drains server [] c h = (refl, h, refl, refl)
process_loop-drains server (op ∷ ql) c h =
    let k = pop_front_refines (op ∷ ql) h in
    let same = process_sql-Keeps server op popped in
    let rest = process_loop-drains server ql (process_sql server op popped) (rw same.list k.1) in
    subst (λ o. Drained (op ∷ ql) c (round o)) (sym k.0)
      (ap (λ u. op ∷ u) rest.0, rest.1, rest.2 ∙ same.issue, rest.3 ∙ same.receive)
  where
    popped : Caches
    popped = record c { sqllist = (pop_front c.sqllist).1 }

    round : Option SqlOperation → List SqlOperation × Caches
    round o =
        let r : List SqlOperation × Caches =
          process_loop (length ql) server (process_popped server o popped) in
        (with_op o r.0, r.1)
