-- ===== src/Sql/Caches/Order.antt =====
-- The order in which statements come to the server, over one connection.
use dolphin_core.Base.{ℕ, ◌≡◌, refl, ap, subst, ◌∙◌, sym, List, [], ◌∷◌, ◌++◌, Option, none, some}
use dolphin_core.Base.{append_assoc, append-nil}
use dolphin_core.Sql.Caches.{
  SqlOperation, Caches, Answer, new_operation, exec_sql_asy, exec_select_sql_asy, cache_copy,
  fetch_sql, process_loop,
}
use dolphin_core.Sql.Caches.Flow.{
  Flow, cache_copy-Flow, fetch_sql-Flow, received-Flow, process_loop-drains, Drained, taken_by,
}

-- What the threads do, in the order in which they come to do it: statements are given in, and a
-- round of the thread that copies, the fetching and the executing of the connection's thread.
pub data Step : Type 0 where
  executes : Option (List ℕ) → ℕ → Step
  selects : Option (List ℕ) → Option ℕ → ℕ → Step
  copies fetches processes : Step

-- The operations that the server was given, those that the pool took, and the caches.
pub record Trace : Type 0 where
  pub given : List SqlOperation
  pub taken : List SqlOperation
  pub caches : Caches

abbrev pub behind : List SqlOperation → List SqlOperation → Trace → Trace
behind given taken t = record {
  given = given ++ t.given;
  taken = taken ++ t.taken;
  caches = t.caches;
}

abbrev pub taken_of : Caches → Step → List SqlOperation
taken_of c (executes (some sql) hash) = taken_by c (new_operation sql none hash)
taken_of c (selects (some sql) (some col) hash) = taken_by c (new_operation sql (some col) hash)
taken_of c _ = []

abbrev pub step : (List ℕ → Answer) → Step → Caches → List SqlOperation × Caches
step server (executes sql hash) c = ([], (exec_sql_asy sql hash c).1)
step server (selects sql col hash) c = ([], (exec_select_sql_asy sql col hash c).1)
step server copies c = ([], cache_copy c)
step server fetches c = ([], fetch_sql c)
step server processes c = process_loop c.sqllist.size server c

abbrev pub run : (List ℕ → Answer) → List Step → Caches → Trace
run server [] c = record { given = []; taken = []; caches = c }
run server (s ∷ ss) c =
    let r : List SqlOperation × Caches = step server s c in
    behind r.0 (taken_of c s) (run server ss r.1)

step-Flow :
    (server : List ℕ → Answer) (s : Step) (c : Caches) (q : List SqlOperation)
    → Flow c q
    → (q' : List SqlOperation) × Flow (step server s c).1 q'
      × (q ++ taken_of c s ≡ (step server s c).0 ++ q')
unfolding exec_sql_asy exec_select_sql_asy
step-Flow server (executes none hash) c q f = (q, f, append-nil q)
step-Flow server (executes (some sql) hash) c q f =
    (_, received-Flow (new_operation sql none hash) c q f, refl)
step-Flow server (selects none col hash) c q f = (q, f, append-nil q)
step-Flow server (selects (some sql) none hash) c q f = (q, f, append-nil q)
step-Flow server (selects (some sql) (some col) hash) c q f =
    (_, received-Flow (new_operation sql (some col) hash) c q f, refl)
step-Flow server copies c q f = (q, cache_copy-Flow c q f, append-nil q)
step-Flow server fetches c q f = (q, fetch_sql-Flow c q f, append-nil q)
step-Flow server processes c q (ql, qi, qr, hl, hi, hr, e) =
    let d : Drained ql c (process_loop c.sqllist.size server c) =
      subst (λ n. Drained ql c (process_loop n server c)) (sym hl.count)
        (process_loop-drains server ql c hl) in
    (
      qi ++ qr,
      ([], qi, qr, d.1, rw d.2 hi, rw d.3 hr, refl),
      append-nil q ∙ e ∙ ap (λ u. u ++ (qi ++ qr)) (sym d.0),
    )

-- However giving in statements, copying, fetching and executing alternate, over one connection:
-- what the server is given, followed by what the lists hold at the end, is what they held at the
-- beginning, followed by what the pool took, in this order; nothing is lost or doubled.
pub run_order :
    (server : List ℕ → Answer) (ss : List Step) (c : Caches) (q : List SqlOperation)
    → Flow c q
    → let t = run server ss c in
      (q' : List SqlOperation) × Flow t.caches q' × (q ++ t.taken ≡ t.given ++ q')
run_order server [] c q f = (q, f, append-nil q)
run_order server (s ∷ ss) c q f =
    let later : List SqlOperation = (run server ss (step server s c).1).taken in
    let (q1, f1, e1) = step-Flow server s c q f in
    let (q2, f2, e2) = run_order server ss (step server s c).1 q1 f1 in
    (
      q2,
      f2,
      sym (append_assoc q (taken_of c s) later)
          ∙ ap (λ u. u ++ later) e1
          ∙ append_assoc (step server s c).0 q1 later
          ∙ ap (λ u. (step server s c).0 ++ u) e2
          ∙ sym (append_assoc (step server s c).0 _ q2),
    )
