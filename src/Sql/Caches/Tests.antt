-- ===== src/Sql/Caches/Tests.antt =====
-- Two statements through caches of one element.
use dolphin_core.Base.{
  ℕ, zero, suc, ◌≡◌, refl, ap, length, arith, true, List, [], ◌∷◌, ◌++◌, none, some,
}
use dolphin_core.Mem.LoopList.{create}
use dolphin_core.Mem.LoopList.Queue.{Holds, create-Holds}
use dolphin_core.Sql.Caches.{SqlOperation, Caches, Answer}
use dolphin_core.Sql.Caches.Flow.{Flow}
use dolphin_core.Sql.Caches.Order.{Step, executes, copies, fetches, processes, run, run_order}

abbrev cleared : SqlOperation
cleared = record { hash_code = 0; col = none; sql_str = [] }

abbrev cells : ℕ → List SqlOperation
cells zero = []
cells (suc n) = cleared ∷ cells n

length-cells : (n : ℕ) → length (cells n) ≡ n
length-cells zero = refl
length-cells (suc n) = ap suc (length-cells n)

cells-Holds : Holds (create cells 1) []
cells-Holds = create-Holds cells 1 (omega arith) length-cells

abbrev caches : Caches
caches = record {
  receive = create cells 1;
  issue = create cells 1;
  sqllist = create cells 1;
  result_map = [];
  max_cache = 0;
  sql_count = 0;
}

abbrev agrees : List ℕ → Answer
agrees sql = record { ok = true; result = some 1; num_fields = 1; affected = 1 }

abbrev steps : List Step
steps =
    executes (some (83 ∷ [])) 3
    ∷ copies
    ∷ executes (some (84 ∷ [])) 4
    ∷ fetches
    ∷ processes
    ∷ copies
    ∷ []

run_order_example :
    let t = run agrees steps caches in
    (q' : List SqlOperation) × Flow t.caches q' × ([] ++ t.taken ≡ t.given ++ q')
run_order_example =
    run_order agrees steps caches [] ([], [], [], cells-Holds, cells-Holds, cells-Holds, refl)
