-- ===== src/Sql/Caches.antt =====
-- src/sql/connPool.cpp and the end of src/sql/sqlHelper.cpp: the way of a statement from the caller
-- through the two caches of the pool and the list of a connection to the server, and the results.
pub mod Flow
pub mod Order
mod Tests
use dolphin_core.Base.{
  ℕ, zero, suc, ◌+◌, ◌-◌, ◌*◌, ◌%◌, ◌^◌, Bool, true, false, not, ◌&&◌, List, [], ◌∷◌, ◌++◌, Option,
  none, some,
}
use dolphin_core.Base.{ltb, ◌==◌, if◌then◌else◌}
use dolphin_core.Base.Assoc.{elem, keys, lookup, erase}
use dolphin_core.Mem.LoopList.{LoopList, pop_front, push_back, is_full, merge}
use dolphin_core.Encrypt.Base64.{strcpy_q, replicate}

-- stSqlOperation, cleared when it is made; `col` points to the columns of a result.
pub record SqlOperation : Type 0 where
  pub hash_code : ℕ
  pub col : Option ℕ
  pub sql_str : List ℕ

-- stSqlResult; `my_result` is a result of the server.
pub record SqlResult : Type 0 where
  pub hash_code : ℕ
  pub col : Option ℕ
  pub my_result : Option ℕ
  pub effect_line : ℕ

abbrev pub sql_len : ℕ
sql_len = 1024 * 4

-- The caches of a pool, its results, and the list of its connection.
pub record Caches : Type 0 where
  pub receive : LoopList SqlOperation
  pub issue : LoopList SqlOperation
  pub sqllist : LoopList SqlOperation
  pub result_map : List (ℕ × SqlResult)
  pub max_cache : ℕ
  pub sql_count : ℕ

-- The operation of a statement: `strcpy_q` is told that the array is one byte shorter.
unfoldable pub new_operation : List ℕ → Option ℕ → ℕ → SqlOperation
unfolding strcpy_q
new_operation sql col hash = record {
  hash_code = hash;
  col = col;
  sql_str = strcpy_q (replicate (sql_len - 1) 0) sql ++ (0 ∷ []);
}

-- The end of execSqlAsy: whether the cache took the operation is not looked at.
abbrev pub received : SqlOperation → Caches → Caches
received op c = record c { receive = (push_back c.receive op).1; sql_count = c.sql_count + 1 }

-- execSqlAsy and execSelectSqlAsy; `none` is NULL. The hash code is an `int` in between.
unfoldable pub exec_sql_asy : Option (List ℕ) → ℕ → Caches → ℕ × Caches
unfolding new_operation
exec_sql_asy none hash c = (0, c)
exec_sql_asy (some sql) hash c = (hash, received (new_operation sql none hash) c)

unfoldable pub exec_select_sql_asy : Option (List ℕ) → Option ℕ → ℕ → Caches → ℕ × Caches
unfolding new_operation
exec_select_sql_asy none col hash c = (0, c)
exec_select_sql_asy (some sql) none hash c = (0, c)
exec_select_sql_asy (some sql) (some col) hash c =
    (hash, received (new_operation sql (some col) hash) c)

abbrev pub larger : ℕ → ℕ → ℕ
larger a b = if ltb a b then b else a

-- A round of SqlCacheCopyThread.
unfoldable pub cache_copy : Caches → Caches
cache_copy c =
    let (issue', receive') = (merge c.issue c.receive).1 in
    if ltb 0 c.receive.size && not (is_full c.issue)
    then record c {
      receive = receive';
      issue = issue';
      max_cache = larger (larger c.max_cache c.receive.size) issue'.size;
    }
    else c

-- The beginning of a round of SqlProcessThread, of a connection that is active.
unfoldable pub fetch_sql : Caches → Caches
fetch_sql c =
    let (list', issue') = (merge c.sqllist c.issue).1 in
    if not (is_full c.sqllist)
    then (if ltb 0 c.issue.size then record c { issue = issue'; sqllist = list' } else c)
    else c

-- AddSqlRestult
unfoldable pub add_sql_result : ℕ → ℕ → Option ℕ → Option ℕ → Caches → Bool × Caches
add_sql_result hash effect col result c =
    let r : SqlResult = record {
      hash_code = hash;
      col = col;
      my_result = result;
      effect_line = effect;
    } in
    if elem hash (keys c.result_map)
    then (false, c)
    else (true, record c { result_map = c.result_map ++ ((hash, r) ∷ []) })

-- GetEffectCount; the count of a result that is there may be erased with it.
abbrev pub effect_of : ℕ → Bool → Caches → Option SqlResult → ℕ × Caches
effect_of hash del c none = (0, c)
effect_of hash del c (some r) =
    (r.effect_line, if del then record c { result_map = erase hash c.result_map } else c)

unfoldable pub get_effect_count : ℕ → Bool → Caches → ℕ × Caches
get_effect_count hash del c = effect_of hash del c (lookup hash c.result_map)

-- What the server says to a statement: whether bExecuteSql succeeds, the stored result, if any, the
-- number of its columns and of the rows that are affected.
pub record Answer : Type 0 where
  pub ok : Bool
  pub result : Option ℕ
  pub num_fields : ℕ
  pub affected : ℕ

abbrev pub stored_result : SqlOperation → Answer → Option ℕ → Option ℕ → Caches → Caches
stored_result op a none col c = c
stored_result op a (some r) none c = c
stored_result op a (some r) (some col) c =
    if ltb 0 a.num_fields
    then (add_sql_result op.hash_code a.affected (some col) (some r) c).1
    else (add_sql_result op.hash_code a.affected none none c).1

-- One operation of the loop; the counters of the thread are left out.
unfoldable pub process_sql : (List ℕ → Answer) → SqlOperation → Caches → Caches
unfolding add_sql_result
process_sql server op c =
    let a = server op.sql_str in
    if not a.ok then c else if ltb 0 op.hash_code then stored_result op a a.result op.col c else c

abbrev pub process_popped : (List ℕ → Answer) → Option SqlOperation → Caches → Caches
process_popped server none c = c
process_popped server (some op) c = process_sql server op c

abbrev pub with_op : Option SqlOperation → List SqlOperation → List SqlOperation
with_op none ops = ops
with_op (some op) ops = op ∷ ops

-- The `do … while` over the list of the connection, with the operations that it executed; it ends
-- after as many rounds as the list has operations.
unfoldable pub process_loop : ℕ → (List ℕ → Answer) → Caches → List SqlOperation × Caches
unfolding process_sql
process_loop zero server c = ([], c)
process_loop (suc rounds) server c =
    let (op, list') = pop_front c.sqllist in
    let c' = process_popped server op (record c { sqllist = list' }) in
    let (ops, last) = process_loop rounds server c' in (with_op op ops, last)
