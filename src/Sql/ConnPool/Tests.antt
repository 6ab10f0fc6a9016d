-- ===== src/Sql/ConnPool/Tests.antt =====
-- Rounds of the check thread on a small pool, and the theorems at it.
use dolphin_core.Base.{
  ℕ, ◌+◌, ◌/◌, ◌≡◌, refl, min, Bool, true, false, [], ◌∷◌, length, ltb, leb, if◌then◌else◌,
}
use Prim.Native.Nat.{max}
use mathlib.Core.List.{Perm}
use dolphin_core.Sql.ConnPool.{Conn, Pool, thread_count, schedule, check_round}
use dolphin_core.Sql.ConnPool.Sizes.{schedule-length}
use dolphin_core.Sql.ConnPool.Kept.{IsSplit, all_ids, ids}
use dolphin_core.Sql.ConnPool.Keeps.{check_round-ids, check_round-IsSplit}

abbrev conn : ℕ → Bool → Bool → Conn
conn i connected active = record { id = i; connected = connected; active = active }

abbrev small_pool : Pool
small_pool = record {
  conn_list = conn 1 true true ∷ conn 2 true true ∷ [];
  bak_list = conn 3 false false ∷ conn 4 true false ∷ [];
  last_reconnect_time = 100;
  sql_count = 2500;
  max_handle = 4;
  tries = 0;
}

-- The server answers from the third attempt on.
abbrev late : ℕ → Bool
late n = leb 2 n

abbrev always : ℕ → Bool
always n = true

-- Both attempts of the check at the sleeping connections fail; the next ones succeed.
small_round : ids (check_round late 200 small_pool).conn_list ≡ 1 ∷ 2 ∷ 3 ∷ []
unfolding check_round
small_round = refl

small_pool-IsSplit : IsSplit small_pool
small_pool-IsSplit = record { awake = (refl, (refl, tt)); asleep = (refl, (refl, tt)) }

schedule-length_example : length (schedule always small_pool).conn_list ≡ (
    if ltb 2 (thread_count 2500)
    then min (thread_count 2500) (2 + 2)
    else if leb 2 4
    then min 2 (max (thread_count 2500) (4 / 2))
    else 2)
schedule-length_example = schedule-length always small_pool (λ n. refl)

check_round-ids_example : Perm (all_ids (check_round late 200 small_pool)) (all_ids small_pool)
check_round-ids_example = check_round-ids late 200 small_pool

check_round-IsSplit_example : IsSplit (check_round late 200 small_pool)
check_round-IsSplit_example = check_round-IsSplit late 200 small_pool small_pool-IsSplit
