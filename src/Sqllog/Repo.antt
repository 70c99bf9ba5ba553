-- ===== src/Sqllog/Repo.antt =====
-- internal/sqllog/repo.go: the queries of the repository. The table of the records is an interface;
-- CreateInBatches and the distinct names, which the table does not have, are parameters too.
pub mod Limits
use anti_river_ten_demo.Prelude.{
  ℕ, suc, ◌+◌, Bool, true, false, not, ◌&&◌, ◌||◌, Option, none, some, List, [], ◌∷◌, ltb,
  if◌then◌else◌,
}
use anti_river_ten_demo.Prelude.Int.{ℤ, pos, ltb_ℤ, leb_ℤ}
use anti_river_ten_demo.Strings.{Bytes, str_eq, is_empty}
use anti_river_ten_demo.Exec.{Exec, pure, raise, catch}
use anti_river_ten_demo.Db.{DbError, Query, Table}
use anti_river_ten_demo.Sqllog.{SqlLog}

pub record LogStore : Type 1 where
  pub World : Type 0
  pub logs : Table World SqlLog
  pub create_in_batches : List SqlLog → ℕ → Exec World DbError (Unit {0})
  pub distinct_db_names : Exec World DbError (List Bytes)

pub data RepoError : Type 0 where
  missing_fields_at : ℕ → RepoError
  database : DbError → RepoError

abbrev pub abnormal_exec_time_threshold : ℤ
abnormal_exec_time_threshold = pos 500

abbrev pub abnormal_exec_count_threshold : ℤ
abnormal_exec_count_threshold = pos 100

-- exec_time_ms > ? AND exec_count > ?
unfoldable pub above : ℤ → ℤ → SqlLog → Bool
above time count it = ltb_ℤ time it.exec_time_ms && ltb_ℤ count it.exec_count

-- db_name = ?
unfoldable pub of_db : Bytes → SqlLog → Bool
of_db name it = str_eq it.db_name name

unfoldable pub above_in : Bytes → ℤ → ℤ → SqlLog → Bool
unfolding of_db above
above_in name time count it = of_db name it && above time count it

-- ORDER BY exec_time_ms DESC, exec_count DESC
unfoldable pub slowest_first : SqlLog → SqlLog → Bool
slowest_first a b =
    ltb_ℤ b.exec_time_ms a.exec_time_ms
    || leb_ℤ b.exec_time_ms a.exec_time_ms && ltb_ℤ b.exec_count a.exec_count

-- ORDER BY created_at DESC, id DESC
unfoldable pub newest_log_first : SqlLog → SqlLog → Bool
newest_log_first a b =
    ltb b.created_at a.created_at || not (ltb a.created_at b.created_at) && ltb b.id a.id

abbrev pub no_order : SqlLog → SqlLog → Bool
no_order a b = false

-- The limit of a list: 100 for one that is not positive, at most 1000.
unfoldable pub clamp_list_limit : ℤ → ℤ
clamp_list_limit limit =
    if leb_ℤ limit (pos 0) then pos 100 else if ltb_ℤ (pos 1000) limit then pos 1000 else limit

-- The index of the first record that lacks a field, counted from `i`.
unfoldable pub missing_from : ℕ → List SqlLog → Option ℕ
missing_from i [] = none
missing_from i (e ∷ entries) =
    let rest = missing_from (suc i) entries in
    if is_empty e.db_name || is_empty e.sql_query then some i else rest

module _ (b : LogStore) where
  open b use {World, logs, create_in_batches, distinct_db_names}

  unfoldable pub insert_batch : List SqlLog → Exec World RepoError (Unit {0})
  insert_batch [] = pure tt
  insert_batch (e ∷ entries) = elim (missing_from 0 (e ∷ entries)) [
    | some i ↦ raise (missing_fields_at i)
    | none ↦ catch database (create_in_batches (e ∷ entries) 500)
  ]

  -- What the four lists of abnormal records share.
  unfoldable pub list_slowest : (SqlLog → Bool) → ℤ → Exec World DbError (List SqlLog)
  unfolding clamp_list_limit slowest_first
  list_slowest condition limit = logs.find_rows (record {
    condition = condition;
    before = slowest_first;
    limit = some (clamp_list_limit limit);
    offset = none;
  })

  unfoldable pub count_abnormal_with_thresholds : ℤ → ℤ → Exec World DbError ℕ
  count_abnormal_with_thresholds time count = logs.count_rows (above time count)

  unfoldable pub list_abnormal_with_thresholds : ℤ → ℤ → ℤ → Exec World DbError (List SqlLog)
  unfolding list_slowest
  list_abnormal_with_thresholds limit time count = list_slowest (above time count) limit

  unfoldable pub count_abnormal : Exec World DbError ℕ
  count_abnormal =
      logs.count_rows (above abnormal_exec_time_threshold abnormal_exec_count_threshold)

  unfoldable pub list_abnormal : ℤ → Exec World DbError (List SqlLog)
  unfolding list_slowest
  list_abnormal limit =
      list_slowest (above abnormal_exec_time_threshold abnormal_exec_count_threshold) limit

  unfoldable pub count_abnormal_by_db : Bytes → Exec World DbError ℕ
  count_abnormal_by_db name =
      logs.count_rows (above_in name abnormal_exec_time_threshold abnormal_exec_count_threshold)

  unfoldable pub list_abnormal_by_db : Bytes → ℤ → Exec World DbError (List SqlLog)
  unfolding list_slowest
  list_abnormal_by_db name limit =
      list_slowest (above_in name abnormal_exec_time_threshold abnormal_exec_count_threshold) limit

  unfoldable pub count_abnormal_by_db_with_thresholds : Bytes → ℤ → ℤ → Exec World DbError ℕ
  count_abnormal_by_db_with_thresholds name time count = logs.count_rows (above_in name time count)

  unfoldable pub list_abnormal_by_db_with_thresholds :
      Bytes → ℤ → ℤ → ℤ → Exec World DbError (List SqlLog)
  unfolding list_slowest
  list_abnormal_by_db_with_thresholds name limit time count =
      list_slowest (above_in name time count) limit

  unfoldable pub list_databases : Exec World DbError (List Bytes)
  list_databases = distinct_db_names

  unfoldable pub find_by_db : Bytes → Exec World DbError (List SqlLog)
  unfolding newest_log_first
  find_by_db name =
      logs.find_rows
        (record { condition = of_db name; before = newest_log_first; limit = none; offset = none })

  unfoldable pub find_slow_queries : Bytes → Exec World DbError (List SqlLog)
  find_slow_queries name = logs.find_rows (record {
    condition = above_in name (pos 500) (pos 100);
    before = no_order;
    limit = none;
    offset = none;
  })
