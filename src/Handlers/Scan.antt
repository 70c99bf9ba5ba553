-- ===== src/Handlers/Scan.antt =====
-- internal/http/handlers/sqllog_scan.go: the scan for abnormal queries.
pub mod Limit
pub mod Bounds
use anti_river_ten_demo.Prelude.{
  ℕ, Bool, true, false, not, ◌||◌, Option, none, some, List, [], ◌∷◌, map, ◌==◌, if◌then◌else◌,
}
use anti_river_ten_demo.Prelude.Int.{ℤ, pos, ltb_ℤ}
use anti_river_ten_demo.Strings.{Bytes, text, is_empty, trim_space}
use anti_river_ten_demo.Strconv.{parse_int}
use anti_river_ten_demo.Exec.{Exec, Result, ok, err, pure, lift, catch, check, ◌>>=◌, ◌>>◌}
use anti_river_ten_demo.Db.{DbError}
use anti_river_ten_demo.Handlers.{Reply, error_envelope, json, Request, finish}
use anti_river_ten_demo.Sqllog.{SqlLog}
use anti_river_ten_demo.Sqllog.Repo.{
  LogStore, abnormal_exec_time_threshold, abnormal_exec_count_threshold,
  count_abnormal_by_db_with_thresholds, count_abnormal_with_thresholds,
  list_abnormal_by_db_with_thresholds, list_abnormal_with_thresholds,
}

pub record ScanItem : Type 0 where
  pub db_name : Bytes
  pub sql_query : Bytes
  pub exec_time_ms : ℤ
  pub exec_count : ℤ
  pub status : Bytes

-- An item of the response, for a record.
unfoldable pub scan_item : SqlLog → ScanItem
scan_item it = record {
  db_name = it.db_name;
  sql_query = it.sql_query;
  exec_time_ms = it.exec_time_ms;
  exec_count = it.exec_count;
  status = text "abnormal";
}

pub record ScanResp : Type 0 where
  pub message : Bytes
  pub total : ℕ
  pub items : List ScanItem

abbrev pub bad_request : Bytes → Reply ScanResp
bad_request m = error_envelope 400 (text "bad_request") m

abbrev pub internal_error : Bytes → Reply ScanResp
internal_error m = error_envelope 500 (text "internal_error") m

abbrev pub clamp_1_1000 : ℤ → ℤ
clamp_1_1000 n = if ltb_ℤ n (pos 1) then pos 1 else if ltb_ℤ (pos 1000) n then pos 1000 else n

abbrev pub limit_or : Option ℤ → Result (Reply ScanResp) ℤ
limit_or none = err (bad_request (text "invalid limit"))
limit_or (some n) = ok (clamp_1_1000 n)

-- The optional limit.
unfoldable pub scan_limit : Bytes → Result (Reply ScanResp) ℤ
scan_limit v = if is_empty v then ok (pos 100) else limit_or (parse_int v)

abbrev not_negative : Bytes → Option ℤ → Result (Reply ScanResp) ℤ
not_negative m none = err (bad_request m)
not_negative m (some n) = if ltb_ℤ n (pos 0) then err (bad_request m) else ok n

-- An optional threshold with its default.
unfoldable pub scan_threshold : ℤ → Bytes → Bytes → Result (Reply ScanResp) ℤ
scan_threshold default m v =
    if is_empty (trim_space v) then ok default else not_negative m (parse_int (trim_space v))

abbrev count_failed : DbError → Reply ScanResp
count_failed e = internal_error (text "count failed")

abbrev list_failed : DbError → Reply ScanResp
list_failed e = internal_error (text "list failed")

abbrev pub nothing_found : Reply ScanResp
nothing_found =
    json 200 (record { message = text "No abnormal queries detected"; total = 0; items = [] })

module _ (b : LogStore) where
  open b use {World}

  -- The count and the list, of one database or of all.
  unfoldable pub scan_count : Bytes → ℤ → ℤ → Exec World DbError ℕ
  scan_count name time count =
      if is_empty name
      then count_abnormal_with_thresholds b time count
      else count_abnormal_by_db_with_thresholds b name time count

  unfoldable pub scan_list : Bytes → ℤ → ℤ → ℤ → Exec World DbError (List SqlLog)
  scan_list name limit time count =
      if is_empty name
      then list_abnormal_with_thresholds b limit time count
      else list_abnormal_by_db_with_thresholds b name limit time count

  -- The list, if the count has found any.
  unfoldable pub scan_items : Bytes → ℤ → ℤ → ℤ → ℕ → Exec World (Reply ScanResp) (Reply ScanResp)
  scan_items name limit time count total = do
    items ← catch list_failed (scan_list name limit time count)
    pure (
        json 200
          (record { message = text "scan complete"; total = total; items = map scan_item items }))

  unfoldable pub scan_handler : Request → World → Reply ScanResp × World
  scan_handler r = finish (do
    limit ← lift (scan_limit (r.query (text "limit")))
    let name = trim_space (r.query (text "dbName"))
    time ← lift (
        scan_threshold abnormal_exec_time_threshold (text "invalid exec_time_ms")
          (r.query (text "exec_time_ms")))
    count ← lift (
        scan_threshold abnormal_exec_count_threshold (text "invalid exec_count")
          (r.query (text "exec_count")))
    total ← catch count_failed (scan_count name time count)
    if total == 0 then pure nothing_found else scan_items name limit time count total)
