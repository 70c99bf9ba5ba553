-- ===== src/Tests/Logs.antt =====
-- The properties of the SQL logs at concrete inputs: a table with one slow record.
use anti_river_ten_demo.Prelude.{
  ◌≤◌, ◌≡◌, refl, true, false, none, List, [], ◌∷◌, length, All, arith, ◌==◌, ◌++◌, map, filter,
  not,
}
use anti_river_ten_demo.Prelude.Int.{pos, leb_ℤ}
use anti_river_ten_demo.Strings.{
  Bytes, text, is_empty, trim_space, drop_spaces, space_width, space_width_back, is_ascii_space,
  contains, to_lower, str_eq,
}
use anti_river_ten_demo.Exec.{ok}
use anti_river_ten_demo.Db.Laws.{TableLaws}
use anti_river_ten_demo.Db.Memory.{memory_table, memory_laws, rows_of}
use anti_river_ten_demo.Auth.Laws.{touch_none}
use anti_river_ten_demo.Handlers.{Request}
use anti_river_ten_demo.Handlers.Scan.{scan_limit, scan_threshold, scan_handler}
use anti_river_ten_demo.Handlers.Scan.Bounds.{Scanned, scan_handler-Scanned}
use anti_river_ten_demo.Handlers.Upload.{upload_stream}
use anti_river_ten_demo.Handlers.Upload.Counts.{Balanced, Read, upload_stream-Balanced}
use anti_river_ten_demo.Sqllog.{SqlLog}
use anti_river_ten_demo.Sqllog.Parser.{parse_line, ScannedLine, StreamError}
use anti_river_ten_demo.Sqllog.Parser.RoundTrip.{log_line, record_of, parse_line-log_line}
use anti_river_ten_demo.Sqllog.Report.{
  is_anomaly, list_contains, derive_reasons_and_suggestions, truncate_one_line,
}
use anti_river_ten_demo.Sqllog.Report.Anomalies.{
  derive_reasons_and_suggestions_lem, truncate_one_line_lem, NoLineFeed,
}
use anti_river_ten_demo.Sqllog.Repo.{
  LogStore, abnormal_exec_time_threshold, abnormal_exec_count_threshold,
}

abbrev sql : Bytes
sql = text "select * from a,exec_time_ms:1,exec_count:2 where x"

abbrev pub slow_log : SqlLog
slow_log = record {
  id = 1;
  db_name = text "db";
  sql_query = sql;
  exec_time_ms = pos 900;
  exec_count = pos 200;
  created_at = 5;
}

abbrev pub distinct : List Bytes → List Bytes
distinct [] = []
distinct (n ∷ ns) = n ∷ filter (λ m. not (str_eq n m)) (distinct ns)

unfoldable pub memory_logs : LogStore
unfolding memory_table rows_of
memory_logs = record {
  World = List SqlLog;
  logs = memory_table (λ w. w) (λ l w. l) (λ l. true) touch_none;
  create_in_batches = λ entries size w. (ok tt, w ++ entries);
  distinct_db_names = λ w. (ok (distinct (map (λ l. l.db_name) w)), w);
}

pub memory_logs_lawful : TableLaws memory_logs.logs (λ r s. s ≡ r) touch_none (λ w w'. Unit)
unfolding memory_logs
memory_logs_lawful =
    memory_laws (λ w. w) (λ l w. l) (λ l. true) touch_none (λ r s. s ≡ r) (λ w w'. Unit) (λ r. refl)
      (λ w. tt) (λ l w. tt) (λ l w. refl)

unfoldable pub one_log : memory_logs.World
unfolding memory_logs
one_log = slow_log ∷ []

abbrev pub scan_request : Request
scan_request = record {
  method = text "GET";
  path = text "/v1/sql-logs/scan";
  authorization = [];
  query = λ key. [];
  user = none;
}

limit_given : scan_limit (scan_request.query (text "limit")) ≡ ok (pos 100)
unfolding scan_limit
limit_given = refl

time_given :
    scan_threshold abnormal_exec_time_threshold
      (text "invalid exec_time_ms")
      (scan_request.query (text "exec_time_ms"))
    ≡ ok (pos 500)
unfolding scan_threshold trim_space
time_given = refl

count_given :
    scan_threshold abnormal_exec_count_threshold
      (text "invalid exec_count")
      (scan_request.query (text "exec_count"))
    ≡ ok (pos 100)
unfolding scan_threshold trim_space
count_given = refl

scan_handler-Scanned_example :
    Scanned memory_logs one_log
      (trim_space (scan_request.query (text "dbName")))
      (pos 100)
      (pos 500)
      (pos 100)
      (scan_handler memory_logs scan_request one_log).0
scan_handler-Scanned_example =
    scan_handler-Scanned memory_logs memory_logs_lawful scan_request one_log (pos 100) (pos 500)
      (pos 100) limit_given time_given count_given

name_filled : is_empty (trim_space (text "db")) ≡ false
unfolding trim_space space_width space_width_back drop_spaces is_ascii_space text
name_filled = refl

name_plain : All (λ c. (c == b',') ≡ false) (text "db")
unfolding text
name_plain = (refl, (refl, tt))

abbrev short_sql : Bytes
short_sql = text "a,exec_count:2"

sql_filled : is_empty (trim_space short_sql) ≡ false
unfolding trim_space space_width space_width_back drop_spaces is_ascii_space text
sql_filled = refl

sql_one_line : All (λ c. (c == 10) ≡ false) short_sql
unfolding text
sql_one_line = (
  refl,
  (
    refl,
    (
      refl,
      (refl, (refl, (refl, (refl, (refl, (refl, (refl, (refl, (refl, (refl, (refl, tt))))))))))),
    ),
  ),
)

parse_line-log_line_example :
    parse_line (log_line (text "db") short_sql 900 200)
    ≡ ok (record_of (trim_space (text "db")) (trim_space short_sql) 900 200)
parse_line-log_line_example =
    parse_line-log_line (text "db") short_sql 900 200 name_filled name_plain sql_filled sql_one_line
      (omega arith) (omega arith)

derive_reasons_and_suggestions_example :
    (list_contains
        (derive_reasons_and_suggestions slow_log (pos 1000) (pos 500) (pos 100)).1
        (text "add_index_on_where_columns")
      ≡ is_anomaly (pos 1000) (pos 500) (pos 100) slow_log)
    × (list_contains
          (derive_reasons_and_suggestions slow_log (pos 1000) (pos 500) (pos 100)).1
          (text "avoid_select_star")
        ≡ contains (to_lower sql) (text "select *"))
    × (list_contains
          (derive_reasons_and_suggestions slow_log (pos 1000) (pos 500) (pos 100)).1
          (text "consider_caching")
        ≡ leb_ℤ (pos 100) (pos 200))
derive_reasons_and_suggestions_example =
    derive_reasons_and_suggestions_lem slow_log (pos 1000) (pos 500) (pos 100)

truncate_one_line_example :
    (length (truncate_one_line sql (pos 10)) ≤ 10) × NoLineFeed (truncate_one_line sql (pos 10))
truncate_one_line_example = truncate_one_line_lem sql (pos 10)

abbrev pub upload_lines : List ScannedLine
upload_lines =
    record { done = none; line = text "DB:a,sql:select 1,exec_time_ms:5,exec_count:6" }
    ∷ record { done = none; line = text "broken" }
    ∷ []

abbrev pub no_text : StreamError → Bytes
no_text e = text "parse"

upload_stream-Balanced_example :
    Balanced (upload_stream no_text upload_lines none).1
    × Read no_text 2
        (upload_stream no_text upload_lines none).1.total
        (upload_stream no_text upload_lines none).0
upload_stream-Balanced_example = upload_stream-Balanced no_text upload_lines none
