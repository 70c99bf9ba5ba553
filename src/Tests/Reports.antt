-- ===== src/Tests/Reports.antt =====
-- The properties of the reports at concrete inputs: a database with one slow record, and floats that
-- are integers.
use anti_river_ten_demo.Prelude.{
  ℕ, ◌≡◌, refl, ◌*◌, ◌&&◌, true, none, Option, List, [], ◌∷◌, ◌++◌, map, length, if◌then◌else◌,
}
use anti_river_ten_demo.Prelude.Int.{ℤ, pos, leb_ℤ}
use anti_river_ten_demo.Strings.{
  Bytes, text, str_eq, trim_space, split, drop_spaces, space_width, space_width_back,
  is_ascii_space, join,
}
use anti_river_ten_demo.Strconv.{parse_int, parse_nat, scan, is_digit}
use anti_river_ten_demo.Exec.{ok, pure}
use anti_river_ten_demo.Auth.Laws.{touch_none}
use anti_river_ten_demo.Db.Laws.{TableLaws}
use anti_river_ten_demo.Db.Memory.{memory_table, memory_laws, rows_of}
use anti_river_ten_demo.Handlers.{Request}
use anti_river_ten_demo.Handlers.Report.{Outside, report_json_handler}
use anti_river_ten_demo.Handlers.Report.Answers.{JsonAnswer, report_json_handler-JsonAnswer}
use anti_river_ten_demo.Handlers.Report.Filter.{parse_report_filter, int_or, positive_or}
use anti_river_ten_demo.Handlers.Report.Filter.Accepted.{Unchanged, prepare-parse_report_filter}
use anti_river_ten_demo.Handlers.Report.Percentiles.{
  parse_percentiles, pct_values, pct_part, pct_fractions, in_range,
}
use anti_river_ten_demo.Handlers.Report.Percentiles.Chosen.{Chosen, parse_percentiles-Chosen}
use anti_river_ten_demo.Sqllog.{SqlLog}
use anti_river_ten_demo.Sqllog.Report.Analyze.Counts.{GroupLaws}
use mathlib.Core.List.{Permᴰ}
use anti_river_ten_demo.Sqllog.Report.Csv.{by_db_value, sorted_keys}
use anti_river_ten_demo.Sqllog.Report.Csv.Order.{by_db_value-Permᴰ}
use anti_river_ten_demo.Sqllog.Report.Filter.{ReportFilter, default_filter, prepare, day}
use anti_river_ten_demo.Sqllog.Report.Filter.Prepared.{Prepared, prepare-Prepared}
use anti_river_ten_demo.Sqllog.Stats.{
  Floats, number, where_clause_args, build_array_expr, normalization_sql, overall_query,
  per_db_query, patterns_query, db_patterns_query,
}
use anti_river_ten_demo.Sqllog.Stats.Compute.{ReportStore}
use anti_river_ten_demo.Sqllog.Stats.Marks.{marks, queries-marks}
use anti_river_ten_demo.Tests.Logs.{slow_log}

abbrev pub whole_numbers : Floats
whole_numbers = record {
  Float = ℤ;
  of_int = λ n. n;
  parse_float = λ s. none;
  to_int = λ n. n;
  float_eq = λ m n. leb_ℤ m n && leb_ℤ n m;
  format3 = λ n. [];
}

unfoldable pub memory_reports : ReportStore
unfolding memory_table rows_of pure
memory_reports = record {
  World = List SqlLog;
  logs = memory_table (λ w. w) (λ l w. l) (λ l. true) touch_none;
  count_by_db = λ p w. (ok ((text "db", pos 1) ∷ []), w);
  raw_overall = λ sql args. pure (text "{900,900}", text "{200,200}");
  raw_per_db = λ sql args. pure [];
  raw_patterns = λ sql args. pure [];
  raw_db_patterns = λ sql args. pure [];
}

pub memory_reports_lawful : TableLaws memory_reports.logs (λ r s. s ≡ r) touch_none (λ w w'. Unit)
unfolding memory_reports
memory_reports_lawful =
    memory_laws (λ w. w) (λ l w. l) (λ l. true) touch_none (λ r s. s ≡ r) (λ w w'. Unit) (λ r. refl)
      (λ w. tt) (λ l w. tt) (λ l w. refl)

pub memory_groups : GroupLaws memory_reports
unfolding memory_reports
memory_groups = record { group_kept = λ p w. refl }

unfoldable pub reported_logs : memory_reports.World
unfolding memory_reports
reported_logs = slow_log ∷ []

abbrev pub clock : ℕ
clock = 30 * day

abbrev pub no_time : Bytes → Option ℕ
no_time s = none

abbrev pub test_outside : Outside whole_numbers
test_outside = record {
  parse_rfc3339 = no_time;
  parse_date = no_time;
  format_rfc3339 = λ t. text "time";
  stamp = λ t. text "20250101-0000";
  quote = λ s. s;
  write_csv = λ rows. ok (join (map (λ row. join row (text ",")) rows) (text "\n"));
}

abbrev pub report_request : Request
report_request = record {
  method = text "GET";
  path = text "/v1/sql-logs/report";
  authorization = [];
  query = λ key. if str_eq key (text "pcts") then text "90, 10,90" else [];
  user = none;
}

report_json_handler-JsonAnswer_example :
    JsonAnswer whole_numbers test_outside memory_reports memory_reports_lawful memory_groups clock
      clock report_request reported_logs
      (report_json_handler whole_numbers test_outside memory_reports clock clock report_request
        reported_logs)
report_json_handler-JsonAnswer_example =
    report_json_handler-JsonAnswer whole_numbers test_outside memory_reports memory_reports_lawful
      memory_groups clock clock report_request reported_logs

prepare-Prepared_example :
    Prepared clock (default_filter clock) (prepare clock (default_filter clock))
prepare-Prepared_example = prepare-Prepared clock (default_filter clock)

accepted_list : parse_percentiles (text "90, 10,90") ≡ ok (pos 10 ∷ pos 90 ∷ [])
unfolding parse_percentiles pct_values pct_part pct_fractions in_range trim_space drop_spaces
    space_width space_width_back is_ascii_space text split parse_int parse_nat scan is_digit
accepted_list = refl

parse_percentiles-Chosen_example :
    (ns : List ℕ) × Chosen (split (text "90, 10,90") b',') ns × (pos 10 ∷ pos 90 ∷ [] ≡ map pos ns)
parse_percentiles-Chosen_example =
    parse_percentiles-Chosen (text "90, 10,90") (pos 10 ∷ pos 90 ∷ []) accepted_list

abbrev accepted_filter : ReportFilter
accepted_filter = record {
  from = 23 * day;
  to = 30 * day;
  db = [];
  limit = pos 500;
  slow_ms = pos 1000;
  freq_slow_ms = pos 500;
  freq_count = pos 100;
  max_cap = pos 5000;
  pcts = pos 10 ∷ pos 90 ∷ [];
  top_patterns = pos 20;
}

accepted_query : parse_report_filter no_time no_time clock report_request ≡ ok accepted_filter
unfolding parse_report_filter default_filter int_or positive_or parse_percentiles pct_values
    pct_part pct_fractions in_range trim_space drop_spaces space_width space_width_back
    is_ascii_space text split parse_int parse_nat scan is_digit str_eq
accepted_query = refl

prepare-parse_report_filter_example : Unchanged accepted_filter (prepare clock accepted_filter)
prepare-parse_report_filter_example =
    prepare-parse_report_filter no_time no_time clock clock report_request accepted_filter
      accepted_query

queries-marks_example :
    (marks (
        overall_query (build_array_expr accepted_filter.pcts) (where_clause_args accepted_filter).0)
      ≡ length (where_clause_args accepted_filter).1)
    × (marks (
          per_db_query
            (build_array_expr accepted_filter.pcts)
            (where_clause_args accepted_filter).0)
        ≡ length (where_clause_args accepted_filter).1)
    × (marks (
          patterns_query
            (normalization_sql (text "sql_query"))
            (where_clause_args accepted_filter).0)
        ≡ length ((where_clause_args accepted_filter).1 ++ number (pos 20) ∷ []))
    × (marks (
          db_patterns_query
            (normalization_sql (text "sql_query"))
            (where_clause_args accepted_filter).0)
        ≡ length ((where_clause_args accepted_filter).1 ++ number (pos 20) ∷ []))
queries-marks_example = queries-marks accepted_filter

by_db_value-Permᴰ_example :
    (by_db_value ((text "b", pos 2) ∷ (text "a", pos 1) ∷ [])
      ≡ by_db_value ((text "a", pos 1) ∷ (text "b", pos 2) ∷ []))
    × (sorted_keys ((text "b", pos 2) ∷ (text "a", pos 1) ∷ [])
        ≡ sorted_keys ((text "a", pos 1) ∷ (text "b", pos 2) ∷ []))
by_db_value-Permᴰ_example =
    by_db_value-Permᴰ ((text "b", pos 2) ∷ (text "a", pos 1) ∷ [])
      ((text "a", pos 1) ∷ (text "b", pos 2) ∷ []) (Permᴰ.swap refl refl)
