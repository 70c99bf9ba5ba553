-- ===== src/Sqllog/Report/Csv.antt =====
-- internal/sqllog/report.go: the records that ExportCSV gives to the writer of encoding/csv. The
-- layout time.RFC3339 in the location of the report is a parameter.
pub mod Order
use anti_river_ten_demo.Prelude.{
  ℕ, suc, Bool, true, false, ◌&&◌, ◌||◌, not, Option, none, some, List, [], ◌∷◌, ◌++◌, map, ltb,
  ◌==◌, length, drop, if◌then◌else◌,
}
use anti_river_ten_demo.Prelude.Int.{ℤ, pos, ltb_ℤ}
use anti_river_ten_demo.Prelude.Sort.{sort}
use anti_river_ten_demo.Strings.{Bytes, text, join}
use anti_river_ten_demo.Strconv.{decimal, decimal_int, parse_int}
use anti_river_ten_demo.Sqllog.Report.{one_space}
use anti_river_ten_demo.Sqllog.Report.Analyze.{ReportSummary, AnomalyDetail, ReportData}
use anti_river_ten_demo.Sqllog.Stats.{Floats, get_key, PatternStat, PercentileSet, Percentiles}

abbrev pub Rows : Type 0
Rows = List (List Bytes)

-- The order of sort.Strings.
unfoldable pub str_before : Bytes → Bytes → Bool
str_before [] [] = false
str_before [] (d ∷ t) = true
str_before (c ∷ s) [] = false
str_before (c ∷ s) (d ∷ t) = ltb c d || c == d && str_before s t

abbrev pub sort_strings : List Bytes → List Bytes
sort_strings = sort str_before

abbrev pub key_of : {V : Type 0} → Bytes × V → Bytes
key_of (k, v) = k

-- The sorted keys of a map.
unfoldable pub sorted_keys : {V : Type 0} → List (Bytes × V) → List Bytes
sorted_keys m = sort_strings (map key_of m)

-- fmt.Sprintf("%s=%d", k, v)
abbrev pub count_text : Bytes × ℤ → Bytes
count_text (k, n) = k ++ b'=' ∷ decimal_int n

unfoldable pub by_db_value : List (Bytes × ℤ) → Bytes
by_db_value m = join (sort_strings (map count_text m)) (text "; ")

unfoldable pub by_db_rows : List (Bytes × ℤ) → Rows
by_db_rows [] = []
by_db_rows (e ∷ m) = (text "by_db" ∷ by_db_value (e ∷ m) ∷ []) ∷ []

unfoldable pub pattern_row : PatternStat → List Bytes
pattern_row p = p.pattern ∷ decimal_int p.occurrences ∷ []

abbrev pattern_header : List Bytes
pattern_header = text "pattern" ∷ text "occurrences" ∷ []

unfoldable pub overall_pattern_rows : List PatternStat → Rows
overall_pattern_rows [] = []
overall_pattern_rows (p ∷ ps) =
    []
    ∷ (text "top_patterns_overall_count" ∷ decimal (length (p ∷ ps)) ∷ [])
    ∷ pattern_header
    ∷ map pattern_row (p ∷ ps)

abbrev pub patterns_or_none : Option (List PatternStat) → List PatternStat
patterns_or_none none = []
patterns_or_none (some ps) = ps

unfoldable pub patterns_of_dbs : List (Bytes × List PatternStat) → List Bytes → Rows
patterns_of_dbs m [] = []
patterns_of_dbs m (db ∷ dbs) =
    let ps = patterns_or_none (get_key db m) in
    let rest = patterns_of_dbs m dbs in
    ((text "top_patterns_db[" ++ db ++ text "]") ∷ decimal (length ps) ∷ [])
    ∷ pattern_header
    ∷ (map pattern_row ps ++ [] ∷ rest)

unfoldable pub db_pattern_rows : List (Bytes × List PatternStat) → Rows
db_pattern_rows [] = []
db_pattern_rows (e ∷ m) = [] ∷ patterns_of_dbs (e ∷ m) (sorted_keys (e ∷ m))

-- strings.ReplaceAll(s, "\n", " ")
abbrev pub one_line : Bytes → Bytes
one_line s = map one_space s

unfoldable pub anomaly_row : AnomalyDetail → List Bytes
anomaly_row a =
    a.db_name
    ∷ decimal_int a.exec_time_ms
    ∷ decimal_int a.exec_count
    ∷ join a.reasons (text "|")
    ∷ join a.suggestions (text "|")
    ∷ one_line a.sql_query
    ∷ []

abbrev pub anomaly_header : List Bytes
anomaly_header =
    text "db_name"
    ∷ text "exec_time_ms"
    ∷ text "exec_count"
    ∷ text "reasons"
    ∷ text "suggestions"
    ∷ text "sql_query"
    ∷ []

module _ (x : Floats) where
  open x use {Float, of_int, to_int, float_eq, format3}

  unfoldable pub trim_float : Float → Bytes
  trim_float f = if float_eq f (of_int (to_int f)) then decimal_int (to_int f) else format3 f

  abbrev number_or_0 : Option ℤ → ℤ
  number_or_0 none = pos 0
  number_or_0 (some n) = n

  -- The number of a key, which pctKey has made: Sscanf reads it as ParseInt does.
  unfoldable pub key_number : Bytes → ℤ
  key_number [] = pos 0
  key_number (c ∷ k) = if c == b'p' || c == b'P' then number_or_0 (parse_int k) else pos 0

  abbrev pub pct_before : Bytes × Float → Bytes × Float → Bool
  pct_before (k, u) (l, v) = ltb_ℤ (key_number k) (key_number l)

  abbrev pub pct_text : Bytes × Float → Bytes
  pct_text (k, v) = k ++ b'=' ∷ trim_float v

  unfoldable pub fmt_pct_set : PercentileSet x → Bytes
  fmt_pct_set ps = join (map pct_text (sort pct_before ps)) (text ",")

  abbrev pub has_any : Percentiles x → Bool
  has_any p = ltb 0 (length p.exec_time) || ltb 0 (length p.exec_count)

  unfoldable pub overall_rows : Percentiles x → Rows
  overall_rows p =
      if has_any p
      then []
        ∷ (text "percentiles_overall_exec_time_ms" ∷ fmt_pct_set p.exec_time ∷ [])
        ∷ (text "percentiles_overall_exec_count" ∷ fmt_pct_set p.exec_count ∷ [])
        ∷ []
      else []

  abbrev pub percentiles_or_none : Option (Percentiles x) → Percentiles x
  percentiles_or_none none = record { exec_time = []; exec_count = [] }
  percentiles_or_none (some p) = p

  unfoldable pub percentiles_of_dbs : List (Bytes × Percentiles x) → List Bytes → Rows
  percentiles_of_dbs m [] = []
  percentiles_of_dbs m (db ∷ dbs) =
      let p = percentiles_or_none (get_key db m) in
      let rest = percentiles_of_dbs m dbs in
      ((text "percentiles_db_exec_time_ms[" ++ db ++ text "]") ∷ fmt_pct_set p.exec_time ∷ [])
      ∷ ((text "percentiles_db_exec_count[" ++ db ++ text "]") ∷ fmt_pct_set p.exec_count ∷ [])
      ∷ rest

  unfoldable pub db_percentile_rows : List (Bytes × Percentiles x) → Rows
  db_percentile_rows [] = []
  db_percentile_rows (e ∷ m) = [] ∷ percentiles_of_dbs (e ∷ m) (sorted_keys (e ∷ m))

  module _ (rfc3339 : ℕ → Bytes) where
    unfoldable pub summary_rows : ReportData x → Rows
    summary_rows d =
        (text "key" ∷ text "value" ∷ [])
        ∷ (text "generated_at" ∷ rfc3339 d.generated_at ∷ [])
        ∷ (text "timezone" ∷ d.timezone ∷ [])
        ∷ (text "from" ∷ rfc3339 d.summary.from ∷ [])
        ∷ (text "to" ∷ rfc3339 d.summary.to ∷ [])
        ∷ (text "total_queries" ∷ decimal d.summary.total_queries ∷ [])
        ∷ (text "anomaly_count" ∷ decimal d.summary.anomaly_count ∷ [])
        ∷ (text "suggestion_count" ∷ decimal d.summary.suggestion_count ∷ [])
        ∷ []

    unfoldable pub csv_rows : ReportData x → Rows
    csv_rows d =
        summary_rows d
        ++ (by_db_rows d.summary.counts_by_db
            ++ (overall_rows d.percentiles_overall
                ++ (db_percentile_rows d.percentiles_by_db
                    ++ (overall_pattern_rows d.top_patterns_overall
                        ++ (db_pattern_rows d.top_patterns_by_db
                            ++ [] ∷ anomaly_header ∷ map anomaly_row d.anomalies)))))
