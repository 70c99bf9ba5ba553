-- ===== src/Sqllog/Stats/Compute.antt =====
-- internal/sqllog/stats.go: the percentiles and the patterns of a report. The raw queries are an
-- interface; a column that is NULL is read as the empty text.
use anti_river_ten_demo.Prelude.{Bool, Option, none, some, List, [], ◌∷◌, ◌++◌, if◌then◌else◌}
use anti_river_ten_demo.Prelude.Int.{ℤ, pos, leb_ℤ}
use anti_river_ten_demo.Strings.{Bytes, text}
use anti_river_ten_demo.Exec.{Exec, pure, catch, ◌>>=◌}
use anti_river_ten_demo.Db.{DbError, Table}
use anti_river_ten_demo.Sqllog.{SqlLog}
use anti_river_ten_demo.Sqllog.Report.Filter.{ReportFilter}
use anti_river_ten_demo.Sqllog.Stats.{
  Floats, set_key, get_key, PatternStat, SqlArg, number, where_clause_args, build_array_expr,
  Percentiles, parse_array_to_pct_set, normalization_sql, overall_query, per_db_query,
  patterns_query, db_patterns_query,
}

pub record DbPercentiles : Type 0 where
  pub db_name : Bytes
  pub p_exec_time : Bytes
  pub p_exec_count : Bytes

pub record DbPattern : Type 0 where
  pub db_name : Bytes
  pub pattern : Bytes
  pub occurrences : ℤ

-- The database of a report: the table of the records, and the queries that the table has not. The
-- answer of `count_by_db` has a row for each name among the records that pass the condition.
pub record ReportStore : Type 1 where
  pub World : Type 0
  pub logs : Table World SqlLog
  pub count_by_db : (SqlLog → Bool) → Exec World DbError (List (Bytes × ℤ))
  pub raw_overall : Bytes → List SqlArg → Exec World DbError (Bytes × Bytes)
  pub raw_per_db : Bytes → List SqlArg → Exec World DbError (List DbPercentiles)
  pub raw_patterns : Bytes → List SqlArg → Exec World DbError (List PatternStat)
  pub raw_db_patterns : Bytes → List SqlArg → Exec World DbError (List DbPattern)

-- The error of Analyze, with the query that failed.
pub data ReportError : Type 0 where
  count_total : DbError → ReportError
  by_db : DbError → ReportError
  list_anomalies : DbError → ReportError
  count_anomalies : DbError → ReportError
  percentiles_overall : DbError → ReportError
  percentiles_per_db : DbError → ReportError
  top_patterns_overall : DbError → ReportError
  top_patterns_per_db : DbError → ReportError

unfoldable pub pattern_stat : DbPattern → PatternStat
pattern_stat row = record { pattern = row.pattern; occurrences = row.occurrences }

abbrev pub listed_or_none : Option (List PatternStat) → List PatternStat
listed_or_none none = []
listed_or_none (some ps) = ps

-- byDB[rw.DBName] = append(byDB[rw.DBName], ...) for each row.
unfoldable pub patterns_by_db :
    List DbPattern → List (Bytes × List PatternStat) → List (Bytes × List PatternStat)
patterns_by_db [] m = m
patterns_by_db (row ∷ rows) m =
    patterns_by_db rows
      (set_key row.db_name (listed_or_none (get_key row.db_name m) ++ pattern_stat row ∷ []) m)

module _ (x : Floats) where
  unfoldable pub percentiles_of : ReportFilter → Bytes → Bytes → Percentiles x
  percentiles_of f times counts = record {
    exec_time = parse_array_to_pct_set x times f.pcts;
    exec_count = parse_array_to_pct_set x counts f.pcts;
  }

  unfoldable pub percentiles_by_db :
      ReportFilter
      → List DbPercentiles
      → List (Bytes × Percentiles x)
      → List (Bytes × Percentiles x)
  percentiles_by_db f [] m = m
  percentiles_by_db f (row ∷ rows) m =
      percentiles_by_db f rows
        (set_key row.db_name (percentiles_of f row.p_exec_time row.p_exec_count) m)

  abbrev pub no_percentiles : Percentiles x
  no_percentiles = record { exec_time = []; exec_count = [] }

module _ (x : Floats) (b : ReportStore) where
  open b use {World, raw_overall, raw_per_db, raw_patterns, raw_db_patterns}

  abbrev pub AllPercentiles : Type 0
  AllPercentiles = Percentiles x × List (Bytes × Percentiles x)

  abbrev pub AllPatterns : Type 0
  AllPatterns = List PatternStat × List (Bytes × List PatternStat)

  unfoldable pub query_percentiles : ReportFilter → Exec World ReportError AllPercentiles
  query_percentiles f = do
    let arr = build_array_expr f.pcts
    let clause = (where_clause_args f).0
    let args = (where_clause_args f).1
    o ← catch percentiles_overall (raw_overall (overall_query arr clause) args)
    rows ← catch percentiles_per_db (raw_per_db (per_db_query arr clause) args)
    pure (percentiles_of x f o.0 o.1, percentiles_by_db x f rows [])

  abbrev pub percentiles_for : List ℤ → ReportFilter → Exec World ReportError AllPercentiles
  percentiles_for [] f = pure (no_percentiles x, [])
  percentiles_for (p ∷ pcts) f = query_percentiles f

  unfoldable pub compute_percentiles : ReportFilter → Exec World ReportError AllPercentiles
  compute_percentiles f = percentiles_for f.pcts f

  unfoldable pub query_patterns : ReportFilter → Exec World ReportError AllPatterns
  query_patterns f = do
    let norm = normalization_sql (text "sql_query")
    let clause = (where_clause_args f).0
    let args = (where_clause_args f).1 ++ number f.top_patterns ∷ []
    overall ← catch top_patterns_overall (raw_patterns (patterns_query norm clause) args)
    rows ← catch top_patterns_per_db (raw_db_patterns (db_patterns_query norm clause) args)
    pure (overall, patterns_by_db rows [])

  unfoldable pub compute_top_patterns : ReportFilter → Exec World ReportError AllPatterns
  compute_top_patterns f = if leb_ℤ f.top_patterns (pos 0) then pure ([], []) else query_patterns f
