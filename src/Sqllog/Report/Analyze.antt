-- ===== src/Sqllog/Report/Analyze.antt =====
-- internal/sqllog/report.go: Analyze. The location of the times only changes how they are printed,
-- so a time stays the number that it is.
pub mod Counts
use anti_river_ten_demo.Prelude.{ℕ, Bool, ◌&&◌, not, Option, none, some, List, [], ◌∷◌, map, count}
use anti_river_ten_demo.Prelude.Int.{ℤ}
use anti_river_ten_demo.Strings.{Bytes, text}
use anti_river_ten_demo.Exec.{Exec, pure, catch, ◌>>=◌}
use anti_river_ten_demo.Db.{DbError, Table, Query}
use anti_river_ten_demo.Sqllog.{SqlLog}
use anti_river_ten_demo.Sqllog.Repo.{slowest_first}
use anti_river_ten_demo.Sqllog.Report.{derive_reasons_and_suggestions}
use anti_river_ten_demo.Sqllog.Report.Filter.{ReportFilter, prepare, in_filter, anomaly_in}
use anti_river_ten_demo.Sqllog.Stats.{Floats, set_key, PatternStat, Percentiles}
use anti_river_ten_demo.Sqllog.Stats.Compute.{
  ReportStore, ReportError, count_total, by_db, list_anomalies, count_anomalies,
  compute_percentiles, compute_top_patterns,
}

abbrev pub default_tz : Bytes
default_tz = text "Asia/Ho_Chi_Minh"

pub record ReportSummary : Type 0 where
  pub total_queries : ℕ
  pub anomaly_count : ℕ
  pub suggestion_count : ℕ
  pub counts_by_db : List (Bytes × ℤ)
  pub from : ℕ
  pub to : ℕ

pub record AnomalyDetail : Type 0 where
  pub db_name : Bytes
  pub sql_query : Bytes
  pub exec_time_ms : ℤ
  pub exec_count : ℤ
  pub reasons : List Bytes
  pub suggestions : List Bytes

pub record ReportData (x : Floats) : Type 0 where
  pub generated_at : ℕ
  pub timezone : Bytes
  pub summary : ReportSummary
  pub anomalies : List AnomalyDetail
  pub percentiles_overall : Percentiles x
  pub percentiles_by_db : List (Bytes × Percentiles x)
  pub top_patterns_overall : List PatternStat
  pub top_patterns_by_db : List (Bytes × List PatternStat)

-- The entry of an anomaly.
unfoldable pub anomaly_detail : ReportFilter → SqlLog → AnomalyDetail
anomaly_detail f it =
    let derived = derive_reasons_and_suggestions it f.slow_ms f.freq_slow_ms f.freq_count in
    record {
      db_name = it.db_name;
      sql_query = it.sql_query;
      exec_time_ms = it.exec_time_ms;
      exec_count = it.exec_count;
      reasons = derived.0;
      suggestions = derived.1;
    }

-- len(suggs) > 0
abbrev pub has_suggestions : AnomalyDetail → Bool
has_suggestions a = elim a.suggestions [ [] ↦ Bool.false | ◌∷◌ s rest ↦ Bool.true ]

-- The map of the counts.
unfoldable pub counts_map : List (Bytes × ℤ) → List (Bytes × ℤ) → List (Bytes × ℤ)
counts_map [] m = m
counts_map ((name, n) ∷ rows) m = counts_map rows (set_key name n m)

-- The conditions of applyFilters and of applyAnomalyFilters behind it.
unfoldable pub anomalous : ReportFilter → SqlLog → Bool
anomalous f it = in_filter f it && anomaly_in f it

abbrev pub anomaly_query : ReportFilter → Query SqlLog
anomaly_query f = record {
  condition = anomalous f;
  before = slowest_first;
  limit = some f.limit;
  offset = none;
}

module _ (x : Floats) (b : ReportStore) where
  open b use {World, logs, count_by_db}

  -- The queries and the report, for a filter that is prepared.
  unfoldable pub analyze_prepared : ℕ → ReportFilter → Exec World ReportError (ReportData x)
  analyze_prepared now f = do
    total ← catch count_total (logs.count_rows (in_filter f))
    rows ← catch by_db (count_by_db (in_filter f))
    source ← catch list_anomalies (logs.find_rows (anomaly_query f))
    anomaly_count ← catch count_anomalies (logs.count_rows (anomalous f))
    pcts ← compute_percentiles x b f
    top ← compute_top_patterns x b f
    pure (record {
      generated_at = now;
      timezone = default_tz;
      summary = record {
        total_queries = total;
        anomaly_count = anomaly_count;
        suggestion_count = count has_suggestions (map (anomaly_detail f) source);
        counts_by_db = counts_map rows [];
        from = f.from;
        to = f.to;
      };
      anomalies = map (anomaly_detail f) source;
      percentiles_overall = pcts.0;
      percentiles_by_db = pcts.1;
      top_patterns_overall = top.0;
      top_patterns_by_db = top.1;
    })

  unfoldable pub analyze : ℕ → ReportFilter → Exec World ReportError (ReportData x)
  analyze now f = analyze_prepared now (prepare now f)
