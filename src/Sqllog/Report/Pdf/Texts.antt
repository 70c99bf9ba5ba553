-- ===== src/Sqllog/Report/Pdf/Texts.antt =====
-- internal/sqllog/report.go: the texts of a report in front of the table of the
-- anomalies, whatever fonts, positions and page breaks ExportPDF chooses for them.
use anti_river_ten_demo.Prelude.{ℕ, List, [], ◌∷◌, ◌++◌, if◌then◌else◌}
use anti_river_ten_demo.Prelude.Int.{ℤ, pos}
use anti_river_ten_demo.Strings.{Bytes, text}
use anti_river_ten_demo.Strconv.{decimal, decimal_int}
use anti_river_ten_demo.Sqllog.Report.{truncate_one_line}
use anti_river_ten_demo.Sqllog.Report.Analyze.{ReportSummary, ReportData}
use anti_river_ten_demo.Sqllog.Report.Csv.{
  fmt_pct_set, has_any, percentiles_or_none, patterns_or_none, sorted_keys,
}
use anti_river_ten_demo.Sqllog.Report.Pdf.{count_or_0}
use anti_river_ten_demo.Sqllog.Stats.{Floats, get_key, PatternStat, Percentiles}

module _ {A : Type 0} where
  -- The texts of all parts, in order.
  unfoldable pub all_of : (A → List Bytes) → List A → List Bytes
  all_of f [] = []
  all_of f (a ∷ as') = f a ++ all_of f as'

-- The texts of each section, whatever the page breaks are.
abbrev pub pattern_texts : PatternStat → List Bytes
pattern_texts p = truncate_one_line p.pattern (pos 160) ∷ decimal_int p.occurrences ∷ []

unfoldable pub table_texts : List PatternStat → List Bytes
table_texts ps = text "Pattern" ∷ text "Occurrences" ∷ all_of pattern_texts ps

unfoldable pub overall_pattern_texts : List PatternStat → List Bytes
overall_pattern_texts [] = []
overall_pattern_texts (p ∷ ps) = text "Top Patterns (Overall)" ∷ table_texts (p ∷ ps)

abbrev pub db_pattern_texts : List (Bytes × List PatternStat) → Bytes → List Bytes
db_pattern_texts m db = (text "DB: " ++ db) ∷ table_texts (patterns_or_none (get_key db m))

unfoldable pub patterns_by_db_texts : List (Bytes × List PatternStat) → List Bytes
patterns_by_db_texts [] = []
patterns_by_db_texts (e ∷ m) =
    text "Top Patterns (By DB)" ∷ all_of (db_pattern_texts (e ∷ m)) (sorted_keys (e ∷ m))

abbrev pub count_texts : List (Bytes × ℤ) → Bytes → List Bytes
count_texts m db = (text " - " ++ (db ++ text ":")) ∷ decimal_int (count_or_0 (get_key db m)) ∷ []

unfoldable pub counts_texts : List (Bytes × ℤ) → List Bytes
counts_texts [] = []
counts_texts (e ∷ m) = text "By DB:" ∷ all_of (count_texts (e ∷ m)) (sorted_keys (e ∷ m))

unfoldable pub summary_texts : ReportSummary → List Bytes
summary_texts s =
    text "Summary"
    ∷ text "Total queries:"
    ∷ decimal s.total_queries
    ∷ text "Anomaly count:"
    ∷ decimal s.anomaly_count
    ∷ text "Suggestion count:"
    ∷ decimal s.suggestion_count
    ∷ counts_texts s.counts_by_db

module _ (x : Floats) where
  abbrev pub overall_section_texts : Percentiles x → List Bytes
  overall_section_texts p =
      text "Percentiles (Overall)"
      ∷ (text "exec_time_ms: " ++ fmt_pct_set x p.exec_time)
      ∷ (text "exec_count:   " ++ fmt_pct_set x p.exec_count)
      ∷ []

  unfoldable pub overall_percentile_texts : Percentiles x → List Bytes
  overall_percentile_texts p = if has_any x p then overall_section_texts p else []

  abbrev pub db_percentile_texts : List (Bytes × Percentiles x) → Bytes → List Bytes
  db_percentile_texts m db =
      let p = percentiles_or_none x (get_key db m) in
      (text "DB: " ++ db)
      ∷ (text " - exec_time_ms: " ++ fmt_pct_set x p.exec_time)
      ∷ (text " - exec_count:   " ++ fmt_pct_set x p.exec_count)
      ∷ []

  unfoldable pub percentiles_by_db_texts : List (Bytes × Percentiles x) → List Bytes
  percentiles_by_db_texts [] = []
  percentiles_by_db_texts (e ∷ m) =
      text "Percentiles (By DB)" ∷ all_of (db_percentile_texts (e ∷ m)) (sorted_keys (e ∷ m))

  unfoldable pub front_texts : (ℕ → Bytes) → ReportData x → List Bytes
  front_texts rfc3339 r =
      text "SQL Log Report"
      ∷ (text "Generated at: "
          ++ (rfc3339 r.generated_at ++ (text " (" ++ (r.timezone ++ text ")"))))
      ∷ (text "Range: " ++ (rfc3339 r.summary.from ++ (text "  to  " ++ rfc3339 r.summary.to)))
      ∷ (summary_texts r.summary
          ++ (overall_percentile_texts r.percentiles_overall
              ++ (percentiles_by_db_texts r.percentiles_by_db
                  ++ (overall_pattern_texts r.top_patterns_overall
                      ++ patterns_by_db_texts r.top_patterns_by_db))))
