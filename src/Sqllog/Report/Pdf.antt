-- ===== src/Sqllog/Report/Pdf.antt =====
-- internal/sqllog/report.go: ExportPDF as a sequence of the calls of a document.
pub mod Drawing
pub mod Table
pub mod Texts
pub mod Front
pub mod Rows
pub mod Bounds
pub mod Drawn
use anti_river_ten_demo.Prelude.{
  ℕ, ◌+◌, Bool, true, false, ◌||◌, Option, none, some, List, [], ◌∷◌, ◌++◌, ltb, length,
  if◌then◌else◌,
}
use anti_river_ten_demo.Prelude.Int.{ℤ, pos}
use anti_river_ten_demo.Strings.{Bytes, text}
use anti_river_ten_demo.Strconv.{decimal, decimal_int}
use anti_river_ten_demo.Exec.{Result, fail_with}
use anti_river_ten_demo.Sqllog.Report.{truncate_one_line}
use anti_river_ten_demo.Sqllog.Report.Analyze.{ReportSummary, ReportData}
use anti_river_ten_demo.Sqllog.Report.Csv.{
  fmt_pct_set, has_any, percentiles_or_none, patterns_or_none, sorted_keys,
}
use anti_river_ten_demo.Sqllog.Report.Pdf.Drawing.{Canvas, mm, draw, for_each}
use anti_river_ten_demo.Sqllog.Report.Pdf.Table.{page_bottom, anomaly_table}
use anti_river_ten_demo.Sqllog.Stats.{Floats, get_key, PatternStat, Percentiles}

-- A read of a key that the map has, or 0.
abbrev pub count_or_0 : Option ℤ → ℤ
count_or_0 none = pos 0
count_or_0 (some n) = n

module _ (c : Canvas) where
  open c use {Doc, create, set_title, add_page, set_font, cell, ln, cell_format, get_y, output}

  abbrev pub arial : Bytes → ℕ → Doc → Doc
  arial style size = set_font (text "Arial") style size

  abbrev pub bold : Bytes
  bold = text "B"

  -- A cell of the left column, and one to the right end that ends the line.
  abbrev pub left : ℕ → Bytes → Doc → Doc
  left w t = cell_format w (mm 6) t (text "0") 0 [] false 0 []

  abbrev pub right : Bytes → Doc → Doc
  right t = cell_format 0 (mm 6) t (text "0") 1 [] false 0 []

  abbrev pub text_line : Bytes → Doc → Doc
  text_line t = cell 0 (mm 6) t

  unfoldable pub ensure_space : ℕ → Doc → Doc
  ensure_space h d = if ltb page_bottom (get_y d + h) then add_page d else d

  -- A title of a section.
  abbrev pub heading : Bytes → Doc → Doc
  heading t d = ln (mm 7) (text_line t (arial bold 12 d))

  unfoldable pub pattern_line : PatternStat → Doc → Doc
  unfolding ensure_space draw truncate_one_line
  pattern_line p = draw (
      ensure_space (mm 6)
      ∷ left (mm 140) (truncate_one_line p.pattern (pos 160))
      ∷ right (decimal_int p.occurrences)
      ∷ [])

  unfoldable pub pattern_table : List PatternStat → Doc → Doc
  unfolding pattern_line for_each draw
  pattern_table ps = draw (
      arial bold 10
      ∷ left (mm 140) (text "Pattern")
      ∷ right (text "Occurrences")
      ∷ arial [] 9
      ∷ for_each pattern_line ps
      ∷ ln (mm 3)
      ∷ [])

  unfoldable pub overall_patterns : List PatternStat → Doc → Doc
  unfolding pattern_table
  overall_patterns [] d = d
  overall_patterns (p ∷ ps) d = pattern_table (p ∷ ps) (heading (text "Top Patterns (Overall)") d)

  unfoldable pub db_patterns : List (Bytes × List PatternStat) → Bytes → Doc → Doc
  unfolding pattern_table ensure_space draw
  db_patterns m db = draw (
      arial bold 11
      ∷ ensure_space (mm 7)
      ∷ text_line (text "DB: " ++ db)
      ∷ ln (mm 7)
      ∷ pattern_table (patterns_or_none (get_key db m))
      ∷ [])

  unfoldable pub db_patterns_section : List (Bytes × List PatternStat) → Doc → Doc
  unfolding db_patterns for_each
  db_patterns_section [] d = d
  db_patterns_section (e ∷ m) d =
      for_each (db_patterns (e ∷ m)) (sorted_keys (e ∷ m)) (heading (text "Top Patterns (By DB)") d)

  abbrev pub db_count : List (Bytes × ℤ) → Bytes → Doc → Doc
  db_count m db d =
      right (decimal_int (count_or_0 (get_key db m)))
        (left (mm 60) (text " - " ++ (db ++ text ":")) d)

  unfoldable pub counts_section : List (Bytes × ℤ) → Doc → Doc
  unfolding for_each draw
  counts_section [] d = d
  counts_section (e ∷ m) d =
      draw
        (ln (mm 2)
          ∷ text_line (text "By DB:")
          ∷ ln (mm 6)
          ∷ for_each (db_count (e ∷ m)) (sorted_keys (e ∷ m))
          ∷ [])
        d

  unfoldable pub summary_section : ReportSummary → Doc → Doc
  unfolding draw counts_section
  summary_section s = draw (
      heading (text "Summary")
      ∷ arial [] 11
      ∷ left (mm 60) (text "Total queries:")
      ∷ right (decimal s.total_queries)
      ∷ left (mm 60) (text "Anomaly count:")
      ∷ right (decimal s.anomaly_count)
      ∷ left (mm 60) (text "Suggestion count:")
      ∷ right (decimal s.suggestion_count)
      ∷ counts_section s.counts_by_db
      ∷ ln (mm 6)
      ∷ [])

  module _ (x : Floats) where
    unfoldable pub overall_section : Percentiles x → Doc → Doc
    unfolding draw fmt_pct_set
    overall_section p = draw (
        heading (text "Percentiles (Overall)")
        ∷ arial [] 11
        ∷ text_line (text "exec_time_ms: " ++ fmt_pct_set x p.exec_time)
        ∷ ln (mm 6)
        ∷ text_line (text "exec_count:   " ++ fmt_pct_set x p.exec_count)
        ∷ ln (mm 8)
        ∷ [])

    unfoldable pub overall_percentiles : Percentiles x → Doc → Doc
    unfolding overall_section
    overall_percentiles p d = if has_any x p then overall_section p d else d

    unfoldable pub db_percentiles : List (Bytes × Percentiles x) → Bytes → Doc → Doc
    unfolding ensure_space draw fmt_pct_set
    db_percentiles m db =
        let p = percentiles_or_none x (get_key db m) in
        draw (
          ensure_space (mm 12)
          ∷ text_line (text "DB: " ++ db)
          ∷ ln (mm 6)
          ∷ text_line (text " - exec_time_ms: " ++ fmt_pct_set x p.exec_time)
          ∷ ln (mm 6)
          ∷ text_line (text " - exec_count:   " ++ fmt_pct_set x p.exec_count)
          ∷ ln (mm 6)
          ∷ [])

    unfoldable pub db_percentiles_section : List (Bytes × Percentiles x) → Doc → Doc
    unfolding db_percentiles for_each draw
    db_percentiles_section [] d = d
    db_percentiles_section (e ∷ m) d =
        draw
          (heading (text "Percentiles (By DB)")
            ∷ arial [] 11
            ∷ for_each (db_percentiles (e ∷ m)) (sorted_keys (e ∷ m))
            ∷ ln (mm 2)
            ∷ [])
          d

    module _ (rfc3339 : ℕ → Bytes) where
      -- The title, the time stamps and all sections in front of the table.
      unfoldable pub front : ReportData x → Doc → Doc
      unfolding draw summary_section overall_percentiles db_percentiles_section overall_patterns
          db_patterns_section
      front r = draw (
          arial bold 16
          ∷ cell 0 (mm 10) (text "SQL Log Report")
          ∷ ln (mm 12)
          ∷ arial [] 11
          ∷ text_line (
              text "Generated at: "
              ++ (rfc3339 r.generated_at ++ (text " (" ++ (r.timezone ++ text ")"))))
          ∷ ln (mm 6)
          ∷ text_line (
              text "Range: " ++ (rfc3339 r.summary.from ++ (text "  to  " ++ rfc3339 r.summary.to)))
          ∷ ln (mm 8)
          ∷ summary_section r.summary
          ∷ overall_percentiles r.percentiles_overall
          ∷ db_percentiles_section r.percentiles_by_db
          ∷ overall_patterns r.top_patterns_overall
          ∷ db_patterns_section r.top_patterns_by_db
          ∷ [])

      abbrev pub blank : Doc
      blank =
          add_page
            (set_title (text "SQL Log Report") false (create (text "P") (text "mm") (text "A4") []))

      unfoldable pub document : ReportData x → Doc
      unfolding front anomaly_table
      document r = anomaly_table c r.anomalies (front r blank)

      unfoldable pub export_pdf : ReportData x → Result Bytes Bytes
      unfolding document
      export_pdf r = fail_with (λ e. text "pdf output: " ++ e) (output (document r))
