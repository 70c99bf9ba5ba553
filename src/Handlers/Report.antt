-- ===== src/Handlers/Report.antt =====
-- internal/http/handlers/sqllog_report.go: the handlers of the reports. The clock, the layouts of
-- package time, the writer of encoding/csv and the documents of gofpdf are parameters.
pub mod Percentiles
pub mod Filter
pub mod Answers
use anti_river_ten_demo.Prelude.{ℕ, Option, List, ◌++◌, ◌∷◌, []}
use anti_river_ten_demo.Strings.{Bytes, text}
use anti_river_ten_demo.Strconv.{decimal}
use anti_river_ten_demo.Exec.{Exec, Result, ok, err, fail_with, pure, lift, catch, ◌>>=◌}
use anti_river_ten_demo.Handlers.{Request, finish}
use anti_river_ten_demo.Handlers.Report.Percentiles.{
  PctError, empty_list, non_integer, out_of_range, no_valid_values,
}
use anti_river_ten_demo.Handlers.Report.Filter.{
  FilterError, invalid_from, invalid_to, invalid_pcts, invalid_top_patterns, parse_report_filter,
}
use anti_river_ten_demo.Strconv.{decimal_int}
use anti_river_ten_demo.Sqllog.Report.Analyze.{ReportData, analyze}
use anti_river_ten_demo.Sqllog.Report.Csv.{Rows, csv_rows}
use anti_river_ten_demo.Sqllog.Report.Filter.{ReportFilter}
use anti_river_ten_demo.Sqllog.Report.Pdf.{export_pdf}
use anti_river_ten_demo.Sqllog.Report.Pdf.Drawing.{Canvas}
use anti_river_ten_demo.Sqllog.Stats.{Floats}
use anti_river_ten_demo.Sqllog.Stats.Compute.{ReportStore, ReportError}

-- What the handlers take from other packages.
pub record Outside (x : Floats) : Type 0 where
  pub parse_rfc3339 : Bytes → Option ℕ
  pub parse_date : Bytes → Option ℕ
  pub format_rfc3339 : ℕ → Bytes
  pub stamp : ℕ → Bytes
  pub quote : Bytes → Bytes
  pub write_csv : Rows → Result Bytes Bytes

-- writeError, writeJSON, or a file with its two headers and its content.
pub data ReportReply (x : Floats) : Type 0 where
  report_error : ℕ → Bytes → Bytes → ReportReply x
  report_json : ReportData x → ReportReply x
  report_file : Bytes → Bytes → Bytes → ReportReply x

module _ (quote : Bytes → Bytes) where
  unfoldable pub pct_error_text : PctError → Bytes
  pct_error_text empty_list = text "empty"
  pct_error_text (non_integer p) = text "non-integer " ++ quote p
  pct_error_text (out_of_range n) = text "out of range " ++ decimal_int n
  pct_error_text no_valid_values = text "no valid values"

  unfoldable pub filter_error_text : FilterError → Bytes
  filter_error_text invalid_from = text "invalid 'from': must be RFC3339 or YYYY-MM-DD"
  filter_error_text invalid_to = text "invalid 'to': must be RFC3339 or YYYY-MM-DD"
  filter_error_text (invalid_pcts e) = text "invalid 'pcts': " ++ pct_error_text e
  filter_error_text invalid_top_patterns = text "invalid 'top_patterns'"

module _ (x : Floats) (o : Outside x) (b : ReportStore) (now later : ℕ) where
  open b use {World}
  open o use {parse_rfc3339, parse_date, format_rfc3339, stamp, quote, write_csv}

  unfoldable pub build_filename : Bytes → Bytes
  build_filename ext = text "sql-report-" ++ (stamp later ++ b'.' ∷ ext)

  abbrev pub bad_filter : FilterError → ReportReply x
  bad_filter e = report_error 400 (text "bad_request") (filter_error_text quote e)

  abbrev pub not_built : ReportError → ReportReply x
  not_built e = report_error 500 (text "internal_error") (text "could not build report")

  abbrev pub not_exported : Bytes → Bytes → ReportReply x
  not_exported format e =
      report_error 500 (text "internal_error") (text "could not export " ++ format)

  unfoldable pub filter_of : Request → Result FilterError ReportFilter
  filter_of r = parse_report_filter parse_rfc3339 parse_date now r

  -- The filter of the query, and the report for it.
  unfoldable pub build_report : Request → Exec World (ReportReply x) (ReportData x)
  build_report r = do
    f ← lift (fail_with bad_filter (filter_of r))
    catch not_built (analyze x b later f)

  unfoldable pub report_json_handler : Request → World → ReportReply x × World
  report_json_handler r = finish (do rep ← build_report r; pure (report_json rep))

  abbrev pub disposition : Bytes → Bytes
  disposition ext = text "attachment; filename=" ++ quote (build_filename ext)

  unfoldable pub report_csv_handler : Request → World → ReportReply x × World
  report_csv_handler r = finish (do
    rep ← build_report r
    content ←
        lift (fail_with (not_exported (text "csv")) (write_csv (csv_rows x format_rfc3339 rep)))
    pure (report_file (text "text/csv; charset=utf-8") (disposition (text "csv")) content))

  unfoldable pub report_pdf_handler : Canvas → Request → World → ReportReply x × World
  report_pdf_handler c r = finish (do
    rep ← build_report r
    content ← lift (fail_with (not_exported (text "pdf")) (export_pdf c x format_rfc3339 rep))
    pure (report_file (text "application/pdf") (disposition (text "pdf")) content))
