-- ===== src/Router/Logs.antt =====
-- internal/http/router.go: the routes of the SQL logs with the guards that the router puts in front
-- of them. The repository works in the world of the service, on tables of its own.
pub mod Guarded
pub mod Reads
use anti_river_ten_demo.Prelude.{ℕ, Bool, Option, List}
use anti_river_ten_demo.Prelude.Int.{ℤ}
use anti_river_ten_demo.Strings.{Bytes, text}
use anti_river_ten_demo.Exec.{Exec}
use anti_river_ten_demo.Config.{Config}
use anti_river_ten_demo.Db.{Table, DbError}
use anti_river_ten_demo.Auth.{Backend}
use anti_river_ten_demo.Handlers.{Reply, json, status, Request}
use anti_river_ten_demo.Handlers.Ai.{
  AnalysisReply, success, failure, SortSlice, ai_analysis_handler,
}
use anti_river_ten_demo.Handlers.Guards.{require_auth}
use anti_river_ten_demo.Handlers.Query.{list_databases_handler, list_by_db_handler}
use anti_river_ten_demo.Handlers.Report.{
  Outside, ReportReply, report_error, report_json, report_file, report_json_handler,
  report_csv_handler, report_pdf_handler,
}
use anti_river_ten_demo.Handlers.Scan.{scan_handler}
use anti_river_ten_demo.Handlers.Upload.{Form, upload_handler}
use anti_river_ten_demo.Router.{admin_middleware, role_middleware, answer}
use anti_river_ten_demo.Sqllog.{SqlLog}
use anti_river_ten_demo.Sqllog.Parser.{StreamError}
use anti_river_ten_demo.Sqllog.Repo.{LogStore, RepoError}
use anti_river_ten_demo.Sqllog.Report.Pdf.Drawing.{Canvas}
use anti_river_ten_demo.Sqllog.Stats.{Floats, SqlArg, PatternStat}
use anti_river_ten_demo.Sqllog.Stats.Compute.{ReportStore, DbPercentiles, DbPattern}

-- What the repository calls, in a world.
pub record LogCalls (W : Type 0) : Type 0 where
  pub logs : Table W SqlLog
  pub create_in_batches : List SqlLog → ℕ → Exec W DbError (Unit {0})
  pub distinct_db_names : Exec W DbError (List Bytes)
  pub count_by_db : (SqlLog → Bool) → Exec W DbError (List (Bytes × ℤ))
  pub raw_overall : Bytes → List SqlArg → Exec W DbError (Bytes × Bytes)
  pub raw_per_db : Bytes → List SqlArg → Exec W DbError (List DbPercentiles)
  pub raw_patterns : Bytes → List SqlArg → Exec W DbError (List PatternStat)
  pub raw_db_patterns : Bytes → List SqlArg → Exec W DbError (List DbPattern)

module _ {W : Type 0} (l : LogCalls W) where
  abbrev pub log_store : LogStore
  log_store = record {
    World = W;
    logs = l.logs;
    create_in_batches = l.create_in_batches;
    distinct_db_names = l.distinct_db_names;
  }

  abbrev pub report_store : ReportStore
  report_store = record {
    World = W;
    logs = l.logs;
    count_by_db = l.count_by_db;
    raw_overall = l.raw_overall;
    raw_per_db = l.raw_per_db;
    raw_patterns = l.raw_patterns;
    raw_db_patterns = l.raw_db_patterns;
  }

-- What the handlers take from other packages.
pub record LogOutside (W : Type 0) : Type 1 where
  pub floats : Floats
  pub reports : Outside floats
  pub canvas : Canvas
  pub repo_text : RepoError → Bytes
  pub stream_text : StreamError → Bytes
  pub sort_slice : SortSlice
  pub scanned : DbError → W → List SqlLog
  pub client : Option (Bytes → Exec W Bytes (List Bytes))

-- A call of a route, with what is read of the body.
pub data LogCall : Type 0 where
  upload : Form → LogCall
  databases : LogCall
  list_by_db : LogCall
  scan : LogCall
  scan_preflight : LogCall
  ai_analysis : LogCall
  report : LogCall
  report_in_csv : LogCall
  report_in_pdf : LogCall

abbrev pub analysis_status : AnalysisReply → ℕ
analysis_status (success data_list) = 200
analysis_status (failure code m) = code

abbrev pub report_status : {x : Floats} → ReportReply x → ℕ
report_status (report_error code c m) = code
report_status (report_json rep) = 200
report_status (report_file kind disposition content) = 200

module _ {W A : Type 0} where
  -- A reply of another kind, under its status.
  abbrev pub under : (A → ℕ) → A × W → Reply A × W
  under code (a, w) = (json (code a) a, w)

module _ (b : Backend) (cfg : Config) (l : LogCalls b.World) (o : LogOutside b.World)
    (now later : ℕ) where
  open b use {World}

  abbrev store : LogStore
  store = log_store l

  abbrev pub csv_of : Request → World → Reply (ReportReply o.floats) × World
  csv_of r w =
      under report_status (report_csv_handler o.floats o.reports (report_store l) now later r w)

  abbrev pub pdf_of : Request → World → Reply (ReportReply o.floats) × World
  pdf_of r w =
      under report_status
        (report_pdf_handler o.floats o.reports (report_store l) now later o.canvas r w)

  abbrev pub json_of : Request → World → Reply (ReportReply o.floats) × World
  json_of r w =
      under report_status (report_json_handler o.floats o.reports (report_store l) now later r w)

  -- The status and the world after a call.
  unfoldable pub serve_logs : LogCall → Request → World → ℕ × World
  serve_logs (upload form) r w =
      answer (require_auth b cfg (λ r'. upload_handler store o.repo_text o.stream_text form) r w)
  serve_logs databases r w = answer (require_auth b cfg (λ r'. list_databases_handler store) r w)
  serve_logs list_by_db r w = answer (require_auth b cfg (list_by_db_handler store) r w)
  serve_logs scan r w = answer (require_auth b cfg (scan_handler store) r w)
  serve_logs scan_preflight r w = (204, w)
  serve_logs ai_analysis r w =
      answer (under analysis_status (ai_analysis_handler store o.sort_slice o.client o.scanned r w))
  serve_logs report r w = answer (admin_middleware b cfg json_of r w)
  serve_logs report_in_csv r w = answer (role_middleware b cfg csv_of r w)
  serve_logs report_in_pdf r w = answer (role_middleware b cfg pdf_of r w)
