-- ===== src/Router/Logs/Reads.antt =====
-- What the handlers of the SQL logs leave alone: whatever the queries of the repository leave alone.
use anti_river_ten_demo.Prelude.{
  ℕ, ◌≡◌, ◌⊎◌, refl, ◌∙◌, Bool, Option, none, some, List, [], ◌∷◌, inl, inr, Bool-cases,
}
use anti_river_ten_demo.Prelude.Int.{ℤ}
use anti_river_ten_demo.Strings.{Bytes, text, is_empty}
use anti_river_ten_demo.Exec.{Exec, Result, raise, pure}
use anti_river_ten_demo.Exec.Keeps.{Fixes, Fixes-pure, Fixes-catch, fixes_rules}
use anti_river_ten_demo.Db.{Query, DbError}
use anti_river_ten_demo.Handlers.{Request}
use anti_river_ten_demo.Handlers.Ai.{
  ai_analysis_handler, analyzed, analyses, analyze_query_with_ai, prompt, SortSlice,
}
use anti_river_ten_demo.Handlers.Invariant.{finish-fixed}
use anti_river_ten_demo.Handlers.Query.{list_databases_handler, list_by_db_handler}
use anti_river_ten_demo.Handlers.Report.{
  Outside, build_report, report_json_handler, report_csv_handler, report_pdf_handler,
}
use anti_river_ten_demo.Handlers.Scan.{scan_handler, scan_items, scan_list, scan_count}
use anti_river_ten_demo.Handlers.Upload.{Form, upload_handler, insert_entries}
use anti_river_ten_demo.Router.Logs.{LogCalls, log_store, report_store}
use anti_river_ten_demo.Sqllog.{SqlLog}
use anti_river_ten_demo.Sqllog.Parser.{StreamError}
use anti_river_ten_demo.Sqllog.Repo.{
  RepoError, database, insert_batch, missing_from, list_slowest, count_abnormal_with_thresholds,
  count_abnormal_by_db_with_thresholds, list_abnormal_with_thresholds,
  list_abnormal_by_db_with_thresholds, list_databases, find_by_db, find_slow_queries,
}
use anti_river_ten_demo.Sqllog.Report.Analyze.{analyze, analyze_prepared}
use anti_river_ten_demo.Sqllog.Report.Filter.{ReportFilter}
use anti_river_ten_demo.Sqllog.Report.Pdf.Drawing.{Canvas}
use anti_river_ten_demo.Sqllog.Stats.{Floats, SqlArg}
use anti_river_ten_demo.Sqllog.Stats.Compute.{
  compute_percentiles, query_percentiles, percentiles_for, compute_top_patterns, query_patterns,
}

-- The queries leave what `f` reads of the world.
pub record Quiet {W X : Type 0} (l : LogCalls W) (f : W → X) : Type 0 where
  pub count_quiet : (p : SqlLog → Bool) → Fixes f (l.logs.count_rows p)
  pub find_quiet : (q : Query SqlLog) → Fixes f (l.logs.find_rows q)
  pub distinct_quiet : Fixes f l.distinct_db_names
  pub by_db_quiet : (p : SqlLog → Bool) → Fixes f (l.count_by_db p)
  pub overall_quiet : (sql : Bytes) (args : List SqlArg) → Fixes f (l.raw_overall sql args)
  pub per_db_quiet : (sql : Bytes) (args : List SqlArg) → Fixes f (l.raw_per_db sql args)
  pub patterns_quiet : (sql : Bytes) (args : List SqlArg) → Fixes f (l.raw_patterns sql args)
  pub db_patterns_quiet : (sql : Bytes) (args : List SqlArg) → Fixes f (l.raw_db_patterns sql args)

-- A request to the AI client leaves what `f` reads.
abbrev pub ClientQuiet :
    {W X : Type 0} → Option (Bytes → Exec W Bytes (List Bytes)) → (W → X) → Type 0
ClientQuiet none f = Unit
ClientQuiet (some complete) f = (p : Bytes) → Fixes f (complete p)

Option-cases : {A : Type 0} (o : Option A) → ((a : A) × (o ≡ some a)) ⊎ (o ≡ none)
Option-cases (some a) = inl (a, refl)
Option-cases none = inr refl

module _ {W X : Type 0} (l : LogCalls W) (f : W → X) (quiet : Quiet l f) where
  open quiet use {
    count_quiet, find_quiet, distinct_quiet, by_db_quiet, overall_quiet, per_db_quiet,
    patterns_quiet, db_patterns_quiet,
  }

  quiet-list_databases : Fixes f (list_databases (log_store l))
  unfolding list_databases
  quiet-list_databases = distinct_quiet

  quiet-find_by_db : (name : Bytes) → Fixes f (find_by_db (log_store l) name)
  unfolding find_by_db
  quiet-find_by_db name = find_quiet _

  pub quiet-list_databases_handler : (w : W) → f (list_databases_handler (log_store l) w).1 ≡ f w
  unfolding list_databases_handler
  quiet-list_databases_handler = finish-fixed f _ (search (fixes_rules, quiet-list_databases))

  pub quiet-list_by_db_handler :
      (r : Request) (w : W) → f (list_by_db_handler (log_store l) r w).1 ≡ f w
  unfolding list_by_db_handler
  quiet-list_by_db_handler r = finish-fixed f _ (search (fixes_rules, quiet-find_by_db))

  quiet-scan_count :
      (name : Bytes) (time count : ℤ) → Fixes f (scan_count (log_store l) name time count)
  unfolding scan_count count_abnormal_with_thresholds count_abnormal_by_db_with_thresholds
  quiet-scan_count name time count = search (fixes_rules, count_quiet)

  quiet-scan_list :
      (name : Bytes) (limit time count : ℤ)
      → Fixes f (scan_list (log_store l) name limit time count)
  unfolding scan_list list_abnormal_with_thresholds list_abnormal_by_db_with_thresholds list_slowest
  quiet-scan_list name limit time count = search (fixes_rules, find_quiet)

  pub quiet-scan_handler : (r : Request) (w : W) → f (scan_handler (log_store l) r w).1 ≡ f w
  unfolding scan_handler scan_items
  quiet-scan_handler r =
      finish-fixed f _ (search (fixes_rules, quiet-scan_count, quiet-scan_list) depth 12)

  quiet-insert_batch :
      ((entries : List SqlLog) (size : ℕ) → Fixes f (l.create_in_batches entries size))
      → (entries : List SqlLog) → Fixes f (insert_batch (log_store l) entries)
  unfolding raise insert_batch pure
  quiet-insert_batch batches [] = Fixes-pure tt
  quiet-insert_batch batches (e ∷ entries) = record {
    at = λ w. elim (Option-cases (missing_from 0 (e ∷ entries))) [
      | inl (i, p) ↦ rw (p, insert_batch) refl
      | inr p ↦ rw (p, insert_batch) ((Fixes-catch database _ (batches (e ∷ entries) 500)).at w)
    ];
  }

  quiet-insert_entries :
      ((entries : List SqlLog) (size : ℕ) → Fixes f (l.create_in_batches entries size))
      → (repo_text : RepoError → Bytes) (entries : List SqlLog)
      → Fixes f (insert_entries (log_store l) repo_text entries)
  unfolding insert_entries
  quiet-insert_entries batches repo_text [] = Fixes-pure 0
  quiet-insert_entries batches repo_text (e ∷ entries) =
      search (fixes_rules, quiet-insert_batch batches)

  pub quiet-upload_handler :
      ((entries : List SqlLog) (size : ℕ) → Fixes f (l.create_in_batches entries size))
      → (repo_text : RepoError → Bytes) (stream_text : StreamError → Bytes) (form : Form) (w : W)
      → f (upload_handler (log_store l) repo_text stream_text form w).1 ≡ f w
  unfolding upload_handler
  quiet-upload_handler batches repo_text stream_text form =
      finish-fixed f _ (search (fixes_rules, quiet-insert_entries batches repo_text))

  module _ (x : Floats) where
    quiet-query_percentiles : (g : ReportFilter) → Fixes f (query_percentiles x (report_store l) g)
    unfolding query_percentiles
    quiet-query_percentiles g = search (fixes_rules, overall_quiet, per_db_quiet)

    quiet-percentiles_for :
        (pcts : List ℤ) (g : ReportFilter) → Fixes f (percentiles_for x (report_store l) pcts g)
    quiet-percentiles_for [] g = Fixes-pure _
    quiet-percentiles_for (p ∷ pcts) g = quiet-query_percentiles g

    quiet-compute_percentiles :
        (g : ReportFilter) → Fixes f (compute_percentiles x (report_store l) g)
    unfolding compute_percentiles
    quiet-compute_percentiles g = quiet-percentiles_for g.pcts g

    quiet-compute_top_patterns :
        (g : ReportFilter) → Fixes f (compute_top_patterns x (report_store l) g)
    unfolding compute_top_patterns query_patterns
    quiet-compute_top_patterns g = search (fixes_rules, patterns_quiet, db_patterns_quiet)

    quiet-analyze : (now : ℕ) (g : ReportFilter) → Fixes f (analyze x (report_store l) now g)
    unfolding analyze analyze_prepared
    quiet-analyze now g =
        search
          (
            fixes_rules, count_quiet, by_db_quiet, find_quiet, quiet-compute_percentiles,
            quiet-compute_top_patterns,
          )
          depth 16

    module _ (o : Outside x) (now later : ℕ) where
      quiet-build_report : (r : Request) → Fixes f (build_report x o (report_store l) now later r)
      unfolding build_report
      quiet-build_report r = search (fixes_rules, quiet-analyze)

      pub quiet-report_json_handler :
          (r : Request) (w : W) → f (report_json_handler x o (report_store l) now later r w).1 ≡ f w
      unfolding report_json_handler
      quiet-report_json_handler r = finish-fixed f _ (search (fixes_rules, quiet-build_report))

      pub quiet-report_csv_handler :
          (r : Request) (w : W) → f (report_csv_handler x o (report_store l) now later r w).1 ≡ f w
      unfolding report_csv_handler
      quiet-report_csv_handler r = finish-fixed f _ (search (fixes_rules, quiet-build_report))

      pub quiet-report_pdf_handler :
          (c : Canvas) (r : Request) (w : W)
          → f (report_pdf_handler x o (report_store l) now later c r w).1 ≡ f w
      unfolding report_pdf_handler
      quiet-report_pdf_handler c r = finish-fixed f _ (search (fixes_rules, quiet-build_report))

  quiet-analyze_query_with_ai :
      (client : Option (Bytes → Exec W Bytes (List Bytes)))
      → ClientQuiet client f
      → (p : Bytes) (w : W) → f (analyze_query_with_ai (log_store l) client p w).1 ≡ f w
  unfolding analyze_query_with_ai
  quiet-analyze_query_with_ai none asked p w = refl
  quiet-analyze_query_with_ai (some complete) asked p w = (asked (prompt p)).at w

  module _ (client : Option (Bytes → Exec W Bytes (List Bytes)))
      (asked : ClientQuiet client f) where
    quiet-analyses :
        (queries : List SqlLog) (w : W) → f (analyses (log_store l) client queries w).1 ≡ f w
    unfolding analyses
    quiet-analyses [] w = refl
    quiet-analyses (q ∷ queries) w =
        quiet-analyses queries _ ∙ quiet-analyze_query_with_ai client asked q.sql_query w

    module _ (sort_slice : SortSlice) (scanned : DbError → W → List SqlLog) where
      quiet-analyzed :
          (n : Option ℤ) (r : Result DbError (List SqlLog)) (w : W)
          → f (analyzed (log_store l) sort_slice client scanned n (r, w)).1 ≡ f w
      quiet-analyzed none r w = refl
      quiet-analyzed (some n) r w = quiet-analyses _ w

      pub quiet-ai_analysis_handler :
          (r : Request) (w : W)
          → f (ai_analysis_handler (log_store l) sort_slice client scanned r w).1 ≡ f w
      unfolding ai_analysis_handler find_slow_queries
      quiet-ai_analysis_handler r w = elim (Bool-cases (is_empty (r.query (text "db_name")))) [
        | inl e ↦ rw e refl
        | inr e ↦ rw e (quiet-analyzed _ _ _ ∙ (find_quiet _).at w)
      ]
