-- ===== src/Handlers/Report/Answers.antt =====
-- internal/http/handlers/sqllog_report.go: what the handlers of the reports answer.
use anti_river_ten_demo.Prelude.{ℕ, ◌≡◌, refl, ◌⊎◌, inl, inr}
use anti_river_ten_demo.Exec.{Result, ok, err, fail_with, continue, pure, lift, catch, ◌>>=◌}
use anti_river_ten_demo.Db.Laws.{TableLaws}
use anti_river_ten_demo.Handlers.{Request, finish}
use anti_river_ten_demo.Handlers.Report.{
  Outside, ReportReply, report_error, report_json, report_file, bad_filter, not_built, filter_of,
  build_report, report_json_handler, disposition,
}
use anti_river_ten_demo.Handlers.Report.Filter.{FilterError}
use anti_river_ten_demo.Sqllog.{SqlLog}
use anti_river_ten_demo.Sqllog.Report.Analyze.{ReportData, analyze}
use anti_river_ten_demo.Sqllog.Report.Analyze.Counts.{GroupLaws, Reported, analyze-Reported}
use anti_river_ten_demo.Sqllog.Report.Filter.{ReportFilter, prepare}
use anti_river_ten_demo.Sqllog.Stats.{Floats}
use anti_river_ten_demo.Sqllog.Stats.Compute.{ReportStore, ReportError}

module _ (x : Floats) (o : Outside x) (b : ReportStore) {Stored : SqlLog → SqlLog → Type 0}
    {touch : ℕ → SqlLog → SqlLog} {Apart : b.World → b.World → Type 0}
    (laws : TableLaws b.logs Stored touch Apart) (groups : GroupLaws b) (now later : ℕ)
    (r : Request) where
  open b use {World, logs}

  abbrev Filtered : ReportFilter → Type 0
  Filtered g = filter_of x o b now later r ≡ ok g

  -- An error: of the query, and then nothing has happened, or of Analyze.
  abbrev Refused : ℕ → World → World → Type 0
  Refused code w w' =
      ((code ≡ 400) × (w' ≡ w) × (e : FilterError) × (filter_of x o b now later r ≡ err e))
      ⊎ ((code ≡ 500)
          × (g : ReportFilter) × Filtered g
          × (e : ReportError) × (analyze x b later g w ≡ (err e, w')))

  -- A report over the records as they were, for the filter of the query.
  abbrev Built : ReportData x → World → Type 0
  Built rep w = (g : ReportFilter) × Filtered g × Reported (logs.rows w) (prepare later g) rep

  -- The answer in JSON.
  unfoldable pub JsonAnswer : World → ReportReply x × World → Type 0
  JsonAnswer w (report_error code c m, w') = Refused code w w'
  JsonAnswer w (report_json rep, w') = Built rep w
  JsonAnswer w (report_file kind disposition content, w') = ⊥

  abbrev BuiltBy : World → Result (ReportReply x) (ReportData x) × World → Type 0
  BuiltBy w (ok rep, w') = Built rep w
  BuiltBy w (err (report_error code c m), w') = Refused code w w'
  BuiltBy w (err (report_json rep), w') = ⊥
  BuiltBy w (err (report_file kind disposition content), w') = ⊥

  abbrev Analysis : Type 0
  Analysis = Result ReportError (ReportData x) × World

  analysis-BuiltBy :
      (w : World) (g : ReportFilter) (a : Analysis)
      → Filtered g
      → analyze x b later g w ≡ a
      → BuiltBy w (fail_with (not_built x o b now later) a.0, a.1)
  analysis-BuiltBy w g (ok rep, w') f h =
      (g, f, analyze-Reported x b laws groups later g w w' rep h)
  analysis-BuiltBy w g (err e, w') f h = inr (refl, g, f, e, h)

  filtered-BuiltBy :
      (w : World) (res : Result FilterError ReportFilter)
      → filter_of x o b now later r ≡ res
      → BuiltBy w (
          continue
            (fail_with (bad_filter x o b now later) res)
            (λ f. catch (not_built x o b now later) (analyze x b later f))
            w)
  unfolding catch
  filtered-BuiltBy w (ok g) h = analysis-BuiltBy w g (analyze x b later g w) h refl
  filtered-BuiltBy w (err e) h = inl (refl, refl, e, h)

  build_report-BuiltBy : (w : World) → BuiltBy w (build_report x o b now later r w)
  unfolding build_report ◌>>=◌ lift
  build_report-BuiltBy w = filtered-BuiltBy w (filter_of x o b now later r) refl

  abbrev Build : Type 0
  Build = Result (ReportReply x) (ReportData x) × World

  json_answer :
      (w : World) (built : Build)
      → BuiltBy w built
      → JsonAnswer w (finish ((λ u. built) >>= λ rep. pure (report_json rep)) w)
  unfolding JsonAnswer finish ◌>>=◌ pure
  json_answer w (ok rep, w') h = h
  json_answer w (err (report_error code c m), w') h = h
  json_answer w (err (report_json rep), w') h = absurd h
  json_answer w (err (report_file kind disposition content), w') h = absurd h

  -- If the table keeps its laws, the report in JSON answers 400 only for a query that is refused,
  -- and then nothing has happened, 500 only for an error of Analyze on a query that is accepted, and
  -- otherwise with a report over the records as they were, for the filter of the query as Analyze prepares it.
  pub report_json_handler-JsonAnswer :
      (w : World) → JsonAnswer w (report_json_handler x o b now later r w)
  unfolding report_json_handler finish ◌>>=◌
  report_json_handler-JsonAnswer w =
      json_answer w (build_report x o b now later r w) (build_report-BuiltBy w)
