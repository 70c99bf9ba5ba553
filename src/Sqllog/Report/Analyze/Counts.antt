-- ===== src/Sqllog/Report/Analyze/Counts.antt =====
-- internal/sqllog/report.go: what a report that Analyze returns says of the records.
use anti_river_ten_demo.Prelude.{
  ℕ, ◌≤◌, ◌≡◌, refl, subst, ap, ◌∙◌, Bool, true, false, ◌&&◌, some, List, [], ◌∷◌, map, count,
  length, All, Elem, arith,
}
use anti_river_ten_demo.Prelude.Int.{ℤ, pos, negsuc, pos_part, ◌≤ℤ◌}
use anti_river_ten_demo.Strings.{Bytes, text}
use anti_river_ten_demo.Exec.{Result, ok, pure, catch}
use anti_river_ten_demo.Exec.Keeps.{bind-ok, catch-ok}
use anti_river_ten_demo.Db.Laws.{TableLaws, Listed, Counted, AtMost}
use anti_river_ten_demo.Sqllog.{SqlLog}
use anti_river_ten_demo.Sqllog.Report.{list_contains, derive_reasons_and_suggestions}
use anti_river_ten_demo.Sqllog.Report.Anomalies.{derive_reasons_and_suggestions_lem}
use anti_river_ten_demo.Sqllog.Report.Filter.{ReportFilter, prepare, in_filter, anomaly_in}
use anti_river_ten_demo.Sqllog.Report.Filter.Prepared.{prepare-Prepared}
use anti_river_ten_demo.Sqllog.Report.Analyze.{
  ReportData, anomaly_detail, has_suggestions, anomalous, anomaly_query, analyze_prepared, analyze,
}
use anti_river_ten_demo.Sqllog.Stats.{Floats}
use anti_river_ten_demo.Sqllog.Stats.Compute.{
  ReportStore, ReportError, count_total, by_db, list_anomalies, count_anomalies,
}

-- What the group by query promises of the table: it changes nothing.
pub record GroupLaws (b : ReportStore) : Type 0 where
  pub group_kept :
      (p : SqlLog → Bool) (w : b.World) → b.logs.rows (b.count_by_db p w).1 ≡ b.logs.rows w

-- A report over the records, for a filter.
pub record Reported {x : Floats} (rows : List SqlLog) (f : ReportFilter) (rep : ReportData x)
    : Type 0 where
  pub total : rep.summary.total_queries ≡ count (in_filter f) rows
  pub anomalies_counted : rep.summary.anomaly_count ≡ count (anomalous f) rows
  pub within : rep.summary.anomaly_count ≤ rep.summary.total_queries
  pub source :
      (xs : List SqlLog) × (rep.anomalies ≡ map (anomaly_detail f) xs)
      × All (λ it. Elem it rows × (anomalous f it ≡ true)) xs
  pub capped : length rep.anomalies ≤ pos_part f.limit
  pub all_suggest : rep.summary.suggestion_count ≡ length rep.anomalies

contains-some : (s : Bytes) (sl : List Bytes) → list_contains sl s ≡ true → sl ≡ [] → ⊥
unfolding list_contains
contains-some s [] h e = cc
contains-some s (c ∷ sl) h e = cc

detail-suggests :
    (f : ReportFilter) (it : SqlLog)
    → anomaly_in f it ≡ true
    → has_suggestions (anomaly_detail f it) ≡ true
unfolding anomaly_detail anomaly_in
detail-suggests f it h =
    let (e, _, _) = derive_reasons_and_suggestions_lem it f.slow_ms f.freq_slow_ms f.freq_count in
    not_empty (derive_reasons_and_suggestions it f.slow_ms f.freq_slow_ms f.freq_count).1 (e ∙ h)
  where
    not_empty :
        (sl : List Bytes)
        → list_contains sl (text "add_index_on_where_columns") ≡ true
        → elim sl as (λ x. Bool) [ [] ↦ false | ◌∷◌ s rest ↦ true ] ≡ true
    not_empty [] h = absurd (contains-some _ [] h refl)
    not_empty (s ∷ sl) h = refl

both-second : (a b : Bool) → (a && b) ≡ true → b ≡ true
both-second a b h = ground arith

each_suggests :
    (f : ReportFilter) (rows xs : List SqlLog)
    → All (λ it. Elem it rows × (anomalous f it ≡ true)) xs
    → count has_suggestions (map (anomaly_detail f) xs) ≡ length (map (anomaly_detail f) xs)
unfolding anomalous
each_suggests f rows [] h = refl
each_suggests f rows (it ∷ xs) ((el, a), h) =
    rw (detail-suggests f it (both-second (in_filter f it) (anomaly_in f it) a))
      (omega (arith, each_suggests f rows xs h))

count-both :
    (f : ReportFilter) (rows : List SqlLog) → count (anomalous f) rows ≤ count (in_filter f) rows
unfolding anomalous
count-both f [] = omega arith
count-both f (it ∷ rows) = ground (arith, count-both f rows)

length-map : {A B : Type 0} (g : A → B) (xs : List A) → length (map g xs) ≡ length xs
length-map g [] = refl
length-map g (x ∷ xs) = omega (arith, length-map g xs)

AtMost-positive : (limit : ℤ) (n : ℕ) → pos 1 ≤ℤ limit → AtMost (some limit) n → n ≤ pos_part limit
AtMost-positive (pos k) n h a = a
AtMost-positive (negsuc k) n h a = absurd (omega (arith, h))

module _ (x : Floats) (b : ReportStore) {Stored : SqlLog → SqlLog → Type 0}
    {touch : ℕ → SqlLog → SqlLog} {Outside : b.World → b.World → Type 0}
    (laws : TableLaws b.logs Stored touch Outside) (groups : GroupLaws b) where
  open b use {World, logs, count_by_db}

  abbrev returned : ReportData x → World → Result ReportError (ReportData x) × World
  returned r w = (ok r, w)

  returned-inj : (r rep : ReportData x) (w w' : World) → returned r w ≡ returned rep w' → r ≡ rep
  returned-inj r rep w w' h = cc

  prepared-Reported :
      (now : ℕ) (f : ReportFilter) (w w' : World) (rep : ReportData x)
      → pos 1 ≤ℤ f.limit
      → analyze_prepared x b now f w ≡ (ok rep, w')
      → Reported (logs.rows w) f rep
  unfolding analyze_prepared catch pure
  prepared-Reported now f w w' rep positive h =
      let total_m = catch count_total (logs.count_rows (in_filter f)) in
      let rows_m = catch by_db (count_by_db (in_filter f)) in
      let source_m = catch list_anomalies (logs.find_rows (anomaly_query f)) in
      let count_m = catch count_anomalies (logs.count_rows (anomalous f)) in
      let (total, t, h1) = bind-ok total_m _ w h in
      let (rows, r, h2) = bind-ok rows_m _ _ h1 in
      let (source, s, h3) = bind-ok source_m _ _ h2 in
      let (n, c, h4) = bind-ok count_m _ _ h3 in
      let (pcts, _, h5) = bind-ok _ _ _ h4 in
      let (top, _, h6) = bind-ok _ _ _ h5 in
      let w1 = (total_m w).1 in
      let w2 = (rows_m w1).1 in
      let w3 = (source_m w2).1 in
      let k1 : logs.rows w1 ≡ logs.rows w = laws.count_kept (in_filter f) w in
      let k2 : logs.rows w2 ≡ logs.rows w = groups.group_kept (in_filter f) w1 ∙ k1 in
      let k3 : logs.rows w3 ≡ logs.rows w = laws.find_kept (anomaly_query f) w2 ∙ k2 in
      let t' =
        subst (Counted (in_filter f) (logs.rows w))
          (catch-ok count_total (logs.count_rows (in_filter f)) w t)
          (laws.count_answer (in_filter f) w) in
      let c' =
        subst (Counted (anomalous f) (logs.rows w3))
          (catch-ok count_anomalies (logs.count_rows (anomalous f)) w3 c)
          (laws.count_answer (anomalous f) w3) in
      let (each, most) =
        subst (Listed (anomaly_query f) (logs.rows w2))
          (catch-ok list_anomalies (logs.find_rows (anomaly_query f)) w2 s)
          (laws.find_answer (anomaly_query f) w2) in
      let n_all : n ≡ count (anomalous f) (logs.rows w) = c' ∙ ap (count (anomalous f)) k3 in
      let here = subst (λ rs. All (λ it. Elem it rs × (anomalous f it ≡ true)) source) k2 each in
      subst (Reported (logs.rows w) f) (returned-inj _ rep _ w' h6) (record {
        total = t';
        anomalies_counted = n_all;
        within = omega (arith, t', n_all, count-both f (logs.rows w));
        source = (source, refl, here);
        capped = omega (
          arith,
          length-map (anomaly_detail f) source,
          AtMost-positive f.limit (length source) positive most,
        );
        all_suggest = each_suggests f (logs.rows w) source here;
      })

  -- If the table and the group by query keep their laws, a report that Analyze returns has as its
  -- total the number of records in the window and of the database, counts as anomalies those of them
  -- that are above the thresholds, and lists only such records, no more than the limit; every listed
  -- anomaly has a suggestion, so the suggestion count is the number of listed anomalies. The window,
  -- the thresholds and the limit are those of the prepared filter.
  pub analyze-Reported :
      (now : ℕ) (f : ReportFilter) (w w' : World) (rep : ReportData x)
      → analyze x b now f w ≡ (ok rep, w')
      → Reported (logs.rows w) (prepare now f) rep
  unfolding analyze
  analyze-Reported now f w w' rep h =
      let p = prepare-Prepared now f in prepared-Reported now (prepare now f) w w' rep p.limited h
