-- ===== src/Sqllog/Report/Filter.antt =====
-- internal/sqllog/report.go: the filter of a report, its defaults, and what Analyze makes of it. A
-- fraction is given in hundredths: every float of the program that stands for one is an integer
-- divided by 100. A time is a number of nanoseconds since the zero time, in any location.
pub mod Prepared
use anti_river_ten_demo.Prelude.{
  ℕ, zero, suc, ◌+◌, ◌-◌, ◌*◌, Bool, true, false, ◌||◌, List, [], ◌∷◌, map, ltb, ◌==◌, length, take,
  if◌then◌else◌,
}
use anti_river_ten_demo.Prelude.Int.{ℤ, pos, pos_part, ltb_ℤ, leb_ℤ}
use anti_river_ten_demo.Prelude.Sort.{sort_ints, add_once}
use anti_river_ten_demo.Strings.{Bytes}
use anti_river_ten_demo.Sqllog.{SqlLog}
use anti_river_ten_demo.Sqllog.Report.{
  default_max_anomalies, max_anomalies_cap, clamp_limit, threshold_or, in_scope, is_anomaly,
}

abbrev pub default_slow_ms : ℤ
default_slow_ms = pos 1000

abbrev pub default_freq_slow_ms : ℤ
default_freq_slow_ms = pos 500

abbrev pub default_freq_count : ℤ
default_freq_count = pos 100

abbrev pub default_top_patterns : ℤ
default_top_patterns = pos 20

abbrev pub max_top_patterns : ℤ
max_top_patterns = pos 200

abbrev pub max_percentiles_count : ℕ
max_percentiles_count = 10

abbrev pub default_percentiles_fractions : List ℤ
default_percentiles_fractions = pos 50 ∷ pos 75 ∷ pos 90 ∷ pos 95 ∷ pos 99 ∷ []

pub record ReportFilter : Type 0 where
  pub from : ℕ
  pub to : ℕ
  pub db : Bytes
  pub limit : ℤ
  pub slow_ms : ℤ
  pub freq_slow_ms : ℤ
  pub freq_count : ℤ
  pub max_cap : ℤ
  pub pcts : List ℤ
  pub top_patterns : ℤ

-- 24 * time.Hour in nanoseconds.
abbrev pub day : ℕ
day = 86400000000000

unfoldable pub default_filter : ℕ → ReportFilter
default_filter now = record {
  from = now - 7 * day;
  to = now;
  db = [];
  limit = default_max_anomalies;
  slow_ms = default_slow_ms;
  freq_slow_ms = default_freq_slow_ms;
  freq_count = default_freq_count;
  max_cap = max_anomalies_cap;
  pcts = default_percentiles_fractions;
  top_patterns = default_top_patterns;
}

-- The key of a fraction between 0 and 1: the fraction is clamped first.
unfoldable pub fraction_key : ℤ → ℕ
fraction_key v = if ltb_ℤ v (pos 0) then 0 else if ltb_ℤ (pos 100) v then 100 else pos_part v

-- The keys behind those that were kept.
unfoldable pub fraction_keys : List ℤ → List ℕ → List ℕ
fraction_keys [] keys = keys
fraction_keys (v ∷ vs) keys = fraction_keys vs (add_once (fraction_key v) keys)

unfoldable pub sanitize_fractions : List ℤ → List ℤ
sanitize_fractions pcts = map pos (sort_ints (fraction_keys pcts []))

-- The first bound of the window, and the last one for that.
abbrev pub from_or : ℕ → ℕ → ℕ
from_or d from = if from == 0 then d else from

abbrev pub to_or : ℕ → ℕ → ℕ → ℕ
to_or d from to = if to == 0 || ltb to from then d else to

unfoldable pub pcts_or : List ℤ → List ℤ
pcts_or [] = default_percentiles_fractions
pcts_or (p ∷ pcts) = p ∷ pcts

unfoldable pub clamp_top_patterns : ℤ → ℤ
clamp_top_patterns n =
    if leb_ℤ n (pos 0)
    then default_top_patterns
    else if ltb_ℤ max_top_patterns n
    then max_top_patterns
    else n

-- The filter that Analyze works with: the whole part of it above the first query.
unfoldable pub prepare : ℕ → ReportFilter → ReportFilter
unfolding default_filter
prepare now f =
    let df = default_filter now in
    let from = from_or df.from f.from in
    record {
      from = from;
      to = to_or df.to from f.to;
      db = f.db;
      limit = clamp_limit f.limit f.max_cap;
      slow_ms = threshold_or f.slow_ms default_slow_ms;
      freq_slow_ms = threshold_or f.freq_slow_ms default_freq_slow_ms;
      freq_count = threshold_or f.freq_count default_freq_count;
      max_cap = f.max_cap;
      pcts = sanitize_fractions (take max_percentiles_count (pcts_or f.pcts));
      top_patterns = clamp_top_patterns f.top_patterns;
    }

-- applyFilters, and applyAnomalyFilters behind it.
unfoldable pub in_filter : ReportFilter → SqlLog → Bool
in_filter f = in_scope f.from f.to f.db

unfoldable pub anomaly_in : ReportFilter → SqlLog → Bool
anomaly_in f = is_anomaly f.slow_ms f.freq_slow_ms f.freq_count
