-- ===== src/Handlers/Report/Filter.antt =====
-- internal/http/handlers/sqllog_report.go: the filter of the query. The two layouts of time.Parse are
-- parameters that give nanoseconds since the zero time; the hours of a time are read in UTC, which is
-- the location of a date, and only a date has ten bytes.
pub mod Accepted
use anti_river_ten_demo.Prelude.{
  ℕ, suc, ◌+◌, ◌-◌, ◌%◌, Bool, true, false, ◌&&◌, Option, none, some, List, [], ◌∷◌, ◌++◌, ◌==◌,
  length, if◌then◌else◌,
}
use anti_river_ten_demo.Prelude.Int.{ℤ, pos, ltb_ℤ}
use anti_river_ten_demo.Strings.{Bytes, text, is_empty, trim_space}
use anti_river_ten_demo.Strconv.{parse_int}
use anti_river_ten_demo.Exec.{Result, ok, err, and_then}
use anti_river_ten_demo.Handlers.{Request}
use anti_river_ten_demo.Handlers.Report.Percentiles.{PctError, parse_percentiles}
use anti_river_ten_demo.Sqllog.Report.Filter.{ReportFilter, default_filter, day}

pub data FilterError : Type 0 where
  invalid_from : FilterError
  invalid_to : FilterError
  invalid_pcts : PctError → FilterError
  invalid_top_patterns : FilterError

module _ {A : Type 0} where
  -- A parameter that is left out has its default.
  abbrev pub given_or :
      Result FilterError A → (Bytes → Result FilterError A) → Bytes → Result FilterError A
  given_or d read s = if is_empty s then d else read s

  abbrev pub time_or : FilterError → Option A → Result FilterError A
  time_or e none = err e
  time_or e (some t) = ok t

abbrev value_or : ℤ → Option ℤ → ℤ
value_or d none = d
value_or d (some v) = v

-- A number that does not parse is as one that is left out.
unfoldable pub int_or : ℤ → Bytes → ℤ
int_or d s = if is_empty s then d else value_or d (parse_int s)

-- The same, and so is one that is not positive.
unfoldable pub positive_or : ℤ → Bytes → ℤ
unfolding int_or
positive_or d s = let v = int_or d s in if ltb_ℤ (pos 0) v then v else d

unfoldable pub clamp_patterns : Option ℤ → Result FilterError ℤ
clamp_patterns none = err invalid_top_patterns
clamp_patterns (some v) =
    ok (if ltb_ℤ v (pos 1) then pos 1 else if ltb_ℤ (pos 200) v then pos 200 else v)

abbrev pub pcts_read : Result PctError (List ℤ) → Result FilterError (List ℤ)
pcts_read (ok ps) = ok ps
pcts_read (err e) = err (invalid_pcts e)

unfoldable pub is_midnight : ℕ → Bool
is_midnight t = t % day == 0

-- A date means the whole day.
unfoldable pub end_of_day : Bytes → ℕ → ℕ
unfolding is_midnight
end_of_day s t =
    if is_midnight t && length s == length (text "2006-01-02") then t + (day - 1) else t

-- strings.TrimSpace(q.Get(key))
abbrev pub param : Request → Bytes → Bytes
param r key = trim_space (r.query key)

module _ (parse_rfc3339 parse_date : Bytes → Option ℕ) where
  abbrev or_date : Option ℕ → Option ℕ → Option ℕ
  or_date (some t) o = some t
  or_date none o = o

  unfoldable pub parse_time : Bytes → Option ℕ
  parse_time s = or_date (parse_rfc3339 s) (parse_date s)

  abbrev pub read_from : Bytes → Result FilterError ℕ
  read_from s = time_or invalid_from (parse_time s)

  abbrev pub read_to : Bytes → Result FilterError ℕ
  read_to s = and_then (time_or invalid_to (parse_time s)) (λ t. ok (end_of_day s t))

  unfoldable pub parse_report_filter : ℕ → Request → Result FilterError ReportFilter
  parse_report_filter now r =
      let df = default_filter now in
      and_then (given_or (ok df.from) read_from (param r (text "from"))) λ from.
        and_then (given_or (ok df.to) read_to (param r (text "to"))) λ to.
          and_then
            (given_or (ok df.pcts) (λ s. pcts_read (parse_percentiles s)) (param r (text "pcts")))
            λ pcts.
              and_then
                (given_or (ok df.top_patterns) (λ s. clamp_patterns (parse_int s))
                  (param r (text "top_patterns")))
                λ top_patterns. ok (record {
                  from = from;
                  to = to;
                  db = param r (text "db");
                  limit = int_or df.limit (param r (text "limit"));
                  slow_ms = positive_or df.slow_ms (param r (text "slow_ms"));
                  freq_slow_ms = positive_or df.freq_slow_ms (param r (text "freq_slow_ms"));
                  freq_count = positive_or df.freq_count (param r (text "freq_count"));
                  max_cap = positive_or df.max_cap (param r (text "cap"));
                  pcts = pcts;
                  top_patterns = top_patterns;
                })
