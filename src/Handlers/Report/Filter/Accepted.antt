-- ===== src/Handlers/Report/Filter/Accepted.antt =====
-- internal/http/handlers/sqllog_report.go and internal/sqllog/report.go: what Analyze does with a
-- filter that the query was accepted for.
use anti_river_ten_demo.Prelude.{
  ℕ, ◌-◌, ◌*◌, ◌≡◌, refl, subst, ◌∙◌, ap, inl, inr, true, false, Option, none, some, List, [], ◌∷◌,
  map, take, take_all, length, Bool-cases, arith,
}
use anti_river_ten_demo.Prelude.Int.{ℤ, pos, ltb_ℤ, leb_ℤ}
use anti_river_ten_demo.Strings.{Bytes, text, is_empty}
use anti_river_ten_demo.Strconv.{parse_int}
use anti_river_ten_demo.Exec.{Result, ok, err}
use anti_river_ten_demo.Exec.Keeps.{and_then-ok}
use anti_river_ten_demo.Handlers.{Request}
use anti_river_ten_demo.Handlers.Report.Percentiles.{PctError, parse_percentiles}
use anti_river_ten_demo.Handlers.Report.Percentiles.Chosen.{parse_percentiles-Chosen}
use anti_river_ten_demo.Handlers.Report.Filter.{
  FilterError, given_or, int_or, positive_or, clamp_patterns, pcts_read, param, read_from, read_to,
  parse_report_filter,
}
use anti_river_ten_demo.Sqllog.Report.{threshold_or}
use anti_river_ten_demo.Sqllog.Report.Filter.{
  ReportFilter, default_filter, day, fraction_key, fraction_keys, sanitize_fractions, pcts_or,
  clamp_top_patterns, prepare, default_percentiles_fractions,
}
use anti_river_ten_demo.Sqllog.Report.Filter.Prepared.{Percents, sanitize_fractions-Increasing}

-- What Analyze leaves of a filter as it is.
pub record Unchanged (g f : ReportFilter) : Type 0 where
  pub db : f.db ≡ g.db
  pub slow_ms : f.slow_ms ≡ g.slow_ms
  pub freq_slow_ms : f.freq_slow_ms ≡ g.freq_slow_ms
  pub freq_count : f.freq_count ≡ g.freq_count
  pub max_cap : f.max_cap ≡ g.max_cap
  pub pcts : f.pcts ≡ g.pcts
  pub top_patterns : f.top_patterns ≡ g.top_patterns

module _ {E A : Type 0} where
  abbrev ok_of : A → Result E A
  ok_of x = ok x

  ok-inj : {x y : A} → ok_of x ≡ ok_of y → x ≡ y
  ok-inj h = cc

positive_or-kept :
    (d e : ℤ) (s : Bytes)
    → ltb_ℤ (pos 0) d ≡ true
    → threshold_or (positive_or d s) e ≡ positive_or d s
unfolding threshold_or positive_or
positive_or-kept d e s h = elim (Bool-cases (ltb_ℤ (pos 0) (int_or d s))) [
  | inl f ↦ let g : leb_ℤ (int_or d s) (pos 0) ≡ false = ground arith in rw (f, g) refl
  | inr f ↦ let g : leb_ℤ d (pos 0) ≡ false = ground arith in rw (f, g) refl
]

clamp_patterns-kept : (o : Option ℤ) (n : ℤ) → clamp_patterns o ≡ ok n → clamp_top_patterns n ≡ n
unfolding clamp_patterns clamp_top_patterns
clamp_patterns-kept none n h = cc
clamp_patterns-kept (some v) n h = rw (← ok-inj h) (ground arith)

patterns-kept :
    (s : Bytes) (n : ℤ)
    → given_or (ok (pos 20)) (λ s. clamp_patterns (parse_int s)) s ≡ ok n
    → clamp_top_patterns n ≡ n
unfolding clamp_top_patterns
patterns-kept s n h = elim (Bool-cases (is_empty s)) [
  | inl e ↦ rw (← ok-inj {E = FilterError} (rw e at h)) refl
  | inr e ↦ clamp_patterns-kept (parse_int s) n (rw e at h)
]

sanitize-Percents :
    (ns : List ℕ) → Percents ns → sanitize_fractions (take 10 (pcts_or (map pos ns))) ≡ map pos ns
unfolding pcts_or
sanitize-Percents [] p = absurd (omega (arith, p.some_value))
sanitize-Percents (n ∷ ns) p =
    ap sanitize_fractions (take_all 10 (map pos (n ∷ ns)) (omega (arith, p.few, length-pos ns)))
    ∙ sanitize_fractions-Increasing (n ∷ ns) p.increasing p.bounded
  where
    length-pos : (ns : List ℕ) → length (map pos ns) ≡ length ns
    length-pos [] = refl
    length-pos (n ∷ ns) = omega (arith, length-pos ns)

pcts_read-kept : (r : Result PctError (List ℤ)) (ps : List ℤ) → pcts_read r ≡ ok ps → r ≡ ok ps
pcts_read-kept (ok qs) ps h = rw (ok-inj h) refl
pcts_read-kept (err e) ps h = cc

default-kept :
    sanitize_fractions (take 10 (pcts_or default_percentiles_fractions))
    ≡ default_percentiles_fractions
unfolding sanitize_fractions fraction_keys fraction_key pcts_or
default-kept = refl

pcts-kept :
    (s : Bytes) (ps : List ℤ)
    → given_or (ok default_percentiles_fractions) (λ s. pcts_read (parse_percentiles s)) s ≡ ok ps
    → sanitize_fractions (take 10 (pcts_or ps)) ≡ ps
pcts-kept s ps h = elim (Bool-cases (is_empty s)) [
  | inl e ↦
      subst (λ qs. sanitize_fractions (take 10 (pcts_or qs)) ≡ qs)
        (ok-inj {E = FilterError} {A = List ℤ} (rw e at h)) default-kept
  | inr e ↦
      let (ns, c, q) =
        parse_percentiles-Chosen s ps (pcts_read-kept (parse_percentiles s) ps (rw e at h)) in
      rw q (sanitize-Percents ns c.percents)
]

-- Analyze takes the thresholds, the percentiles and the number of patterns of an accepted query as
-- they are: its own defaults and bounds change nothing of them.
pub prepare-parse_report_filter :
    (parse_rfc3339 parse_date : Bytes → Option ℕ) (now later : ℕ) (r : Request) (g : ReportFilter)
    → parse_report_filter parse_rfc3339 parse_date now r ≡ ok g
    → Unchanged g (prepare later g)
unfolding parse_report_filter prepare default_filter
prepare-parse_report_filter parse_rfc3339 parse_date now later r g h =
    let first =
      given_or (ok (now - 7 * day)) (read_from parse_rfc3339 parse_date) (param r (text "from")) in
    let last = given_or (ok now) (read_to parse_rfc3339 parse_date) (param r (text "to")) in
    let read =
      given_or (ok default_percentiles_fractions) (λ s. pcts_read (parse_percentiles s))
        (param r (text "pcts")) in
    let number =
      given_or (ok (pos 20)) (λ s. clamp_patterns (parse_int s)) (param r (text "top_patterns")) in
    let (from, _, h1) = and_then-ok {A = ℕ} first _ h in
    let (to, _, h2) = and_then-ok {A = ℕ} last _ h1 in
    let (pcts, p, h3) = and_then-ok {A = List ℤ} read _ h2 in
    let (top, t, h4) = and_then-ok {A = ℤ} number _ h3 in
    let e = ok-inj {E = FilterError} {A = ReportFilter} h4 in
    subst (λ g. Unchanged g (prepare later g)) e
      (record {
        db = refl;
        slow_ms = positive_or-kept (pos 1000) (pos 1000) (param r (text "slow_ms")) refl;
        freq_slow_ms = positive_or-kept (pos 500) (pos 500) (param r (text "freq_slow_ms")) refl;
        freq_count = positive_or-kept (pos 100) (pos 100) (param r (text "freq_count")) refl;
        max_cap = refl;
        pcts = pcts-kept (param r (text "pcts")) pcts p;
        top_patterns = patterns-kept (param r (text "top_patterns")) top t;
      })
