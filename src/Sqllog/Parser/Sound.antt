-- ===== src/Sqllog/Parser/Sound.antt =====
-- internal/sqllog/parser.go: what every parsed record has, and what a stream of lines keeps.
use anti_river_ten_demo.Prelude.{
  ◌≡◌, refl, false, ◌||◌, Option, none, some, List, [], ◌∷◌, arith, inl, inr, Bool-cases,
  Option-cases, if◌then◌else◌,
}
use anti_river_ten_demo.Prelude.Int.{ℤ, pos, ltb_ℤ, ◌≤ℤ◌}
use anti_river_ten_demo.Strings.{Bytes, is_empty, trim_space}
use anti_river_ten_demo.Strconv.{parse_int}
use anti_river_ten_demo.Exec.{Result, ok, err}
use anti_river_ten_demo.Sqllog.{SqlLog}
use anti_river_ten_demo.Sqllog.Parser.{
  ParseError, or_fail, stored, match_line, parse_trimmed, parse_line, StreamError, parse_failed,
  store_failed, ScannedLine, parse_step, parse_stream,
}

-- A record that may be stored: neither text is empty, and no number is negative.
pub record IsFilled (rec : SqlLog) : Type 0 where
  pub name : is_empty rec.db_name ≡ false
  pub query : is_empty rec.sql_query ≡ false
  pub time : pos 0 ≤ℤ rec.exec_time_ms
  pub count : pos 0 ≤ℤ rec.exec_count

module _ {A : Type 0} where
  or_fail-ok :
      (e : ParseError) (o : Option A) (f : A → Result ParseError SqlLog) {rec : SqlLog}
      → or_fail e o f ≡ ok rec
      → (a : A) × (o ≡ some a) × (f a ≡ ok rec)
  or_fail-ok e none f h = cc
  or_fail-ok e (some a) f h = (a, refl, h)

-- The last tests of ParseLine, over the values that were read.
checked-IsFilled :
    (name query : Bytes) (time count : ℤ) (rec : SqlLog)
    → (if is_empty name || is_empty query
        then err ParseError.empty_field
        else if ltb_ℤ time (pos 0) || ltb_ℤ count (pos 0)
        then err ParseError.negative_value
        else ok (record {
          id = 0;
          db_name = name;
          sql_query = query;
          exec_time_ms = time;
          exec_count = count;
          created_at = 0;
        }))
      ≡ ok rec
    → IsFilled rec
checked-IsFilled name query time count rec h = ground arith

parse_trimmed-IsFilled : (line : Bytes) (rec : SqlLog) → parse_trimmed line ≡ ok rec → IsFilled rec
unfolding parse_trimmed
parse_trimmed-IsFilled line rec h = elim (Bool-cases (is_empty line)) [
  | inl e ↦ let h' = rw e at h in cc
  | inr e ↦
      let (m, _, h1) =
        or_fail-ok {A = Bytes × Bytes × Bytes × Bytes} _ (match_line line) _ (rw e at h) in
      let (time, _, h2) = or_fail-ok {A = ℤ} _ (parse_int m.2) _ h1 in
      let (count, _, h3) = or_fail-ok {A = ℤ} _ (parse_int m.3) _ h2 in
      checked-IsFilled (trim_space m.0) (trim_space m.1) time count rec h3
]

pub parse_line-IsFilled : (line : Bytes) (rec : SqlLog) → parse_line line ≡ ok rec → IsFilled rec
unfolding parse_line
parse_line-IsFilled line rec h = parse_trimmed-IsFilled (trim_space line) rec h

-- What both callbacks keep, a stream keeps; the first callback is only given filled records.
module _ {S : Type 0} (on_entry : SqlLog → S → Option Bytes × S) (on_error : StreamError → S → S)
    (P : S → Type 0)
    (entry_keeps : (rec : SqlLog) (s : S) → IsFilled rec → P s → P (on_entry rec s).1)
    (error_keeps : (e : StreamError) (s : S) → P s → P (on_error e s)) where
  stored-keeps : (o : Option Bytes × S) → P o.1 → P (stored on_entry on_error o)
  stored-keeps (none, s) h = h
  stored-keeps (some e, s) h = error_keeps (store_failed e) s h

  step-keeps :
      (l : Bytes) (res : Result ParseError SqlLog) (s : S)
      → ((rec : SqlLog) → res ≡ ok rec → IsFilled rec)
      → P s
      → P (parse_step on_entry on_error l res s)
  unfolding parse_step
  step-keeps l (ok rec) s filled h =
      stored-keeps (on_entry rec s) (entry_keeps rec s (filled rec refl) h)
  step-keeps l (err e) s filled h = error_keeps (parse_failed e l) s h

  pub parse_stream-keeps :
      (lines : List ScannedLine) (failure : Option Bytes) (s : S)
      → P s
      → P (parse_stream on_entry on_error lines failure s).1
  unfolding parse_stream
  parse_stream-keeps [] none s h = h
  parse_stream-keeps [] (some e) s h = h
  parse_stream-keeps (l ∷ ls) failure s h = elim (Option-cases l.done) [
    | inr (c, e) ↦ rw e h
    | inl e ↦ rw e (
        parse_stream-keeps ls failure _
          (step-keeps l.line (parse_line l.line) s (parse_line-IsFilled l.line) h))
  ]
