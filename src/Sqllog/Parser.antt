-- ===== src/Sqllog/Parser.antt =====
-- internal/sqllog/parser.go: one line of the log, and a stream of lines. The expression lineRE is
-- written as the search that it stands for: behind DB: the name reaches to the first comma, then
-- comes ,sql: and the query is the shortest text without a line feed behind which the fields
-- exec_time_ms and exec_count, each with digits, match to the end.
pub mod Match
pub mod Sound
pub mod RoundTrip
use anti_river_ten_demo.Prelude.{
  ℕ, zero, suc, ◌+◌, ◌-◌, Bool, true, false, not, ◌&&◌, ◌||◌, Option, none, some, List, [], ◌∷◌,
  ◌++◌, ◌==◌, leb, if◌then◌else◌,
}
use anti_river_ten_demo.Prelude.Int.{ℤ, pos, ltb_ℤ}
use anti_river_ten_demo.Strings.{Bytes, text, is_empty, has_prefix, cut_prefix, trim_space}
use anti_river_ten_demo.Strconv.{is_digit, parse_int}
use anti_river_ten_demo.Exec.{Result, ok, err}
use anti_river_ten_demo.Sqllog.{SqlLog}

-- A literal at the front of a text: what is behind it.
unfoldable pub literal : Bytes → Bytes → Option Bytes
literal [] s = some s
literal (c ∷ p) [] = none
literal (c ∷ p) (d ∷ s) = let rest = literal p s in if c == d then rest else none

abbrev onto : ℕ → Bytes × Bytes → Bytes × Bytes
onto c (before, after) = (c ∷ before, after)

-- The longest beginning whose bytes pass a test, and the rest.
unfoldable pub span : (ℕ → Bool) → Bytes → Bytes × Bytes
span p [] = ([], [])
span p (c ∷ s) = if p c then onto c (span p s) else ([], c ∷ s)

abbrev pub non_empty : Bytes × Bytes → Option (Bytes × Bytes)
non_empty ([], rest) = none
non_empty (c ∷ part, rest) = some (c ∷ part, rest)

-- (\d+) and ([^,]+)
unfoldable pub digits : Bytes → Option (Bytes × Bytes)
digits s = non_empty (span is_digit s)

unfoldable pub no_commas : Bytes → Option (Bytes × Bytes)
no_commas s = non_empty (span (λ c. not (c == b',')) s)

-- The class \s of the expression: tab, line feed, form feed, carriage return and space.
abbrev is_re_space : ℕ → Bool
is_re_space c = c == 9 || c == 10 || c == 12 || c == 13 || c == b' '

-- \s*$
unfoldable pub spaces_to_end : Bytes → Bool
spaces_to_end [] = true
spaces_to_end (c ∷ s) = is_re_space c && spaces_to_end s

module _ {A B : Type 0} where
  abbrev pub bind : Option A → (A → Option B) → Option B
  bind none f = none
  bind (some a) f = f a

  abbrev pub map_option : (A → B) → Option A → Option B
  map_option f none = none
  map_option f (some a) = some (f a)

-- ,exec_time_ms:(\d+),exec_count:(\d+)\s*$
unfoldable pub match_tail : Bytes → Option (Bytes × Bytes)
match_tail s = bind (literal (text ",exec_time_ms:") s) λ s1. bind (digits s1) λ d1.
    bind (literal (text ",exec_count:") d1.1)
      λ s2. bind (digits s2) λ d2. if spaces_to_end d2.1 then some (d1.0, d2.0) else none

abbrev pub longer : ℕ → Bytes × Bytes × Bytes → Bytes × Bytes × Bytes
longer c (q, t, n) = (c ∷ q, t, n)

-- The first of two matches.
abbrev pub or_later :
    Option (Bytes × Bytes) → Option (Bytes × Bytes × Bytes) → Option (Bytes × Bytes × Bytes)
or_later (some (t, n)) later = some ([], t, n)
or_later none later = later

-- (.*?) and what follows it
unfoldable pub match_query : Bytes → Option (Bytes × Bytes × Bytes)
match_query [] = or_later (match_tail []) none
match_query (c ∷ s) =
    let rest = match_query s in
    or_later (match_tail (c ∷ s)) (if c == 10 then none else map_option (longer c) rest)

-- lineRE.FindStringSubmatch: the four groups.
unfoldable pub match_line : Bytes → Option (Bytes × Bytes × Bytes × Bytes)
match_line s = bind (literal (text "DB:") s) λ s1. bind (no_commas s1) λ name.
    bind (literal (text ",sql:") name.1)
      λ s2. bind (match_query s2) λ m. some (name.0, m.0, m.1, m.2)

pub data ParseError : Type 0 where
  empty_line : ParseError
  invalid_format : ParseError
  invalid_exec_time : ParseError
  invalid_exec_count : ParseError
  empty_field : ParseError
  negative_value : ParseError

module _ {A : Type 0} where
  abbrev pub or_fail :
      ParseError → Option A → (A → Result ParseError SqlLog) → Result ParseError SqlLog
  or_fail e none f = err e
  or_fail e (some a) f = f a

-- ParseLine, behind the trim.
unfoldable pub parse_trimmed : Bytes → Result ParseError SqlLog
parse_trimmed line =
    if is_empty line
    then err empty_line
    else or_fail invalid_format (match_line line) λ m.
      let db_name = trim_space m.0 in
      let sql_query = trim_space m.1 in
      or_fail invalid_exec_time (parse_int m.2) λ exec_time_ms.
        or_fail invalid_exec_count (parse_int m.3) λ exec_count.
          if is_empty db_name || is_empty sql_query
          then err empty_field
          else if ltb_ℤ exec_time_ms (pos 0) || ltb_ℤ exec_count (pos 0)
          then err negative_value
          else ok (record {
            id = 0;
            db_name = db_name;
            sql_query = sql_query;
            exec_time_ms = exec_time_ms;
            exec_count = exec_count;
            created_at = 0;
          })

unfoldable pub parse_line : Bytes → Result ParseError SqlLog
parse_line s = parse_trimmed (trim_space s)

-- What the callbacks of ParseStream are told of, and how the stream ends.
pub data StreamError : Type 0 where
  parse_failed : ParseError → Bytes → StreamError
  store_failed : Bytes → StreamError

-- ctx.Err() of a context that is done.
pub data ContextError : Type 0 where
  canceled : ContextError
  deadline_exceeded : ContextError

pub data StreamEnd : Type 0 where
  finished : StreamEnd
  cancelled : ContextError → StreamEnd
  scan_failed : Bytes → StreamEnd

-- A token of bufio.Scanner, and ctx.Err() when the loop looks at the context.
pub record ScannedLine : Type 0 where
  pub done : Option ContextError
  pub line : Bytes

module _ {S : Type 0} (on_entry : SqlLog → S → Option Bytes × S)
    (on_error : StreamError → S → S) where
  abbrev pub stored : Option Bytes × S → S
  stored (none, s) = s
  stored (some e, s) = on_error (store_failed e) s

  -- One round of the loop.
  unfoldable pub parse_step : Bytes → Result ParseError SqlLog → S → S
  parse_step l (ok rec) s = stored (on_entry rec s)
  parse_step l (err e) s = on_error (parse_failed e l) s

  -- `failure` is sc.Err() behind the last token: a line above 2^20 bytes, or an error of the
  -- reader.
  unfoldable pub parse_stream : List ScannedLine → Option Bytes → S → StreamEnd × S
  parse_stream [] none s = (finished, s)
  parse_stream [] (some e) s = (scan_failed e, s)
  parse_stream (l ∷ ls) failure s = elim l.done [
    | some e ↦ (cancelled e, s)
    | none ↦ parse_stream ls failure (parse_step l.line (parse_line l.line) s)
  ]
