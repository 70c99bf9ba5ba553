-- ===== src/Sqllog/Parser/RoundTrip.antt =====
-- internal/sqllog/parser.go: a record that is written in the format of the log is read back.
use mathlib.Core.List.{reverse}
use anti_river_ten_demo.Prelude.{
  ℕ, ◌<◌, ◌≡◌, ◌≢◌, refl, sym, ap, ◌∙◌, true, false, not, some, [], ◌∷◌, ◌++◌, All, arith, ◌==◌,
  append_assoc,
}
use anti_river_ten_demo.Prelude.Int.{pos, int64_limit}
use anti_river_ten_demo.Strings.{Bytes, text, is_empty, trim_space}
use anti_river_ten_demo.Strings.{space_width, is_ascii_space}
use anti_river_ten_demo.Strings.Trim.{trim_space-ends, space_width_back-digit, reverse-IsDigit}
use anti_river_ten_demo.Strconv.{decimal}
use anti_river_ten_demo.Strconv.Laws.{decimal-digits, decimal-ne-nil, parse_int-decimal}
use anti_river_ten_demo.Exec.{ok}
use anti_river_ten_demo.Sqllog.{SqlLog}
use anti_river_ten_demo.Sqllog.Parser.{no_commas, match_line, parse_trimmed, parse_line}
use anti_river_ten_demo.Sqllog.Parser.Match.{
  literal-append, span-append, tail_text, bind-some, match_query-tail_text,
}

-- A record in the format of the log: DB:<name>,sql:<query>,exec_time_ms:<int>,exec_count:<int>
unfoldable pub log_line : Bytes → Bytes → ℕ → ℕ → Bytes
log_line name sql t n = text "DB:" ++ (name ++ (text ",sql:" ++ (sql ++ tail_text t n)))

no_commas-append :
    (name s rest : Bytes)
    → s ≡ b',' ∷ rest
    → name ≢ []
    → All (λ c. (c == b',') ≡ false) name
    → no_commas (name ++ s) ≡ some (name, s)
unfolding no_commas
no_commas-append [] s rest e h k = absurd (h refl)
no_commas-append (c ∷ name) s rest e h k =
    rw (e, span-append (λ x. not (x == b',')) (c ∷ name) rest b',' (flipped (c ∷ name) k) refl)
  where
    flipped : (l : Bytes) → All (λ x. (x == b',') ≡ false) l → All (λ x. not (x == b',') ≡ true) l
    flipped [] h = tt
    flipped (x ∷ l) (hx, h) = (ground arith, flipped l h)

name_before_sql :
    (name s : Bytes)
    → name ≢ []
    → All (λ c. (c == b',') ≡ false) name
    → no_commas (name ++ (text ",sql:" ++ s)) ≡ some (name, text ",sql:" ++ s)
unfolding text
name_before_sql name s h k = no_commas-append name (text ",sql:" ++ s) _ refl h k

match_line-log_line :
    (name sql : Bytes) (t n : ℕ)
    → name ≢ []
    → All (λ c. (c == b',') ≡ false) name
    → All (λ c. (c == 10) ≡ false) sql
    → match_line (log_line name sql t n) ≡ some (name, sql, decimal t, decimal n)
unfolding match_line log_line
match_line-log_line name sql t n filled plain one_line =
    bind-some _ _ (literal-append (text "DB:") (name ++ (text ",sql:" ++ (sql ++ tail_text t n))))
    ∙ bind-some _ _ (name_before_sql name (sql ++ tail_text t n) filled plain)
    ∙ bind-some _ _ (literal-append (text ",sql:") (sql ++ tail_text t n))
    ∙ bind-some _ _ (match_query-tail_text t n sql one_line)

log_line-ends :
    (name sql : Bytes) (t n : ℕ)
    → (c : ℕ) × (m : Bytes) × (log_line name sql t n ≡ c ∷ m) × (space_width (c ∷ m) ≡ 0)
unfolding log_line text space_width is_ascii_space
log_line-ends name sql t n = (b'D', _, refl, refl)

front_eq :
    (name sql : Bytes) (t n : ℕ)
    → (text "DB:"
          ++ (name
              ++ (text ",sql:"
                  ++ (sql ++ (text ",exec_time_ms:" ++ (decimal t ++ text ",exec_count:"))))))
        ++ decimal n
      ≡ log_line name sql t n
unfolding log_line tail_text
front_eq name sql t n = simp append_assoc

log_line-filled : (name sql : Bytes) (t n : ℕ) → is_empty (log_line name sql t n) ≡ false
unfolding log_line text
log_line-filled name sql t n = refl

trim_space-log_line :
    (name sql : Bytes) (t n : ℕ) → trim_space (log_line name sql t n) ≡ log_line name sql t n
trim_space-log_line name sql t n =
    let front =
      text "DB:"
      ++ (name
          ++ (text ",sql:"
              ++ (sql ++ (text ",exec_time_ms:" ++ (decimal t ++ text ",exec_count:"))))) in
    let (c, m, e, h) = log_line-ends name sql t n in
    let (d, z, eq, k) = reverse-IsDigit front (decimal n) (decimal-ne-nil n) (decimal-digits n) in
    let same : front ++ decimal n ≡ c ∷ m = front_eq name sql t n ∙ e in
    rw e (trim_space-ends c d m z h (ap reverse (sym same) ∙ eq) (space_width_back-digit d z k))

abbrev pub record_of : Bytes → Bytes → ℕ → ℕ → SqlLog
record_of name sql t n = record {
  id = 0;
  db_name = name;
  sql_query = sql;
  exec_time_ms = pos t;
  exec_count = pos n;
  created_at = 0;
}

filled-ne-nil : (s : Bytes) → is_empty (trim_space s) ≡ false → s ≢ []
unfolding trim_space
filled-ne-nil [] h e = cc
filled-ne-nil (c ∷ s) h e = cc

parse_trimmed-log_line :
    (name sql : Bytes) (t n : ℕ)
    → is_empty (trim_space name) ≡ false
    → All (λ c. (c == b',') ≡ false) name
    → is_empty (trim_space sql) ≡ false
    → All (λ c. (c == 10) ≡ false) sql
    → t < int64_limit
    → n < int64_limit
    → parse_trimmed (log_line name sql t n) ≡ ok (record_of (trim_space name) (trim_space sql) t n)
unfolding parse_trimmed
parse_trimmed-log_line name sql t n name_filled plain sql_filled one_line lt_t lt_n =
    rw
      (
        log_line-filled name sql t n,
        match_line-log_line name sql t n (filled-ne-nil name name_filled) plain one_line,
        parse_int-decimal t lt_t,
        parse_int-decimal n lt_n,
        name_filled,
        sql_filled,
      )
      (ground arith)

-- A line in the documented format is read back: the name without its outer spaces, the query with
-- all commas and even field texts that it has in it, and both numbers, if the name has no comma,
-- the query is on one line, neither is blank and the numbers are below 2^63.
pub parse_line-log_line :
    (name sql : Bytes) (t n : ℕ)
    → is_empty (trim_space name) ≡ false
    → All (λ c. (c == b',') ≡ false) name
    → is_empty (trim_space sql) ≡ false
    → All (λ c. (c == 10) ≡ false) sql
    → t < int64_limit
    → n < int64_limit
    → parse_line (log_line name sql t n) ≡ ok (record_of (trim_space name) (trim_space sql) t n)
unfolding parse_line
parse_line-log_line name sql t n name_filled plain sql_filled one_line lt_t lt_n =
    rw (trim_space-log_line name sql t n)
      (parse_trimmed-log_line name sql t n name_filled plain sql_filled one_line lt_t lt_n)
