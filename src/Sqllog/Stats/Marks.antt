-- ===== src/Sqllog/Stats/Marks.antt =====
-- internal/sqllog/stats.go: the placeholders of the raw queries.
use anti_river_ten_demo.Prelude.{
  ℕ, suc, ◌+◌, ◌/◌, ◌%◌, ◌≡◌, refl, ◌∙◌, inl, inr, List, [], ◌∷◌, ◌++◌, map, count, count-append,
  length, length-append, All, Bool-cases, ◌==◌, arith,
}
use anti_river_ten_demo.Prelude.Int.{ℤ, pos, negsuc}
use anti_river_ten_demo.Strings.{Bytes, text, is_empty, trim_space, join}
use anti_river_ten_demo.Strconv.{decimal}
use anti_river_ten_demo.Strconv.Laws.{IsDigit, decimal-digits}
use anti_river_ten_demo.Sqllog.Report.Filter.{ReportFilter}
use anti_river_ten_demo.Sqllog.Stats.{
  number, where_parts, where_args, where_clause_args, format_hundredths, format_fraction,
  build_array_expr, normalization_sql, replace_all, quoted_pattern, uuid_pattern, date_pattern,
  number_pattern, percentile_lines, overall_query, per_db_query, patterns_query, db_patterns_query,
}

-- The number of placeholders in a text.
abbrev pub marks : Bytes → ℕ
marks s = count (λ c. c == b'?') s

marks-append : (s t : Bytes) → marks (s ++ t) ≡ marks s + marks t
marks-append s t = count-append (λ c. c == b'?') s t

digits-marks : (s : Bytes) → All IsDigit s → marks s ≡ 0
digits-marks [] h = refl
digits-marks (c ∷ s) (d, h) = ground (arith, d, digits-marks s h)

decimal-marks : (n : ℕ) → marks (decimal n) ≡ 0
decimal-marks n = digits-marks (decimal n) (decimal-digits n)

fraction-marks : (n : ℕ) → marks (format_hundredths n) ≡ 0
unfolding format_hundredths
fraction-marks n =
    let a = decimal-marks (n / 100) in
    let b = decimal-marks (n % 100 / 10) in
    let c = decimal-marks (n % 10) in
    elim (Bool-cases (n % 100 == 0)) [
      | inl e ↦ rw e a
      | inr e ↦ elim (Bool-cases (n % 10 == 0)) [
        | inl f ↦
            rw (e, f)
              (omega
                (arith, a, b, marks-append (decimal (n / 100)) (b'.' ∷ decimal (n % 100 / 10))))
        | inr f ↦
            let l = b'.' ∷ decimal (n % 100 / 10) in
            rw (e, f)
              (omega (
                arith,
                a,
                b,
                c,
                marks-append (decimal (n / 100)) l,
                marks-append (decimal (n / 100) ++ l) (decimal (n % 10)),
              ))
      ]
    ]

format_fraction-marks : (v : ℤ) → marks (format_fraction v) ≡ 0
unfolding format_fraction
format_fraction-marks (pos n) = fraction-marks n
format_fraction-marks (negsuc n) = fraction-marks (suc n)

join-marks : (pcts : List ℤ) → marks (join (map format_fraction pcts) (b',' ∷ [])) ≡ 0
unfolding join
join-marks [] = refl
join-marks (p ∷ []) = format_fraction-marks p
join-marks (p ∷ q ∷ pcts) =
    let f = format_fraction p in
    let rest = join (map format_fraction (q ∷ pcts)) (b',' ∷ []) in
    omega (
      arith,
      format_fraction-marks p,
      join-marks (q ∷ pcts),
      marks-append f (b',' ∷ []),
      marks-append (f ++ b',' ∷ []) rest,
    )

array-marks : (pcts : List ℤ) → marks (build_array_expr pcts) ≡ 0
unfolding build_array_expr text
array-marks pcts =
    let j = join (map format_fraction pcts) (b',' ∷ []) in
    omega (
      arith,
      join-marks pcts,
      marks-append (text "ARRAY[") j,
      marks-append (text "ARRAY[" ++ j) (text "]"),
    )

clause-marks : (f : ReportFilter) → marks (where_clause_args f).0 ≡ length (where_clause_args f).1
unfolding where_clause_args where_parts where_args join text
clause-marks f = elim (Bool-cases (is_empty (trim_space f.db))) [
  | inl e ↦ rw e refl
  | inr e ↦ rw e refl
]

around-marks : (s e t : Bytes) → marks (s ++ (e ++ t)) ≡ marks s + (marks e + marks t)
around-marks s e t = omega (arith, marks-append s (e ++ t), marks-append e t)

-- A text that the rest is put behind has no placeholder of its own.
module _ (s : Bytes) (none_in : marks s ≡ 0) where
  behind-marks : (e : Bytes) → marks (s ++ e) ≡ marks e
  behind-marks e = omega (arith, none_in, marks-append s e)

replace_all-marks : (e p : Bytes) → marks p ≡ 0 → marks (replace_all e p) ≡ marks e
unfolding text
replace_all-marks e p h =
    let post = text "$$, CHR(63), 'g')" in
    let rest = text ", $$" ++ (p ++ post) in
    omega
      (arith, h, around-marks (text "regexp_replace(") e rest, around-marks (text ", $$") p post)

-- normalizationSQL adds no placeholder to a column.
normalization_sql-marks : (col : Bytes) → marks (normalization_sql col) ≡ marks col
unfolding normalization_sql text
normalization_sql-marks col =
    let lower = text "LOWER(" ++ (col ++ text ")") in
    let quoted = replace_all lower quoted_pattern in
    let uuids = replace_all quoted uuid_pattern in
    let dates = replace_all uuids date_pattern in
    let numbers = replace_all dates number_pattern in
    omega (
      arith,
      around-marks (text "LOWER(") col (text ")"),
      replace_all-marks lower quoted_pattern refl,
      replace_all-marks quoted uuid_pattern refl,
      replace_all-marks uuids date_pattern refl,
      replace_all-marks dates number_pattern refl,
      around-marks (text "btrim(regexp_replace(") numbers (text ", $$[[:space:]]+$$, ' ', 'g'))"),
    )

percentile_lines-marks : (arr : Bytes) → marks arr ≡ 0 → marks (percentile_lines arr) ≡ 0
unfolding text
percentile_lines-marks arr h = omega (
  arith,
  h,
  around-marks (text "  percentile_disc(") arr _,
  around-marks (text ") WITHIN GROUP (ORDER BY exec_time_ms) AS p_exec_time,\n  percentile_disc(")
      arr _,
)

module _ (arr clause : Bytes) (plain : marks arr ≡ 0) where
  overall_query-marks : marks (overall_query arr clause) ≡ marks clause
  unfolding overall_query text
  overall_query-marks = omega (
    arith,
    percentile_lines-marks arr plain,
    around-marks (text "\nSELECT\n") (percentile_lines arr) (clause ++ text "\n"),
    marks-append clause (text "\n"),
  )

  per_db_query-marks : marks (per_db_query arr clause) ≡ marks clause
  unfolding per_db_query text
  per_db_query-marks = omega (
    arith,
    percentile_lines-marks arr plain,
    around-marks (text "\nSELECT\n  db_name,\n") (percentile_lines arr)
        (clause ++ text "\nGROUP BY db_name\n"),
    marks-append clause (text "\nGROUP BY db_name\n"),
  )

module _ (norm clause : Bytes) (plain : marks norm ≡ 0) where
  patterns_query-marks : marks (patterns_query norm clause) ≡ marks clause + 1
  unfolding patterns_query text
  patterns_query-marks = omega (
    arith,
    plain,
    around-marks (text "\nWITH filt AS (\n  SELECT ") norm _,
    around-marks (text " AS pattern\n  FROM \"DEMO\".\"SQL_LOG\"\n  WHERE ") clause _,
  )

  db_patterns_query-marks : marks (db_patterns_query norm clause) ≡ marks clause + 1
  unfolding db_patterns_query text
  db_patterns_query-marks = omega (
    arith,
    plain,
    around-marks (text "\nWITH filt AS (\n  SELECT db_name, ") norm _,
    around-marks (text " AS pattern\n  FROM \"DEMO\".\"SQL_LOG\"\n  WHERE ") clause _,
  )

column-marks : marks (normalization_sql (text "sql_query")) ≡ 0
unfolding text
column-marks = normalization_sql-marks (text "sql_query") ∙ refl

-- Each of the four raw queries of a report has as many placeholders as it is given arguments, for
-- any filter: those of the WHERE clause, and the number of patterns in the last two. So neither the
-- fractions nor the patterns of the normalisation bring in a placeholder.
pub queries-marks :
    (f : ReportFilter)
    → (let arr = build_array_expr f.pcts in
        let norm = normalization_sql (text "sql_query") in
        let clause = (where_clause_args f).0 in
        let args = (where_clause_args f).1 in
        let limited = args ++ number f.top_patterns ∷ [] in
        (marks (overall_query arr clause) ≡ length args)
        × (marks (per_db_query arr clause) ≡ length args)
        × (marks (patterns_query norm clause) ≡ length limited)
        × (marks (db_patterns_query norm clause) ≡ length limited))
queries-marks f =
    let arr = build_array_expr f.pcts in
    let clause = (where_clause_args f).0 in
    let args = (where_clause_args f).1 in
    let c = clause-marks f in
    let plain = array-marks f.pcts in
    let l = length-append args (number f.top_patterns ∷ []) in
    (
      overall_query-marks arr clause plain ∙ c,
      per_db_query-marks arr clause plain ∙ c,
      omega (
        arith,
        l,
        c,
        patterns_query-marks (normalization_sql (text "sql_query")) clause column-marks,
      ),
      omega (
        arith,
        l,
        c,
        db_patterns_query-marks (normalization_sql (text "sql_query")) clause column-marks,
      ),
    )
