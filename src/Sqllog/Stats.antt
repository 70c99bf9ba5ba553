-- ===== src/Sqllog/Stats.antt =====
-- internal/sqllog/stats.go: the texts of the queries and the array that PostgreSQL answers with. A
-- map is a list of its entries; a fraction is given in hundredths, as in the filter; the values of
-- the percentiles are floats, with what strconv does with them as an interface.
pub mod Marks
pub mod Compute
use anti_river_ten_demo.Prelude.{
  ℕ, zero, suc, ◌+◌, ◌/◌, ◌%◌, Bool, true, false, Option, none, some, List, [], ◌∷◌, ◌++◌, map,
  ◌==◌, if◌then◌else◌,
}
use anti_river_ten_demo.Prelude.Int.{ℤ, pos, negsuc}
use anti_river_ten_demo.Strings.{
  Bytes, text, str_eq, is_empty, has_prefix, has_suffix, cut_prefix, cut_suffix, trim_space, split,
  join,
}
use anti_river_ten_demo.Strconv.{decimal, decimal_int, parse_int}
use anti_river_ten_demo.Sqllog.Report.Filter.{ReportFilter}

pub record Floats : Type 1 where
  pub Float : Type 0
  pub of_int : ℤ → Float
  pub parse_float : Bytes → Option Float
  pub to_int : Float → ℤ
  pub float_eq : Float → Float → Bool
  pub format3 : Float → Bytes

module _ {V : Type 0} where
  -- m[k] = v
  unfoldable pub set_key : Bytes → V → List (Bytes × V) → List (Bytes × V)
  set_key k v [] = (k, v) ∷ []
  set_key k v ((l, u) ∷ m) =
      let rest = set_key k v m in if str_eq l k then (l, v) ∷ m else (l, u) ∷ rest

  unfoldable pub get_key : Bytes → List (Bytes × V) → Option V
  get_key k [] = none
  get_key k ((l, u) ∷ m) = let rest = get_key k m in if str_eq l k then some u else rest

pub record PatternStat : Type 0 where
  pub pattern : Bytes
  pub occurrences : ℤ

-- An argument of a raw query.
pub data SqlArg : Type 0 where
  time : ℕ → SqlArg
  name : Bytes → SqlArg
  number : ℤ → SqlArg

unfoldable pub where_parts : ReportFilter → List Bytes
where_parts f =
    if is_empty (trim_space f.db)
    then text "created_at >= ?" ∷ text "created_at <= ?" ∷ []
    else text "created_at >= ?" ∷ text "created_at <= ?" ∷ text "db_name = ?" ∷ []

unfoldable pub where_args : ReportFilter → List SqlArg
where_args f =
    if is_empty (trim_space f.db)
    then time f.from ∷ time f.to ∷ []
    else time f.from ∷ time f.to ∷ name (trim_space f.db) ∷ []

unfoldable pub where_clause_args : ReportFilter → Bytes × List SqlArg
where_clause_args f = (join (where_parts f) (text " AND "), where_args f)

-- strconv.FormatFloat(v, 'f', -1, 64) of n / 100.
unfoldable pub format_hundredths : ℕ → Bytes
format_hundredths n =
    if n % 100 == 0
    then decimal (n / 100)
    else if n % 10 == 0
    then decimal (n / 100) ++ b'.' ∷ decimal (n % 100 / 10)
    else decimal (n / 100) ++ b'.' ∷ decimal (n % 100 / 10) ++ decimal (n % 10)

unfoldable pub format_fraction : ℤ → Bytes
format_fraction (pos n) = format_hundredths n
format_fraction (negsuc n) = b'-' ∷ format_hundredths (suc n)

unfoldable pub build_array_expr : List ℤ → Bytes
build_array_expr pcts = text "ARRAY[" ++ join (map format_fraction pcts) (b',' ∷ []) ++ text "]"

-- int(f*100 + 0.5), which rounds towards zero.
abbrev pub rounded : ℤ → ℤ
rounded (pos n) = pos n
rounded (negsuc zero) = pos 0
rounded (negsuc (suc n)) = negsuc n

unfoldable pub pct_key : ℤ → Bytes
pct_key f = b'p' ∷ decimal_int (rounded f)

-- strings.TrimPrefix and strings.TrimSuffix
unfoldable pub trim_prefix : Bytes → Bytes → Bytes
trim_prefix s p = if has_prefix s p then cut_prefix s p else s

unfoldable pub trim_suffix : Bytes → Bytes → Bytes
trim_suffix s p = if has_suffix s p then cut_suffix s p else s

unfoldable pub array_elements : Bytes → List Bytes
array_elements arr =
    let raw = trim_suffix (trim_prefix (trim_space arr) (text "{")) (text "}") in
    if is_empty raw then [] else split raw b','

module _ (x : Floats) where
  open x use {Float, of_int, parse_float}

  abbrev pub PercentileSet : Type 0
  PercentileSet = List (Bytes × Float)

  abbrev pub value_of : Option ℤ → Option Float → Option Float
  value_of (some n) o = some (of_int n)
  value_of none o = o

  abbrev pub put_value : Bytes → Option Float → PercentileSet → PercentileSet
  put_value k none out = out
  put_value k (some v) out = set_key k v out

  -- One element of the array: an integer first, then a float, and neither leaves the set as it is.
  unfoldable pub put_element : ℤ → Bytes → PercentileSet → PercentileSet
  put_element p s out =
      if is_empty s then out else put_value (pct_key p) (value_of (parse_int s) (parse_float s)) out

  unfoldable pub put_elements : List Bytes → List ℤ → PercentileSet → PercentileSet
  put_elements [] pcts out = out
  put_elements (s ∷ vals) [] out = out
  put_elements (s ∷ vals) (p ∷ pcts) out = put_elements vals pcts (put_element p (trim_space s) out)

  unfoldable pub parse_array_to_pct_set : Bytes → List ℤ → PercentileSet
  parse_array_to_pct_set arr pcts =
      if is_empty (trim_space arr) then [] else put_elements (array_elements arr) pcts []

  pub record Percentiles : Type 0 where
    pub exec_time : PercentileSet
    pub exec_count : PercentileSet

-- fmt.Sprintf("regexp_replace(%s, $$...$$, CHR(63), 'g')", expr)
abbrev replace_all : Bytes → Bytes → Bytes
replace_all expr pattern =
    text "regexp_replace(" ++ (expr ++ (text ", $$" ++ (pattern ++ text "$$, CHR(63), 'g')")))

abbrev pub quoted_pattern : Bytes
quoted_pattern = text "'([^']|'{2})*'"

abbrev pub uuid_pattern : Bytes
uuid_pattern =
    text "\\y[0-9A-Fa-f]{8}-[0-9A-Fa-f]{4}-[0-9A-Fa-f]{4}-[0-9A-Fa-f]{4}-[0-9A-Fa-f]{12}\\y"

abbrev pub date_pattern : Bytes
date_pattern =
    text
      "\\y[[:digit:]]{4}-[[:digit:]]{2}-[[:digit:]]{2}(([[:space:]]|T)[[:digit:]]{2}:[[:digit:]]{2}:[[:digit:]]{2}(\\.[[:digit:]]+){0,1}){0,1}\\y"

abbrev pub number_pattern : Bytes
number_pattern = text "\\y[[:digit:]]+(\\.[[:digit:]]+){0,1}\\y"

unfoldable pub normalization_sql : Bytes → Bytes
normalization_sql col =
    let lower = text "LOWER(" ++ (col ++ text ")") in
    let quoted = replace_all lower quoted_pattern in
    let uuids = replace_all quoted uuid_pattern in
    let dates = replace_all uuids date_pattern in
    let numbers = replace_all dates number_pattern in
    text "btrim(regexp_replace(" ++ (numbers ++ text ", $$[[:space:]]+$$, ' ', 'g'))")

abbrev pub percentile_lines : Bytes → Bytes
percentile_lines arr =
    text "  percentile_disc("
    ++ (arr
        ++ (text ") WITHIN GROUP (ORDER BY exec_time_ms) AS p_exec_time,\n  percentile_disc("
            ++ (arr
                ++ text
                    ") WITHIN GROUP (ORDER BY exec_count)   AS p_exec_count\nFROM \"DEMO\".\"SQL_LOG\"\nWHERE ")))

-- The four queries, each with its WHERE clause.
unfoldable pub overall_query : Bytes → Bytes → Bytes
overall_query arr clause = text "\nSELECT\n" ++ (percentile_lines arr ++ (clause ++ text "\n"))

unfoldable pub per_db_query : Bytes → Bytes → Bytes
per_db_query arr clause =
    text "\nSELECT\n  db_name,\n"
    ++ (percentile_lines arr ++ (clause ++ text "\nGROUP BY db_name\n"))

unfoldable pub patterns_query : Bytes → Bytes → Bytes
patterns_query norm clause =
    text "\nWITH filt AS (\n  SELECT "
    ++ (norm
        ++ (text " AS pattern\n  FROM \"DEMO\".\"SQL_LOG\"\n  WHERE "
            ++ (clause
                ++ text
                    "\n)\nSELECT pattern, COUNT(*) AS occurrences\nFROM filt\nGROUP BY pattern\nORDER BY occurrences DESC\nLIMIT ?\n")))

unfoldable pub db_patterns_query : Bytes → Bytes → Bytes
db_patterns_query norm clause =
    text "\nWITH filt AS (\n  SELECT db_name, "
    ++ (norm
        ++ (text " AS pattern\n  FROM \"DEMO\".\"SQL_LOG\"\n  WHERE "
            ++ (clause
                ++ text
                    "\n),\nagg AS (\n  SELECT db_name, pattern, COUNT(*) AS occurrences\n  FROM filt\n  GROUP BY db_name, pattern\n),\nranked AS (\n  SELECT db_name, pattern, occurrences,\n         ROW_NUMBER() OVER (PARTITION BY db_name ORDER BY occurrences DESC, pattern ASC) AS rn\n  FROM agg\n)\nSELECT db_name, pattern, occurrences\nFROM ranked\nWHERE rn <= ?\nORDER BY db_name ASC, occurrences DESC, pattern ASC\n")))
