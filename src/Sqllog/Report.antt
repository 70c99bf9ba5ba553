-- ===== src/Sqllog/Report.antt =====
-- internal/sqllog/report.go: the limit and the window of a report, the reasons and suggestions of
-- an anomaly, and the texts of its table.
pub mod Anomalies
pub mod Filter
pub mod Analyze
pub mod Csv
pub mod Pdf
use anti_river_ten_demo.Prelude.{
  ℕ, zero, suc, ◌-◌, Bool, true, false, ◌&&◌, ◌||◌, List, [], ◌∷◌, ◌++◌, map, any, ltb, leb, ◌==◌,
  length, take, if◌then◌else◌,
}
use anti_river_ten_demo.Prelude.Int.{ℤ, pos, pos_part, ltb_ℤ, leb_ℤ}
use anti_river_ten_demo.Strings.{Bytes, text, str_eq, contains, to_lower, trim_space, is_empty}
use anti_river_ten_demo.Sqllog.{SqlLog}

abbrev pub default_max_anomalies : ℤ
default_max_anomalies = pos 500

abbrev pub max_anomalies_cap : ℤ
max_anomalies_cap = pos 5000

-- The cap that clampLimit works with.
unfoldable pub effective_cap : ℤ → ℤ
effective_cap cap = if leb_ℤ cap (pos 0) then max_anomalies_cap else cap

unfoldable pub clamp_limit : ℤ → ℤ → ℤ
unfolding effective_cap
clamp_limit n cap =
    if leb_ℤ n (pos 0)
    then default_max_anomalies
    else if ltb_ℤ (effective_cap cap) n
    then effective_cap cap
    else n

-- A threshold that is not positive gets its default.
unfoldable pub threshold_or : ℤ → ℤ → ℤ
threshold_or n d = if leb_ℤ n (pos 0) then d else n

-- The WHERE clauses of applyFilters and applyAnomalyFilters.
unfoldable pub in_scope : ℕ → ℕ → Bytes → SqlLog → Bool
in_scope from to db it =
    leb from it.created_at
    && leb it.created_at to
    && (is_empty (trim_space db) || str_eq it.db_name (trim_space db))

unfoldable pub is_anomaly : ℤ → ℤ → ℤ → SqlLog → Bool
is_anomaly slow_ms freq_slow_ms freq_count it =
    leb_ℤ slow_ms it.exec_time_ms
    || leb_ℤ freq_slow_ms it.exec_time_ms && leb_ℤ freq_count it.exec_count

-- contains, the loop over a list of texts.
unfoldable pub list_contains : List Bytes → Bytes → Bool
list_contains sl s = any (λ v. str_eq v s) sl

-- addReason and addSuggestion, behind the condition of the call.
unfoldable pub add_if : Bool → Bytes → List Bytes → List Bytes
unfolding list_contains
add_if true s sl = if list_contains sl s then sl else sl ++ s ∷ []
add_if false s sl = sl

unfoldable pub reasons_of : Bool → Bool → Bool → List Bytes
unfolding add_if
reasons_of slow frequent star =
    add_if star (text "select_star")
      (add_if frequent (text "frequent_and_slow") (add_if slow (text "slow_query") []))

unfoldable pub suggestions_of : List Bytes → Bool → Bool → List Bytes
unfolding add_if list_contains
suggestions_of reasons star often =
    let indexed =
      list_contains reasons (text "slow_query")
      || list_contains reasons (text "frequent_and_slow") in
    add_if often (text "consider_caching") (
      add_if indexed (text "add_index_on_where_columns")
        (add_if star (text "avoid_select_star") []))

unfoldable pub derive_reasons_and_suggestions : SqlLog → ℤ → ℤ → ℤ → List Bytes × List Bytes
unfolding reasons_of suggestions_of
derive_reasons_and_suggestions it slow_ms freq_slow_ms freq_count =
    let star = contains (to_lower it.sql_query) (text "select *") in
    let slow = leb_ℤ slow_ms it.exec_time_ms in
    let often = leb_ℤ freq_count it.exec_count in
    let frequent = leb_ℤ freq_slow_ms it.exec_time_ms && often in
    let reasons = reasons_of slow frequent star in (reasons, suggestions_of reasons star often)

abbrev pub one_space : ℕ → ℕ
one_space c = if c == 10 then b' ' else c

-- `one[:n]`, or its beginning and an ellipsis.
unfoldable pub truncate_one_line : Bytes → ℤ → Bytes
truncate_one_line s n =
    if leb_ℤ n (pos 0)
    then []
    else (let one = map one_space s in
        if leb_ℤ (pos (length one)) n
        then one
        else if leb_ℤ n (pos 3)
        then take (pos_part n) one
        else take (pos_part n - 3) one ++ text "...")
