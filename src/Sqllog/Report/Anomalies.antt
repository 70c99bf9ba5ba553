-- ===== src/Sqllog/Report/Anomalies.antt =====
-- internal/sqllog/report.go: what a report says of an anomaly, and how much it lists.
use anti_river_ten_demo.Prelude.{
  ℕ, zero, suc, ◌-◌, ◌≤◌, ◌≡◌, refl, Bool, true, false, ◌&&◌, ◌||◌, [], ◌∷◌, map, All, All-append,
  arith, length, length-append, length-take, take, ◌==◌, inl, inr, Bool-cases,
}
use anti_river_ten_demo.Prelude.Int.{ℤ, pos, pos_part, leb_ℤ, ◌≤ℤ◌}
use anti_river_ten_demo.Strings.{Bytes, text, str_eq, contains, to_lower}
use anti_river_ten_demo.Sqllog.{SqlLog}
use anti_river_ten_demo.Sqllog.Report.{
  effective_cap, clamp_limit, is_anomaly, list_contains, reasons_of, suggestions_of,
  derive_reasons_and_suggestions, truncate_one_line, one_space,
}

-- The texts over all conditions.
derived :
    (slow frequent star often : Bool)
    → (list_contains (reasons_of slow frequent star) (text "slow_query") ≡ slow)
      × (list_contains (reasons_of slow frequent star) (text "frequent_and_slow") ≡ frequent)
      × (list_contains
            (suggestions_of (reasons_of slow frequent star) star often)
            (text "add_index_on_where_columns")
          ≡ (slow || frequent))
      × (list_contains
            (suggestions_of (reasons_of slow frequent star) star often)
            (text "avoid_select_star")
          ≡ star)
      × (list_contains
            (suggestions_of (reasons_of slow frequent star) star often)
            (text "consider_caching")
          ≡ often)
unfolding reasons_of suggestions_of text str_eq
derived true true true true = (refl, refl, refl, refl, refl)
derived true true true false = (refl, refl, refl, refl, refl)
derived true true false true = (refl, refl, refl, refl, refl)
derived true true false false = (refl, refl, refl, refl, refl)
derived true false true true = (refl, refl, refl, refl, refl)
derived true false true false = (refl, refl, refl, refl, refl)
derived true false false true = (refl, refl, refl, refl, refl)
derived true false false false = (refl, refl, refl, refl, refl)
derived false true true true = (refl, refl, refl, refl, refl)
derived false true true false = (refl, refl, refl, refl, refl)
derived false true false true = (refl, refl, refl, refl, refl)
derived false true false false = (refl, refl, refl, refl, refl)
derived false false true true = (refl, refl, refl, refl, refl)
derived false false true false = (refl, refl, refl, refl, refl)
derived false false false true = (refl, refl, refl, refl, refl)
derived false false false false = (refl, refl, refl, refl, refl)

-- A record gets the suggestion to add an index exactly if the anomaly filter of the query selects
-- it, so every listed anomaly has a suggestion; it gets the one on SELECT * exactly if the query
-- has that text in any case, and the one on caching exactly if its count reaches the threshold.
pub derive_reasons_and_suggestions_lem :
    (it : SqlLog) (slow_ms freq_slow_ms freq_count : ℤ)
    → (list_contains
          (derive_reasons_and_suggestions it slow_ms freq_slow_ms freq_count).1
          (text "add_index_on_where_columns")
        ≡ is_anomaly slow_ms freq_slow_ms freq_count it)
      × (list_contains
            (derive_reasons_and_suggestions it slow_ms freq_slow_ms freq_count).1
            (text "avoid_select_star")
          ≡ contains (to_lower it.sql_query) (text "select *"))
      × (list_contains
            (derive_reasons_and_suggestions it slow_ms freq_slow_ms freq_count).1
            (text "consider_caching")
          ≡ leb_ℤ freq_count it.exec_count)
unfolding derive_reasons_and_suggestions is_anomaly
derive_reasons_and_suggestions_lem it slow_ms freq_slow_ms freq_count =
    let (_, _, index, star, caching) =
      derived (leb_ℤ slow_ms it.exec_time_ms)
        (leb_ℤ freq_slow_ms it.exec_time_ms && leb_ℤ freq_count it.exec_count)
        (contains (to_lower it.sql_query) (text "select *")) (leb_ℤ freq_count it.exec_count) in
    (index, star, caching)

-- The limit of a report is at least 1; a limit that is asked for is never exceeded, nor is the cap,
-- and a limit that is not positive becomes 500.
pub clamp_limit_lem :
    (n cap : ℤ)
    → (pos 1 ≤ℤ clamp_limit n cap)
      × (leb_ℤ n (pos 0) ≡ true → clamp_limit n cap ≡ pos 500)
      × (leb_ℤ n (pos 0) ≡ false
          → (clamp_limit n cap ≤ℤ n) × (clamp_limit n cap ≤ℤ effective_cap cap))
unfolding clamp_limit effective_cap
clamp_limit_lem n cap = (ground arith, λ h. rw h, λ h. (ground arith, ground arith))

abbrev pub NoLineFeed : Bytes → Type 0
NoLineFeed = All (λ c. (c == 10) ≡ false)

map-NoLineFeed : (s : Bytes) → NoLineFeed (map one_space s)
map-NoLineFeed [] = tt
map-NoLineFeed (c ∷ s) = (ground arith, map-NoLineFeed s)

take-NoLineFeed : (n : ℕ) (s : Bytes) → NoLineFeed s → NoLineFeed (take n s)
take-NoLineFeed zero s h = tt
take-NoLineFeed (suc n) [] h = tt
take-NoLineFeed (suc n) (c ∷ s) (hc, h) = (hc, take-NoLineFeed n s h)

dots : NoLineFeed (text "...")
unfolding text
dots = (refl, (refl, (refl, tt)))

truncate_one_line-NoLineFeed : (s : Bytes) (n : ℤ) → NoLineFeed (truncate_one_line s n)
unfolding truncate_one_line
truncate_one_line-NoLineFeed s n =
    let one = map one_space s in
    let plain : NoLineFeed one = map-NoLineFeed s in
    elim (Bool-cases (leb_ℤ n (pos 0))) [
      | inl e ↦ rw e tt
      | inr e ↦ elim (Bool-cases (leb_ℤ (pos (length one)) n)) [
        | inl e' ↦ rw (e, e') plain
        | inr e' ↦ elim (Bool-cases (leb_ℤ n (pos 3))) [
          | inl e'' ↦ rw (e, e', e'') (take-NoLineFeed (pos_part n) one plain)
          | inr e'' ↦
              rw (e, e', e'')
                (All-append _ (take (pos_part n - 3) one) (text "...")
                  (take-NoLineFeed (pos_part n - 3) one plain) dots)
        ]
      ]
    ]

length-truncate_one_line : (s : Bytes) (n : ℤ) → length (truncate_one_line s n) ≤ pos_part n
unfolding truncate_one_line text
length-truncate_one_line s n = ground (
  arith,
  length-append (take (pos_part n - 3) (map one_space s)) (text "..."),
  length-take (pos_part n - 3) (map one_space s),
  length-take (pos_part n) (map one_space s),
)

-- A text of the report's table is on one line and has at most as many bytes as are asked for.
pub truncate_one_line_lem :
    (s : Bytes) (n : ℤ)
    → (length (truncate_one_line s n) ≤ pos_part n) × NoLineFeed (truncate_one_line s n)
truncate_one_line_lem s n = (length-truncate_one_line s n, truncate_one_line-NoLineFeed s n)
