-- ===== src/Tests/Ai.antt =====
-- The analysis of slow queries at concrete inputs: no client, and a sort by insertion.
use anti_river_ten_demo.Prelude.{
  ◌≡◌, refl, none, arith, inl, inr, All, Bool, Bool-cases, count, ◌∷◌, if◌then◌else◌, Option, List,
  [],
}
use anti_river_ten_demo.Prelude.Int.{ℤ, ltb_ℤ, ◌≤ℤ◌}
use anti_river_ten_demo.Prelude.Sort.{insert, sort, insert-each}
use anti_river_ten_demo.Strings.{Bytes, text, str_eq, lower_byte, join}
use anti_river_ten_demo.Strconv.{parse_int, is_digit}
use anti_river_ten_demo.Exec.{Exec}
use anti_river_ten_demo.Db.{DbError}
use anti_river_ten_demo.Handlers.{Request}
use anti_river_ten_demo.Handlers.Ai.{limit_text, ai_analysis_handler}
use anti_river_ten_demo.Handlers.Ai.Answers.{
  SortLaws, Falling, Analyses, ai_analysis_handler-Analyses,
}
use anti_river_ten_demo.Handlers.Ai.Local.{
  analyze_query_locally, where_clause, clause_behind_blanks, clause_of, clause_ends, behind_blanks,
  skip_blanks, keyword, fields_from, is_word_byte, index_advice,
}
use anti_river_ten_demo.Sqllog.{SqlLog}
use anti_river_ten_demo.Tests.Logs.{memory_logs, memory_logs_lawful, one_log}

count-insert :
    (less : SqlLog → SqlLog → Bool) (p : SqlLog → Bool) (x : SqlLog) (ys : List SqlLog)
    → count p (insert less x ys) ≡ count p (x ∷ ys)
count-insert less p x [] = refl
count-insert less p x (y ∷ ys) = ground (arith, count-insert less p x ys)

count-sort :
    (less : SqlLog → SqlLog → Bool) (p : SqlLog → Bool) (xs : List SqlLog)
    → count p (sort less xs) ≡ count p xs
count-sort less p [] = refl
count-sort less p (x ∷ xs) =
    ground (arith, count-insert less p x (sort less xs), count-sort less p xs)

module _ (key : SqlLog → ℤ) where
  abbrev less_of : SqlLog → SqlLog → Bool
  less_of x y = ltb_ℤ (key y) (key x)

  below_more :
      (x y : SqlLog) (ys : List SqlLog)
      → key y ≤ℤ key x
      → All (λ z. key z ≤ℤ key y) ys
      → All (λ z. key z ≤ℤ key x) ys
  below_more x y [] h k = tt
  below_more x y (z ∷ ys) h (l, k) = (ground (arith, h, l), below_more x y ys h k)

  insert-Falling :
      (x : SqlLog) (ys : List SqlLog) → Falling key ys → Falling key (insert less_of x ys)
  insert-Falling x [] h = (tt, tt)
  insert-Falling x (y ∷ ys) (a, h) = elim (Bool-cases (ltb_ℤ (key x) (key y))) [
    | inl e ↦ rw e (
      insert-each less_of (λ z. key z ≤ℤ key y) x ys (ground (arith, e)) a,
      insert-Falling x ys h,
    )
    | inr e ↦
        let l : key y ≤ℤ key x = ground (arith, e) in rw e ((l, below_more x y ys l a), (a, h))
  ]

  sort-Falling : (xs : List SqlLog) → Falling key (sort less_of xs)
  sort-Falling [] = tt
  sort-Falling (x ∷ xs) = insert-Falling x (sort less_of xs) (sort-Falling xs)

sort_lawful : SortLaws sort
sort_lawful = record { same = count-sort; falling = sort-Falling }

abbrev none_scanned : DbError → memory_logs.World → List SqlLog
none_scanned e w = []

abbrev ai_request : Request
ai_request = record {
  method = text "GET";
  path = text "/v1/ai-analysis";
  authorization = [];
  query = λ key. if str_eq key (text "db_name") then text "db" else text "3";
  user = none;
}

abbrev no_client : Option (Bytes → Exec memory_logs.World Bytes (List Bytes))
no_client = none

ai_analysis_handler-Analyses_example :
    Analyses memory_logs sort no_client none_scanned sort_lawful
      (ai_request.query (text "db_name"))
      (parse_int (limit_text (ai_request.query (text "limit"))))
      one_log
      (ai_analysis_handler memory_logs sort no_client none_scanned ai_request one_log).0
ai_analysis_handler-Analyses_example =
    ai_analysis_handler-Analyses memory_logs sort no_client none_scanned sort_lawful
      memory_logs_lawful ai_request one_log

two_fields :
    analyze_query_locally (text "SELECT * FROM t wHere a = 1 and b>2  ORDER\nBY c")
    ≡ text "Add indexes on a, b"
unfolding analyze_query_locally where_clause clause_behind_blanks clause_of clause_ends
    behind_blanks skip_blanks keyword fields_from is_word_byte index_advice text lower_byte join
    is_digit
two_fields = refl

no_where : analyze_query_locally (text "SELECT 1") ≡ text "Recommendation: manual review required"
unfolding analyze_query_locally where_clause keyword index_advice text lower_byte
no_where = refl
