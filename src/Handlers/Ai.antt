-- ===== src/Handlers/Ai.antt =====
-- internal/http/handlers/ai_analysis.go: the analysis of the slow queries of a database. The client
-- of OpenAI is a parameter, and so are sort.Slice, which leaves the order of equal times open, and
-- the rows that Find leaves in its slice beside an error.
pub mod Local
pub mod Answers
use anti_river_ten_demo.Prelude.{
  ℕ, Bool, true, false, Option, none, some, List, [], ◌∷◌, ◌++◌, ltb, length, take, if◌then◌else◌,
}
use anti_river_ten_demo.Prelude.Int.{ℤ, pos, pos_part, leb_ℤ, ltb_ℤ}
use anti_river_ten_demo.Strings.{Bytes, text, is_empty, trim_space}
use anti_river_ten_demo.Strconv.{parse_int}
use anti_river_ten_demo.Exec.{Exec, Result, ok, err}
use anti_river_ten_demo.Db.{DbError}
use anti_river_ten_demo.Handlers.{Request}
use anti_river_ten_demo.Handlers.Ai.Local.{analyze_query_locally, manual_review}
use anti_river_ten_demo.Sqllog.{SqlLog}
use anti_river_ten_demo.Sqllog.Repo.{LogStore, find_slow_queries}

pub record QueryAnalysis : Type 0 where
  pub id : ℕ
  pub sql_query : Bytes
  pub exec_time_ms : ℤ
  pub exec_count : ℤ
  pub suggestions : Bytes

-- writeSuccessResponse and writeErrorResponse: AnalysisResult with its status.
pub data AnalysisReply : Type 0 where
  success : List QueryAnalysis → AnalysisReply
  failure : ℕ → Bytes → AnalysisReply

-- The limit, and whether Atoi has failed: that is the error which is tested further down.
unfoldable pub limit_text : Bytes → Bytes
limit_text s = if is_empty s then text "5" else s

unfoldable pub limit_of : Option ℤ → ℕ
limit_of none = 5
limit_of (some n) = if leb_ℤ n (pos 0) then 5 else pos_part n

-- The slice behind FindSlowQueries, whose error is overwritten: Find may have scanned rows into it
-- before it failed, `scanned`.
unfoldable pub rows_of :
    {W : Type 0} → (DbError → W → List SqlLog) → Result DbError (List SqlLog) → W → List SqlLog
rows_of scanned (ok rows) w = rows
rows_of scanned (err e) w = scanned e w

abbrev pub prompt : Bytes → Bytes
prompt sql_query =
    text
      "You are a database optimization assistant.\nYour task is to analyze unusual SQL queries and provide optimization suggestions based on the following rules:\nWhen an SQL query is detected, analyze the WHERE clause to identify the fields used.\nIf the WHERE clause contains a single field, suggest: \"Add index on [field_name]\".\nIf the WHERE clause has multiple fields, suggest indexes for all relevant fields.\nContinue analysis the query to identify potential performance improvements.\nIf the query cannot be analyzed to provide suggestions, return: \"Recommendation: manual review required\".\nApply these rules to any SQL statement I provide.\n\nLimit answer to 100 words.\nQuery to analyze:\n"
    ++ sql_query

-- The suggestions, with the fallback of the handler for an error and for no choices.
unfoldable pub suggestions_or : Result Bytes (List Bytes) → Bytes
suggestions_or (err e) = manual_review
suggestions_or (ok []) = manual_review
suggestions_or (ok (choice ∷ choices)) = trim_space choice

-- sort.Slice, of a less function and a slice.
abbrev pub SortSlice : Type 0
SortSlice = (SqlLog → SqlLog → Bool) → List SqlLog → List SqlLog

-- queries[i].ExecTimeMs > queries[j].ExecTimeMs
abbrev pub slower : SqlLog → SqlLog → Bool
slower p q = ltb_ℤ q.exec_time_ms p.exec_time_ms

-- At most so many queries, the slowest if there are more.
unfoldable pub slowest : SortSlice → ℕ → List SqlLog → List SqlLog
slowest sort_slice limit queries =
    if ltb limit (length queries) then take limit (sort_slice slower queries) else queries

module _ (b : LogStore) (client : Option (Bytes → Exec b.World Bytes (List Bytes))) where
  open b use {World}

  abbrev ask : Option (Bytes → Exec World Bytes (List Bytes)) → Bytes → World → Bytes × World
  ask none sql_query w = (analyze_query_locally sql_query, w)
  ask (some complete) sql_query w =
      let (r, w') = complete (prompt sql_query) w in (suggestions_or r, w')

  unfoldable pub analyze_query_with_ai : Bytes → World → Bytes × World
  analyze_query_with_ai = ask client

  -- The loop over the queries.
  unfoldable pub analyses : List SqlLog → World → List QueryAnalysis × World
  analyses [] w = ([], w)
  analyses (q ∷ queries) w =
      let (s, w') = analyze_query_with_ai q.sql_query w in
      let (rest, w'') = analyses queries w' in
      (
        record {
          id = q.id;
          sql_query = q.sql_query;
          exec_time_ms = q.exec_time_ms;
          exec_count = q.exec_count;
          suggestions = s;
        }
            ∷ rest,
        w'',
      )

module _ (b : LogStore) (sort_slice : SortSlice)
    (client : Option (Bytes → Exec b.World Bytes (List Bytes)))
    (scanned : DbError → b.World → List SqlLog) where
  open b use {World}

  abbrev succeed : List QueryAnalysis × World → AnalysisReply × World
  succeed (data_list, w) = (success data_list, w)

  abbrev pub analyzed : Option ℤ → Result DbError (List SqlLog) × World → AnalysisReply × World
  analyzed none (r, w) = (failure 500 (text "Failed to query database"), w)
  analyzed (some n) (r, w) =
      succeed (analyses b client (slowest sort_slice (limit_of (some n)) (rows_of scanned r w)) w)

  unfoldable pub ai_analysis_handler : Request → World → AnalysisReply × World
  ai_analysis_handler r w =
      let name = r.query (text "db_name") in
      if is_empty name
      then (failure 400 (text "db_name parameter is required"), w)
      else analyzed (parse_int (limit_text (r.query (text "limit")))) (find_slow_queries b name w)
