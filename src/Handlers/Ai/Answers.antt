-- ===== src/Handlers/Ai/Answers.antt =====
-- internal/http/handlers/ai_analysis.go: what the handler answers.
use anti_river_ten_demo.Prelude.{
  ℕ, zero, suc, ◌+◌, ◌≡◌, refl, sym, ap, ◌∙◌, ◌⊎◌, inl, inr, Bool, true, false, ◌&&◌, Option, none,
  some, List, [], ◌∷◌, map, ltb, length, length-take, take, drop, take-append-drop, count,
  count-append, All, Elem, Bool-cases, arith,
}
use Prim.Native.Nat.{min}
use anti_river_ten_demo.Prelude.Int.{ℤ, pos, ltb_ℤ, ◌≤ℤ◌}
use anti_river_ten_demo.Strings.{Bytes, text, is_empty, str_eq}
use anti_river_ten_demo.Strings.Laws.{str_eq_iff}
use anti_river_ten_demo.Strconv.{parse_int}
use anti_river_ten_demo.Exec.{Exec, Result, ok, err}
use anti_river_ten_demo.Db.{DbError, Query}
use anti_river_ten_demo.Db.Laws.{TableLaws, Listed}
use anti_river_ten_demo.Handlers.{Request}
use anti_river_ten_demo.Handlers.Ai.{
  QueryAnalysis, AnalysisReply, success, failure, limit_text, limit_of, rows_of, SortSlice, slower,
  slowest, analyses, analyzed, analyze_query_with_ai, ai_analysis_handler,
}
use anti_river_ten_demo.Sqllog.{SqlLog}
use anti_river_ten_demo.Sqllog.Repo.{LogStore, above_in, above, of_db, find_slow_queries, no_order}

-- The key falls along the list.
abbrev pub Falling : (SqlLog → ℤ) → List SqlLog → Type 0
Falling key [] = Unit
Falling key (x ∷ xs) = All (λ y. key y ≤ℤ key x) xs × Falling key xs

-- What sort.Slice promises: the same elements as often, and in order if less compares a key.
pub record SortLaws (sort_slice : SortSlice) : Type 0 where
  pub same :
      (less : SqlLog → SqlLog → Bool) (p : SqlLog → Bool) (xs : List SqlLog)
      → count p (sort_slice less xs) ≡ count p xs
  pub falling :
      (key : SqlLog → ℤ) (xs : List SqlLog)
      → Falling key (sort_slice (λ x y. ltb_ℤ (key y) (key x)) xs)

-- The query that an analysis is about.
abbrev pub subject : QueryAnalysis → ℕ × Bytes × ℤ × ℤ
subject a = (a.id, a.sql_query, a.exec_time_ms, a.exec_count)

abbrev pub query_of : SqlLog → ℕ × Bytes × ℤ × ℤ
query_of q = (q.id, q.sql_query, q.exec_time_ms, q.exec_count)

-- The chosen among the rows: as many as the limit allows, and none of the others is slower.
abbrev pub Chosen : ℕ → List SqlLog → List SqlLog → Type 0
Chosen limit rows xs =
    (rest : List SqlLog) × ((p : SqlLog → Bool) → count p xs + count p rest ≡ count p rows)
    × (length xs ≡ min limit (length rows))
    × All (λ x. All (λ y. y.exec_time_ms ≤ℤ x.exec_time_ms) rest) xs

drop_each : (P : SqlLog → Type 0) (k : ℕ) (xs : List SqlLog) → All P xs → All P (drop k xs)
drop_each P zero xs h = h
drop_each P (suc k) [] h = tt
drop_each P (suc k) (x ∷ xs) (p, h) = drop_each P k xs h

no_rest : (Q : SqlLog → SqlLog → Type 0) (xs : List SqlLog) → All (λ x. All (Q x) []) xs
no_rest Q [] = tt
no_rest Q (x ∷ xs) = (tt, no_rest Q xs)

Falling-split :
    (key : SqlLog → ℤ) (k : ℕ) (xs : List SqlLog)
    → Falling key xs
    → All (λ x. All (λ y. key y ≤ℤ key x) (drop k xs)) (take k xs)
Falling-split key zero xs h = tt
Falling-split key (suc k) [] h = tt
Falling-split key (suc k) (x ∷ xs) (below, h) =
    (drop_each (λ y. key y ≤ℤ key x) k xs below, Falling-split key k xs h)

count-length : (xs : List SqlLog) → count (λ x. true) xs ≡ length xs
count-length [] = refl
count-length (x ∷ xs) = ap suc (count-length xs)

slowest-Chosen :
    (sort_slice : SortSlice) (limit : ℕ) (rows : List SqlLog)
    → SortLaws sort_slice
    → Chosen limit rows (slowest sort_slice limit rows)
unfolding slowest
slowest-Chosen sort_slice limit rows sorting = elim (Bool-cases (ltb limit (length rows))) [
  | inl e ↦
      let s = sort_slice slower rows in
      let long =
        sym (count-length s) ∙ (sorting.same slower (λ x. true) rows ∙ count-length rows) in
      rw e (
        drop limit s,
        λ p.
            sym (count-append p (take limit s) (drop limit s))
            ∙ (ap (count p) (take-append-drop limit s) ∙ sorting.same slower p rows),
        length-take limit s ∙ ap (min limit) long,
        Falling-split (λ x. x.exec_time_ms) limit s (sorting.falling (λ x. x.exec_time_ms) rows),
      )
  | inr e ↦
      rw e
        ([], λ p. omega arith, ground arith, no_rest (λ x y. y.exec_time_ms ≤ℤ x.exec_time_ms) rows)
]

module _ (b : LogStore) (client : Option (Bytes → Exec b.World Bytes (List Bytes))) where
  open b use {World}

  map-analyses :
      (xs : List SqlLog) (w : World) → map subject (analyses b client xs w).0 ≡ map query_of xs
  unfolding analyses
  map-analyses [] w = refl
  map-analyses (q ∷ xs) w =
      ap (λ l. query_of q ∷ l) (map-analyses xs (analyze_query_with_ai b client q.sql_query w).1)

-- The queries of a database that take more than 500 ms and run more than 100 times.
abbrev pub slow_query : Bytes → Query SqlLog
slow_query name = record {
  condition = λ it.
      str_eq it.db_name name && (ltb_ℤ (pos 500) it.exec_time_ms && ltb_ℤ (pos 100) it.exec_count);
  before = no_order;
  limit = none;
  offset = none;
}

module _ (b : LogStore) (sort_slice : SortSlice)
    (client : Option (Bytes → Exec b.World Bytes (List Bytes)))
    (scanned : DbError → b.World → List SqlLog) (sorting : SortLaws sort_slice) where
  open b use {World, logs}

  abbrev SlowOf : Bytes → World → SqlLog → Type 0
  SlowOf name w it =
      Elem it (logs.rows w)
      × (it.db_name ≡ name)
      × (ltb_ℤ (pos 500) it.exec_time_ms ≡ true)
      × (ltb_ℤ (pos 100) it.exec_count ≡ true)

  -- The rows that the handler has, for an answer of the database.
  abbrev pub ReadRows : Bytes → World → Result DbError (List SqlLog) × World → List SqlLog → Type 0
  ReadRows name w (ok found, w') rows = (rows ≡ found) × All (SlowOf name w) rows
  ReadRows name w (err e, w') rows = rows ≡ scanned e w'

  -- The answer for a name and a limit.
  unfoldable pub Analyses : Bytes → Option ℤ → World → AnalysisReply → Type 0
  Analyses name limit w (failure code m) =
      ((code ≡ 400) × (is_empty name ≡ true))
      ⊎ ((code ≡ 500) × (is_empty name ≡ false) × (limit ≡ none))
  Analyses name limit w (success list) =
      (is_empty name ≡ false)
      × (n : ℤ) × (limit ≡ some n)
      × (rows : List SqlLog) × ReadRows name w (logs.find_rows (slow_query name) w) rows
      × (xs : List SqlLog) × (map subject list ≡ map query_of xs)
      × Chosen (limit_of (some n)) rows xs

  module _ {Stored : SqlLog → SqlLog → Type 0} {touch : ℕ → SqlLog → SqlLog}
      {Apart : World → World → Type 0} (laws : TableLaws logs Stored touch Apart) where
    slow_each :
        (name : Bytes) (w : World) (xs : List SqlLog)
        → All (λ it. Elem it (logs.rows w) × ((slow_query name).condition it ≡ true)) xs
        → All (SlowOf name w) xs
    slow_each name w [] h = tt
    slow_each name w (x ∷ xs) ((el, c), h) = (
      (el, (str_eq_iff x.db_name name).0 (ground (arith, c)), ground (arith, c), ground (arith, c)),
      slow_each name w xs h,
    )

    rows_of-ReadRows :
        (name : Bytes) (w : World) (found : Result DbError (List SqlLog) × World)
        → Listed (slow_query name) (logs.rows w) found.0
        → ReadRows name w found (rows_of scanned found.0 found.1)
    unfolding rows_of
    rows_of-ReadRows name w (ok rows, w') h = (refl, slow_each name w rows h.0)
    rows_of-ReadRows name w (err e, w') h = refl

    analyzed-Analyses :
        (name : Bytes) (w : World) (limit : Option ℤ)
        → is_empty name ≡ false
        → Analyses name limit w
            (analyzed b sort_slice client scanned limit (logs.find_rows (slow_query name) w)).0
    unfolding Analyses
    analyzed-Analyses name w none e = inr (refl, e, refl)
    analyzed-Analyses name w (some n) e =
        let (r, w') = logs.find_rows (slow_query name) w in
        let rows = rows_of scanned r w' in
        let xs = slowest sort_slice (limit_of (some n)) rows in
        (
          e,
          n,
          refl,
          rows,
          rows_of-ReadRows name w (r, w') (laws.find_answer (slow_query name) w),
          xs,
          map-analyses b client xs w',
          slowest-Chosen sort_slice (limit_of (some n)) rows sorting,
        )

    -- If the table keeps its laws and sort.Slice sorts, the handler answers 400 exactly for an empty
    -- name and 500 only for a limit that is no number. Otherwise it answers with success: it has one
    -- analysis, in the answer, for each of the chosen rows, as many as there are and the limit allows,
    -- and no row that is left out is slower than a chosen one. The rows are the ones that the database
    -- answers, stored queries of that name with more than 500 ms and more than 100 runs; after an error
    -- of the database, which is not reported, they are those that were scanned before it.
    pub ai_analysis_handler-Analyses :
        (r : Request) (w : World)
        → Analyses
            (r.query (text "db_name"))
            (parse_int (limit_text (r.query (text "limit"))))
            w
            (ai_analysis_handler b sort_slice client scanned r w).0
    unfolding Analyses ai_analysis_handler find_slow_queries above_in above of_db
    ai_analysis_handler-Analyses r w =
        let name = r.query (text "db_name") in
        elim (Bool-cases (is_empty name)) [
          | inl e ↦ rw e (inl (refl, e))
          | inr e ↦
              rw e (analyzed-Analyses name w (parse_int (limit_text (r.query (text "limit")))) e)
        ]
