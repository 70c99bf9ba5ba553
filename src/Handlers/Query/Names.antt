-- ===== src/Handlers/Query/Names.antt =====
-- internal/http/handlers/sqllog_query.go: which names are listed, and what a list by database has.
use anti_river_ten_demo.Prelude.{
  arith, ltb, none, ℕ, ◌≡◌, refl, ap, ◌∙◌, subst, ◌↔◌, ◌⊎◌, inl, inr, true, false, List, [], ◌∷◌,
  map, All, Bool-cases, length, if◌then◌else◌,
}
use anti_river_ten_demo.Strings.{Bytes, text, is_empty, str_eq, trim_space}
use anti_river_ten_demo.Strings.Laws.{str_eq_iff}
use anti_river_ten_demo.Exec.{
  Result, ok, err, pure, raise, catch, check, ◌>>=◌, fail_with, continue,
}
use anti_river_ten_demo.Db.{DbError, Query}
use anti_river_ten_demo.Db.Laws.{TableLaws, Elem, Listed}
use anti_river_ten_demo.Handlers.{
  Reply, json, plain_error, error_envelope, no_body, Request, finish, merge, status,
}
use anti_river_ten_demo.Handlers.Query.{
  is_db_name, safe_names, DatabasesResp, log_item, ByDbResp, by_db_resp, names_failed, query_failed,
  list_databases_handler, list_by_db_handler,
}
use anti_river_ten_demo.Handlers.Query.Allowed.{DbName, name-DbName, DbName-name, not-DbName}
use anti_river_ten_demo.Sqllog.{SqlLog}
use anti_river_ten_demo.Sqllog.Repo.{LogStore, list_databases, find_by_db, of_db, newest_log_first}

-- A name that a name of the list trims to, and that the expression allows.
abbrev SafeName : List Bytes → Bytes → Type 0
SafeName names n = (is_db_name n ≡ true) × (m : Bytes) × Elem m names × (n ≡ trim_space m)

later_name : (m n : Bytes) (names : List Bytes) → SafeName names n → SafeName (m ∷ names) n
later_name m n names (s, o, el, e) = (s, o, inr el, e)

safe_names_sound : (n : Bytes) (names : List Bytes) → Elem n (safe_names names) → SafeName names n
unfolding safe_names
safe_names_sound n [] h = absurd h
safe_names_sound n (m ∷ names) h = elim (Bool-cases (is_db_name (trim_space m))) [
  | inr e ↦ later_name m n names (safe_names_sound n names (rw e at h))
  | inl e ↦
      elim (subst (λ b. Elem n (if b then trim_space m ∷ safe_names names else safe_names names)) e
        h) [
          | inl p ↦ (rw p e, m, inl refl, p)
          | inr el ↦ later_name m n names (safe_names_sound n names el)
        ]
]

safe_names_complete :
    (n m : Bytes) (names : List Bytes)
    → is_db_name n ≡ true
    → Elem m names
    → n ≡ trim_space m
    → Elem n (safe_names names)
unfolding safe_names
safe_names_complete n m [] s el e = absurd el
safe_names_complete n m (k ∷ names) s (inl p) e =
    let known : is_db_name (trim_space k) ≡ true = rw (← p, ← e) s in
    rw known (inl (rw (e, p) refl))
safe_names_complete n m (k ∷ names) s (inr el) e = elim (Bool-cases (is_db_name (trim_space k))) [
  | inl f ↦ rw f (inr (safe_names_complete n m names s el e))
  | inr f ↦ rw f (safe_names_complete n m names s el e)
]

-- SELECT DISTINCT db_name: the names of the records, in an answer that is not an error.
abbrev pub NamesOf : List SqlLog → Result DbError (List Bytes) → Type 0
NamesOf rows (ok names) = (n : Bytes) → Elem n names ↔ Elem n (map (λ it. it.db_name) rows)
NamesOf rows (err e) = Unit

record_named :
    (n : Bytes) (rows : List SqlLog)
    → Elem n (map (λ it. it.db_name) rows)
    → (it : SqlLog) × Elem it rows × (n ≡ it.db_name)
record_named n [] h = absurd h
record_named n (r ∷ rows) (inl e) = (r, inl refl, e)
record_named n (r ∷ rows) (inr h) = let (it, el, e) = record_named n rows h in (it, inr el, e)

name_of_record :
    (it : SqlLog) (rows : List SqlLog) → Elem it rows → Elem it.db_name (map (λ r. r.db_name) rows)
name_of_record it [] h = absurd h
name_of_record it (r ∷ rows) (inl e) = inl (ap (λ z. z.db_name) e)
name_of_record it (r ∷ rows) (inr h) = inr (name_of_record it rows h)

-- A name that the list shows: that of a stored record without its outer spaces, if it is accepted.
abbrev pub Shown : List SqlLog → Bytes → Type 0
Shown rows n = DbName n × (it : SqlLog) × Elem it rows × (n ≡ trim_space it.db_name)

safe_names-Shown :
    (rows : List SqlLog) (names : List Bytes)
    → NamesOf rows (ok names)
    → (n : Bytes) → Elem n (safe_names names) ↔ Shown rows n
safe_names-Shown rows names law n = (
  λ h.
      let (safe, m, el, e) = safe_names_sound n names h in
      let (it, el', e') = record_named m rows ((law m).0 el) in
      (name-DbName n safe, it, el', e ∙ ap trim_space e'),
  λ (name, it, el, e).
      safe_names_complete n it.db_name names (DbName-name n name)
        ((law it.db_name).1 (name_of_record it rows el)) e,
)

-- The answer for the records and the answer of the database.
unfoldable pub NamesListed :
    List SqlLog → Result DbError (List Bytes) → Reply DatabasesResp → Type 0
NamesListed rows (err e) reply = status reply ≡ 500
NamesListed rows (ok names) (json code resp) =
    (code ≡ 200) × ((n : Bytes) → Elem n resp.databases ↔ Shown rows n)
NamesListed rows (ok names) (plain_error code m) = ⊥
NamesListed rows (ok names) (error_envelope code c m) = ⊥
NamesListed rows (ok names) (no_body code) = ⊥

-- The records of one database, newest first.
abbrev pub by_db_query : Bytes → Query SqlLog
by_db_query name = record {
  condition = λ it. str_eq it.db_name name;
  before = newest_log_first;
  limit = none;
  offset = none;
}

-- The answer of the handler for that of the database, and the rows of the table before and after.
unfoldable pub FoundByDb :
    Bytes → Result DbError (List SqlLog) → List SqlLog → List SqlLog → Reply ByDbResp → Type 0
FoundByDb name found old new (json code resp) =
    (code ≡ 200)
    × (new ≡ old)
    × DbName name
    × (xs : List SqlLog) × (found ≡ ok xs)
    × (resp.items ≡ map log_item xs)
    × All (λ it. Elem it old × (it.db_name ≡ name)) xs
    × (ltb 0 (length xs) ≡ is_empty resp.message)
FoundByDb name found old new (error_envelope code c m) =
    (new ≡ old)
    × (((code ≡ 400) × ¬ DbName name)
        ⊎ ((code ≡ 500) × DbName name × (e : DbError) × (found ≡ err e)))
FoundByDb name found old new (plain_error code m) = ⊥
FoundByDb name found old new (no_body code) = ⊥

module _ (b : LogStore) where
  open b use {World, logs, distinct_db_names}

  names_answer :
      (o : Result DbError (List Bytes)) (rows : List SqlLog) (w : World)
      → NamesOf rows o
      → NamesListed rows o (
          merge
            (continue
              (fail_with names_failed o)
              (λ names. pure (json 200 (record { databases = safe_names names })))
              w).0)
  unfolding NamesListed pure
  names_answer (err e) rows w law = refl
  names_answer (ok names) rows w law = (refl, safe_names-Shown rows names law)

  -- If the database answers with the distinct names of the records, the list of the databases has
  -- exactly the texts of 1 to 128 allowed bytes that the name of some stored record is without its
  -- outer spaces; an error of the database gives 500.
  pub list_databases_handler-NamesListed :
      ((w : World) → NamesOf (logs.rows w) (distinct_db_names w).0)
      → (w : World)
      → NamesListed (logs.rows w) (distinct_db_names w).0 (list_databases_handler b w).0
  unfolding list_databases_handler finish ◌>>=◌ catch list_databases
  list_databases_handler-NamesListed law w =
      names_answer (distinct_db_names w).0 (logs.rows w) (distinct_db_names w).1 (law w)

empty-is_db_name : (s : Bytes) → is_empty s ≡ true → is_db_name s ≡ false
unfolding is_db_name
empty-is_db_name s h = rw h refl

module _ (b : LogStore) {Stored : SqlLog → SqlLog → Type 0} {touch : ℕ → SqlLog → SqlLog}
    {Outside : b.World → b.World → Type 0} (laws : TableLaws b.logs Stored touch Outside) where
  open b use {World, logs}

  named_each :
      (name : Bytes) (rows xs : List SqlLog)
      → All (λ it. Elem it rows × (str_eq it.db_name name ≡ true)) xs
      → All (λ it. Elem it rows × (it.db_name ≡ name)) xs
  named_each name rows [] h = tt
  named_each name rows (x ∷ xs) ((el, e), h) =
      ((el, (str_eq_iff x.db_name name).0 e), named_each name rows xs h)

  rows_answer :
      (name : Bytes) (old new rows : List SqlLog)
      → new ≡ old
      → DbName name
      → All (λ it. Elem it old × (it.db_name ≡ name)) rows
      → FoundByDb name (ok rows) old new (json 200 (by_db_resp rows))
  unfolding FoundByDb by_db_resp text
  rows_answer name old new [] kept s h = (refl, kept, s, [], refl, refl, h, refl)
  rows_answer name old new (r ∷ rows) kept s h =
      (refl, kept, s, r ∷ rows, refl, refl, h, ground arith)

  found_answer :
      (name : Bytes) (o : Result DbError (List SqlLog)) (old : List SqlLog) (w : World)
      → DbName name
      → logs.rows w ≡ old
      → Listed (by_db_query name) old o
      → (let end =
            continue (fail_with query_failed o) (λ rows. pure (json 200 (by_db_resp rows))) w in
          FoundByDb name o old (logs.rows end.1) (merge end.0))
  unfolding FoundByDb pure
  found_answer name (err e) old w s kept h = (kept, inr (refl, s, e, refl))
  found_answer name (ok rows) old w s kept h =
      rows_answer name old (logs.rows w) rows kept s (named_each name old rows h.0)

  -- If the table keeps its laws, a list by database answers 400 exactly when the trimmed name is
  -- not one of 1 to 128 allowed bytes; otherwise it answers 500 only for an error of the database,
  -- or 200 and then the items that the database lists, newest first, all of stored records of that
  -- name, with a message if and only if there are none. The records stay as they are.
  pub list_by_db_handler-FoundByDb :
      (r : Request) (w : World)
      → FoundByDb
          (trim_space (r.query (text "db")))
          (logs.find_rows (by_db_query (trim_space (r.query (text "db")))) w).0
          (logs.rows w)
          (logs.rows (list_by_db_handler b r w).1)
          (list_by_db_handler b r w).0
  unfolding FoundByDb list_by_db_handler finish ◌>>=◌ catch check pure raise find_by_db of_db
  list_by_db_handler-FoundByDb r w =
      let name = trim_space (r.query (text "db")) in
      let q = by_db_query name in
      elim (Bool-cases (is_empty name)) [
        | inl e ↦ rw e (refl, inl (refl, not-DbName name (empty-is_db_name name e)))
        | inr e ↦ elim (Bool-cases (is_db_name name)) [
          | inr f ↦ rw (e, f) (refl, inl (refl, not-DbName name f))
          | inl f ↦
              rw (e, f)
                (found_answer name (logs.find_rows q w).0 (logs.rows w) (logs.find_rows q w).1
                  (name-DbName name f) (laws.find_kept q w) (laws.find_answer q w))
        ]
      ]
