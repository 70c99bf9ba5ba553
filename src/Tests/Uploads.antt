-- ===== src/Tests/Uploads.antt =====
-- The properties of the upload and of the lists of the SQL logs at concrete inputs.
use anti_river_ten_demo.Prelude.{
  none, [], ◌≡◌, refl, sym, subst, ◌↔◌, inl, inr, Bool, true, not, List, ◌∷◌, map, filter,
  Bool-cases, if◌then◌else◌, Elem,
}
use anti_river_ten_demo.Strings.{Bytes, text, str_eq, trim_space}
use anti_river_ten_demo.Strings.Laws.{str_eq_iff}
use anti_river_ten_demo.Db.Memory.{memory_table, rows_of}
use anti_river_ten_demo.Handlers.{Request}
use anti_river_ten_demo.Handlers.Upload.{Form, form_file, upload_handler}
use anti_river_ten_demo.Handlers.Upload.Outcome.{Uploaded, upload_handler-Uploaded}
use anti_river_ten_demo.Handlers.Query.{list_databases_handler, list_by_db_handler}
use anti_river_ten_demo.Handlers.Query.Names.{
  NamesListed, NamesOf, by_db_query, list_databases_handler-NamesListed, FoundByDb,
  list_by_db_handler-FoundByDb,
}
use anti_river_ten_demo.Sqllog.Repo.{RepoError}
use anti_river_ten_demo.Tests.Logs.{
  memory_logs, memory_logs_lawful, distinct, one_log, upload_lines, no_text,
}

abbrev repo_text : RepoError → Bytes
repo_text e = text "database"

abbrev pub log_form : Form
log_form = form_file (record {
  filename = text "logs/Day.LOG";
  content_type = text "text/plain; charset=utf-8";
  lines = upload_lines;
  failure = none;
})

upload_handler-Uploaded_example :
    Uploaded memory_logs repo_text no_text log_form one_log
      (upload_handler memory_logs repo_text no_text log_form one_log).0
      (upload_handler memory_logs repo_text no_text log_form one_log).1
upload_handler-Uploaded_example =
    upload_handler-Uploaded memory_logs repo_text no_text log_form one_log

filter-Elem : (p : Bytes → Bool) (n : Bytes) (ns : List Bytes) → Elem n (filter p ns) → Elem n ns
filter-Elem p n [] h = absurd h
filter-Elem p n (m ∷ ns) h = elim (Bool-cases (p m)) [
  | inl e ↦ elim (subst (λ c. Elem n (if c then m ∷ filter p ns else filter p ns)) e h) [
    | inl k ↦ inl k
    | inr k ↦ inr (filter-Elem p n ns k)
  ]
  | inr e ↦ inr (filter-Elem p n ns (rw e at h))
]

Elem-filter :
    (p : Bytes → Bool) (n : Bytes) (ns : List Bytes) → p n ≡ true → Elem n ns → Elem n (filter p ns)
Elem-filter p n (m ∷ ns) h (inl e) = let k : p m ≡ true = rw (← e) h in rw k (inl e)
Elem-filter p n (m ∷ ns) h (inr el) = elim (Bool-cases (p m)) [
  | inl k ↦ rw k (inr (Elem-filter p n ns h el))
  | inr k ↦ rw k (Elem-filter p n ns h el)
]
Elem-filter p n [] h el = absurd el

distinct-Elem : (n : Bytes) (ns : List Bytes) → Elem n (distinct ns) ↔ Elem n ns
distinct-Elem n [] = (λ h. h, λ h. h)
distinct-Elem n (m ∷ ns) = (
  λ h. elim h [
    | inl e ↦ inl e
    | inr k ↦ inr ((distinct-Elem n ns).0 (filter-Elem (λ o. not (str_eq m o)) n (distinct ns) k))
  ],
  λ h. elim h [
    | inl e ↦ inl e
    | inr k ↦ elim (Bool-cases (str_eq m n)) [
      | inl same ↦ inl (sym ((str_eq_iff m n).0 same))
      | inr other ↦ inr (
          Elem-filter (λ o. not (str_eq m o)) n (distinct ns) (rw other refl)
            ((distinct-Elem n ns).1 k))
    ]
  ],
)

distinct_names :
    (w : memory_logs.World) → NamesOf (memory_logs.logs.rows w) (memory_logs.distinct_db_names w).0
unfolding memory_logs memory_table rows_of
distinct_names w n = distinct-Elem n (map (λ it. it.db_name) w)

list_databases_handler-NamesListed_example :
    NamesListed
      (memory_logs.logs.rows one_log)
      (memory_logs.distinct_db_names one_log).0
      (list_databases_handler memory_logs one_log).0
list_databases_handler-NamesListed_example =
    list_databases_handler-NamesListed memory_logs distinct_names one_log

abbrev db_request : Request
db_request = record {
  method = text "GET";
  path = text "/v1/sql-logs";
  authorization = [];
  query = λ key. text " db ";
  user = none;
}

list_by_db_handler-FoundByDb_example :
    FoundByDb
      (trim_space (text " db "))
      (memory_logs.logs.find_rows (by_db_query (trim_space (text " db "))) one_log).0
      (memory_logs.logs.rows one_log)
      (memory_logs.logs.rows (list_by_db_handler memory_logs db_request one_log).1)
      (list_by_db_handler memory_logs db_request one_log).0
list_by_db_handler-FoundByDb_example =
    list_by_db_handler-FoundByDb memory_logs memory_logs_lawful db_request one_log
