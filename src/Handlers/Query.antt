-- ===== src/Handlers/Query.antt =====
-- internal/http/handlers/sqllog_query.go: the names of the databases and the records of one.
pub mod Allowed
pub mod Names
use anti_river_ten_demo.Prelude.{
  ℕ, Bool, true, false, not, ◌&&◌, ◌||◌, Option, List, [], ◌∷◌, map, all, leb, ◌==◌, length,
  if◌then◌else◌,
}
use anti_river_ten_demo.Prelude.Int.{ℤ}
use anti_river_ten_demo.Strings.{Bytes, text, is_empty, trim_space}
use anti_river_ten_demo.Strconv.{is_digit}
use anti_river_ten_demo.Exec.{Exec, pure, catch, check, ◌>>=◌, ◌>>◌}
use anti_river_ten_demo.Db.{DbError}
use anti_river_ten_demo.Handlers.{Reply, error_envelope, json, Request, finish}
use anti_river_ten_demo.Sqllog.{SqlLog}
use anti_river_ten_demo.Sqllog.Repo.{LogStore, list_databases, find_by_db}

-- The class [A-Za-z0-9_.-] of dbNameRE.
unfoldable pub is_name_byte : ℕ → Bool
is_name_byte c =
    leb b'A' c && leb c b'Z'
    || leb b'a' c && leb c b'z'
    || is_digit c
    || c == b'_'
    || c == b'.'
    || c == b'-'

-- dbNameRE.MatchString
unfoldable pub is_db_name : Bytes → Bool
is_db_name s = not (is_empty s) && leb (length s) 128 && all is_name_byte s

-- The loop that drops unsafe names.
unfoldable pub safe_names : List Bytes → List Bytes
safe_names [] = []
safe_names (n ∷ names) =
    let rest = safe_names names in
    let trim = trim_space n in if is_db_name trim then trim ∷ rest else rest

pub record DatabasesResp : Type 0 where
  pub databases : List Bytes

pub record LogItem : Type 0 where
  pub sql_query : Bytes
  pub exec_time_ms : ℤ
  pub exec_count : ℤ

unfoldable pub log_item : SqlLog → LogItem
log_item r = record {
  sql_query = r.sql_query;
  exec_time_ms = r.exec_time_ms;
  exec_count = r.exec_count;
}

-- `message` is empty where the response has none.
pub record ByDbResp : Type 0 where
  pub message : Bytes
  pub items : List LogItem

unfoldable pub by_db_resp : List SqlLog → ByDbResp
by_db_resp [] = record { message = text "Không tìm thấy truy vấn nào cho DB này"; items = [] }
by_db_resp (r ∷ rows) = record { message = []; items = map log_item (r ∷ rows) }

module _ {A : Type 0} where
  abbrev pub missing_db : Reply A
  missing_db = error_envelope 400 (text "bad_request") (text "missing db parameter")

  abbrev pub invalid_db : Reply A
  invalid_db =
      error_envelope 400 (text "bad_request")
        (text "invalid db parameter; allowed [A-Za-z0-9_.-], max length 128")

  abbrev pub names_failed : DbError → Reply A
  names_failed e = error_envelope 500 (text "internal_error") (text "failed to list databases")

  abbrev pub query_failed : DbError → Reply A
  query_failed e = error_envelope 500 (text "internal_error") (text "failed to query logs")

module _ (b : LogStore) where
  open b use {World}

  unfoldable pub list_databases_handler : World → Reply DatabasesResp × World
  list_databases_handler = finish (do
    names ← catch names_failed (list_databases b)
    pure (json 200 (record { databases = safe_names names })))

  unfoldable pub list_by_db_handler : Request → World → Reply ByDbResp × World
  list_by_db_handler r = finish (do
    let db_name = trim_space (r.query (text "db"))
    check (not (is_empty db_name)) missing_db
    check (is_db_name db_name) invalid_db
    rows ← catch query_failed (find_by_db b db_name)
    pure (json 200 (by_db_resp rows)))
