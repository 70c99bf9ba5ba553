-- ===== src/Startup/Load.antt =====
-- cmd/api/main.go: the log file that is read when the server starts.
use anti_river_ten_demo.Prelude.{ℕ, suc, ◌≡◌, Option, none, List, [], ◌∷◌, ◌++◌}
use anti_river_ten_demo.Strings.{Bytes}
use anti_river_ten_demo.Exec.{Exec, Result, ok, err, pure, raise, catch}
use anti_river_ten_demo.Db.{DbError}
use anti_river_ten_demo.Handlers.Upload.Outcome.{StoredBy}
use anti_river_ten_demo.Sqllog.{SqlLog}
use anti_river_ten_demo.Sqllog.Parser.{
  StreamError, StreamEnd, finished, cancelled, scan_failed, canceled, deadline_exceeded,
  ScannedLine, parse_stream,
}
use anti_river_ten_demo.Sqllog.Repo.{LogStore, RepoError, database, insert_batch}

-- What os.Open has given, and the tokens and the error of a scanner over the file.
pub data StartupFile : Type 0 where
  not_exist : StartupFile
  open_failed : Bytes → StartupFile
  opened : List ScannedLine → Option Bytes → StartupFile

pub data LoadError : Type 0 where
  open_error : Bytes → LoadError
  stream_error : StreamEnd → LoadError
  insert_error : RepoError → LoadError

-- entries and skipped of loadSQLLogOnStartup.
abbrev pub Loading : Type 0
Loading = List SqlLog × ℕ

unfoldable pub load_entry : SqlLog → Loading → Option Bytes × Loading
load_entry rec (entries, skipped) = (none, (entries ++ rec ∷ [], skipped))

unfoldable pub load_error : StreamError → Loading → Loading
load_error e (entries, skipped) = (entries, suc skipped)

unfoldable pub load_stream : List ScannedLine → Option Bytes → StreamEnd × Loading
load_stream lines failure = parse_stream load_entry load_error lines failure ([], 0)

-- err != nil && !errors.Is(err, context.Canceled)
unfoldable pub load_result : StreamEnd → Result LoadError (Unit {0})
load_result finished = ok tt
load_result (cancelled canceled) = ok tt
load_result (cancelled deadline_exceeded) = err (stream_error (cancelled deadline_exceeded))
load_result (scan_failed e) = err (stream_error (scan_failed e))

module _ (b : LogStore) where
  open b use {World, create_in_batches}

  unfoldable pub insert_loaded : List SqlLog → Exec World LoadError (Unit {0})
  insert_loaded [] = pure tt
  insert_loaded (e ∷ entries) = catch insert_error (insert_batch b (e ∷ entries))

  abbrev insert_after : Result LoadError (Unit {0}) → List SqlLog → Exec World LoadError (Unit {0})
  insert_after (ok u) entries = insert_loaded entries
  insert_after (err e) entries = raise e

  unfoldable pub load_sql_log_on_startup : StartupFile → Exec World LoadError (Unit {0})
  load_sql_log_on_startup not_exist = pure tt
  load_sql_log_on_startup (open_failed e) = raise (open_error e)
  load_sql_log_on_startup (opened lines failure) =
      insert_after (load_result (load_stream lines failure).0) (load_stream lines failure).1.0

  -- The result of the load and the world behind it.
  unfoldable pub Loaded : StartupFile → World → Result LoadError (Unit {0}) × World → Type 0
  Loaded not_exist w (r, w') = (r ≡ ok tt) × (w' ≡ w)
  Loaded (open_failed e) w (r, w') = (r ≡ err (open_error e)) × (w' ≡ w)
  Loaded (opened lines failure) w (ok u, w') = StoredBy b (load_stream lines failure).1.0 w w'
  Loaded (opened lines failure) w (err (open_error e), w') = ⊥
  Loaded (opened lines failure) w (err (stream_error end), w') =
      (end ≡ (load_stream lines failure).0) × (w' ≡ w)
  Loaded (opened lines failure) w (err (insert_error e), w') =
      (d : DbError) × (e ≡ database d)
      × (create_in_batches (load_stream lines failure).1.0 500 w ≡ (err d, w'))
