-- ===== src/Startup.antt =====
-- cmd/api/main.go, cmd/seed/main.go, db.New and Close of internal/db/db.go, and
-- internal/http/server.go: what the two programs do from the configuration to the exit. The calls of
-- gorm, of package os and of net/http are parameters; the log lines are left out.
pub mod Load
pub mod Exits
use anti_river_ten_demo.Prelude.{
  ℕ, Bool, true, false, not, Option, none, some, List, [], ◌∷◌, ◌++◌, ◌*◌,
}
use anti_river_ten_demo.Strings.{Bytes, text, is_empty}
use anti_river_ten_demo.Config.{Config}
use anti_river_ten_demo.Exec.{
  Exec, Result, ok, err, fail_with, pure, raise, catch, check, ignore, ◌>>=◌, ◌>>◌,
}
use anti_river_ten_demo.Startup.Load.{StartupFile, LoadError, load_sql_log_on_startup}
use anti_river_ten_demo.Sqllog.Repo.{LogStore}

-- Errors of a server, as errors.Is tells them apart.
pub data ServeError : Type 0 where
  server_closed : ServeError
  context_canceled : ServeError
  other_error : Bytes → ServeError

-- Which case of the select of Start is taken: the context is done, and then Shutdown returns, or
-- ListenAndServe has returned.
pub data Select : Type 0 where
  context_done : Option ServeError → Select
  listener_done : Option ServeError → Select

unfoldable pub start : Select → Option ServeError
start (context_done shutdown) = shutdown
start (listener_done none) = none
start (listener_done (some server_closed)) = none
start (listener_done (some context_canceled)) = some context_canceled
start (listener_done (some (other_error e))) = some (other_error e)

-- The server that NewServer makes: its address and its four timeouts, in seconds.
pub record HttpServer : Type 0 where
  pub addr : Bytes
  pub read_header_timeout : ℕ
  pub read_timeout : ℕ
  pub write_timeout : ℕ
  pub idle_timeout : ℕ

unfoldable pub new_server : Config → HttpServer
new_server cfg = record {
  addr = b':' ∷ cfg.port;
  read_header_timeout = 10;
  read_timeout = 30;
  write_timeout = 60;
  idle_timeout = 120;
}

-- How a program ends: with a panic, with os.Exit, which runs no deferred call, or at the end of main.
pub data Exit : Type 0 where
  panicked : Exit
  exit_code : ℕ → Exit
  finished : Exit

-- What the programs call of gorm.
pub record Gorm (W : Type 0) : Type 0 where
  pub connect : Bytes → Exec W Bytes (Unit {0})
  pub sql_db : Exec W Bytes (Unit {0})
  pub create_schema : Exec W Bytes (Unit {0})
  pub auto_migrate : Exec W Bytes (Unit {0})
  pub close : Exec W Bytes (Unit {0})
  pub seed_default_roles : Exec W Bytes (Unit {0})
  pub migrate_logs : Exec W Bytes (Unit {0})

module _ {W : Type 0} (g : Gorm W) where
  open g use {connect, sql_db, create_schema, auto_migrate, close, seed_default_roles, migrate_logs}

  abbrev prefixed : Bytes → Bytes → Bytes
  prefixed p e = p ++ e

  -- db.New
  unfoldable pub new_db : Config → Exec W Bytes (Unit {0})
  new_db cfg = do
    check (not (is_empty cfg.database_url)) (text "DATABASE_URL is required")
    catch (prefixed (text "open db: ")) (connect cfg.database_url)
    catch (prefixed (text "get sql db: ")) sql_db
    catch (prefixed (text "create schema: ")) create_schema
    catch (prefixed (text "auto migrate: ")) auto_migrate

  abbrev pub exit_1 : {E : Type 0} → E → Exit
  exit_1 e = exit_code 1

  abbrev or_exit : Result Bytes Config → Result Exit Config
  or_exit (ok cfg) = ok cfg
  or_exit (err e) = err panicked

  abbrev lifted : {A : Type 0} → Result Exit A → Exec W Exit A
  lifted r w = (r, w)

  -- main of cmd/seed.
  unfoldable pub seed_main : Result Bytes Config → Exec W Exit (Unit {0})
  seed_main from_env = do
    cfg ← lifted (or_exit from_env)
    check (not (is_empty cfg.database_url)) (exit_code 2)
    catch exit_1 (new_db cfg)
    catch exit_1 seed_default_roles
    ignore close

  abbrev pub server_exit : Option ServeError → Result Exit (Unit {0})
  server_exit none = ok tt
  server_exit (some server_closed) = err (exit_code 1)
  server_exit (some context_canceled) = ok tt
  server_exit (some (other_error e)) = err (exit_code 1)

-- main of cmd/api: `serve` is what the server does until the select of Start is decided.
module _ (b : LogStore) (g : Gorm b.World) (serve : Config → b.World → Select × b.World) where
  open b use {World}
  open g use {close, seed_default_roles, migrate_logs}

  abbrev serving : Config → Exec World Exit (Unit {0})
  serving cfg w = let (s, w') = serve cfg w in (server_exit g (start s), w')

  unfoldable pub api_main : Result Bytes Config → StartupFile → Exec World Exit (Unit {0})
  api_main from_env file = do
    cfg ← lifted g (or_exit g from_env)
    catch (exit_1 g) (new_db g cfg)
    catch (exit_1 g) seed_default_roles
    catch (exit_1 g) migrate_logs
    ignore (load_sql_log_on_startup b file)
    serving cfg
    ignore close
