-- ===== src/Startup/Exits.antt =====
-- cmd/api/main.go: what has happened before the server is reached, and how the program ends.
use anti_river_ten_demo.Prelude.{◌≡◌, refl, ◌⊎◌, inl, inr, Option, none, some}
use anti_river_ten_demo.Strings.{Bytes}
use anti_river_ten_demo.Config.{Config}
use anti_river_ten_demo.Exec.{Result, ok, err, catch, ignore}
use anti_river_ten_demo.Exec.Keeps.{bind-ok, catch-ok}
use anti_river_ten_demo.Sqllog.Repo.{LogStore}
use anti_river_ten_demo.Startup.{
  ServeError, context_canceled, Select, start, Gorm, new_db, exit_1, or_exit, server_exit, api_main,
}
use anti_river_ten_demo.Startup.Load.{StartupFile, load_sql_log_on_startup}

module _ (b : LogStore) (g : Gorm b.World) (serve : Config → b.World → Select × b.World) where
  open b use {World}

  -- The steps in front of the server, each with the world that it leaves, and the end of the server.
  pub record Served (from_env : Result Bytes Config) (file : StartupFile) (w : World) : Type 0 where
    pub cfg : Config
    pub configured : from_env ≡ ok cfg
    pub database : (new_db g cfg w).0 ≡ ok tt
    pub seeded : (g.seed_default_roles (new_db g cfg w).1).0 ≡ ok tt
    pub migrated : (g.migrate_logs (g.seed_default_roles (new_db g cfg w).1).1).0 ≡ ok tt
    pub stopped :
        (let w1 = (g.migrate_logs (g.seed_default_roles (new_db g cfg w).1).1).1 in
          let s = (serve cfg (load_sql_log_on_startup b file w1).1).0 in
          (start s ≡ none) ⊎ (start s ≡ some context_canceled))

  or_exit-ok : (r : Result Bytes Config) (cfg : Config) → or_exit g r ≡ ok cfg → r ≡ ok cfg
  or_exit-ok (ok c) cfg h = cc
  or_exit-ok (err e) cfg h = cc

  server_exit-ok :
      (o : Option ServeError) → server_exit g o ≡ ok tt → (o ≡ none) ⊎ (o ≡ some context_canceled)
  server_exit-ok none h = inl refl
  server_exit-ok (some ServeError.server_closed) h = cc
  server_exit-ok (some context_canceled) h = inr refl
  server_exit-ok (some (ServeError.other_error e)) h = cc

  -- If the server program ends without an exit code, the configuration was read, the database was
  -- opened, the roles were seeded and the table of the logs was migrated, in this order, and only
  -- then the server ran, after the load of the log file, whatever that returned; and the server was
  -- shut down, closed, or cancelled by its context.
  pub api_main-Served :
      (from_env : Result Bytes Config) (file : StartupFile) (w w' : World)
      → api_main b g serve from_env file w ≡ (ok tt, w')
      → Served from_env file w
  unfolding api_main catch ignore
  api_main-Served from_env file w w' h =
      let (cfg, c, h1) = bind-ok _ _ w h in
      let (_, d, h2) = bind-ok _ _ _ h1 in
      let (_, s, h3) = bind-ok _ _ _ h2 in
      let (_, m, h4) = bind-ok _ _ _ h3 in
      let (_, _, h5) = bind-ok _ _ _ h4 in
      let (_, v, _) = bind-ok _ _ _ h5 in
      let w1 = (new_db g cfg w).1 in
      let w2 = (g.seed_default_roles w1).1 in
      let w3 = (g.migrate_logs w2).1 in
      record {
        cfg = cfg;
        configured = or_exit-ok from_env cfg c;
        database = catch-ok (exit_1 g) (new_db g cfg) w d;
        seeded = catch-ok (exit_1 g) g.seed_default_roles w1 s;
        migrated = catch-ok (exit_1 g) g.migrate_logs w2 m;
        stopped = server_exit-ok (start (serve cfg (load_sql_log_on_startup b file w3).1).0) v;
      }
