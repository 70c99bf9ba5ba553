-- ===== src/Tests/Start.antt =====
-- The start of the programs at concrete inputs: a table of the roles in memory, and a server that is
-- shut down.
use anti_river_ten_demo.Prelude.{
  ◌≡◌, refl, inl, inr, Bool-cases, any, none, Bool, true, if◌then◌else◌, List, [], ◌∷◌, ◌++◌,
}
use anti_river_ten_demo.Strings.{text, str_eq}
use anti_river_ten_demo.Strings.Laws.{str_eq_sound}
use anti_river_ten_demo.Config.{Config}
use anti_river_ten_demo.Db.{Role}
use anti_river_ten_demo.Db.Seed.{RoleStore, seed_default_roles}
use anti_river_ten_demo.Db.Seed.Seeded.{
  RoleLaws, HasCode, SeededBy, five_codes, seed_default_roles-SeededBy,
}
use anti_river_ten_demo.Exec.{ok, pure, catch, check, ignore, ◌>>=◌}
use anti_river_ten_demo.Startup.{Select, context_done, Gorm, new_db, start, api_main}
use anti_river_ten_demo.Startup.Exits.{Served, api_main-Served}
use anti_river_ten_demo.Startup.Load.{StartupFile, not_exist, opened, load_sql_log_on_startup}
use anti_river_ten_demo.Tests.Data.{config}
use anti_river_ten_demo.Tests.Logs.{memory_logs, one_log, upload_lines}

abbrev has_code : Role → List Role → Bool
has_code r rows = any (λ s. str_eq r.code s.code) rows

unfoldable memory_roles : RoleStore
memory_roles = record {
  World = List Role;
  rows = λ w. w;
  create_or_skip = λ r w. (ok tt, if has_code r w then w else w ++ r ∷ []);
}

found_code : (r : Role) (rows : List Role) → has_code r rows ≡ true → HasCode r.code rows
found_code r [] h = cc
found_code r (s ∷ rows) h = elim (Bool-cases (str_eq r.code s.code)) [
  | inl e ↦ inl (str_eq_sound r.code s.code e)
  | inr e ↦ inr (found_code r rows (rw e at h))
]

memory_roles_lawful : RoleLaws memory_roles
unfolding memory_roles
memory_roles_lawful = record {
  insert_effect = λ r w. elim (Bool-cases (has_code r w)) [
    | inl e ↦ rw e (inl (found_code r w e, refl))
    | inr e ↦ rw e (inr (r, refl, refl))
  ];
}

unfoldable no_roles : memory_roles.World
unfolding memory_roles
no_roles = []

seed_default_roles-SeededBy_example :
    SeededBy five_codes
      (memory_roles.rows no_roles)
      (memory_roles.rows (seed_default_roles memory_roles no_roles).1)
      (seed_default_roles memory_roles no_roles).0
seed_default_roles-SeededBy_example =
    seed_default_roles-SeededBy memory_roles memory_roles_lawful no_roles

abbrev log_file : StartupFile
log_file = opened upload_lines none

abbrev ready_gorm : Gorm memory_logs.World
ready_gorm = record {
  connect = λ dsn. pure tt;
  sql_db = pure tt;
  create_schema = pure tt;
  auto_migrate = pure tt;
  close = pure tt;
  seed_default_roles = pure tt;
  migrate_logs = pure tt;
}

abbrev database_config : Config
database_config = record config { database_url = text "postgres://db" }

abbrev shut_down : Config → memory_logs.World → Select × memory_logs.World
shut_down cfg w = (context_done none, w)

clean_end :
    api_main memory_logs ready_gorm shut_down (ok database_config) not_exist one_log
    ≡ (ok tt, one_log)
unfolding api_main new_db ◌>>=◌ catch check ignore pure load_sql_log_on_startup start text
clean_end = refl

api_main-Served_example :
    Served memory_logs ready_gorm shut_down (ok database_config) not_exist one_log
api_main-Served_example =
    api_main-Served memory_logs ready_gorm shut_down (ok database_config) not_exist one_log one_log
      clean_end
