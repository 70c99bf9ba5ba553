-- ===== src/Tests/Server.antt =====
-- The properties of all routes together: a server whose records stand beside the accounts.
use anti_river_ten_demo.Prelude.{◌≡◌, refl, ℕ, Bool, true, none, List, [], ◌∷◌, ◌++◌}
use anti_river_ten_demo.Prelude.Sort.{sort}
use anti_river_ten_demo.Strings.{text}
use anti_river_ten_demo.Exec.{ok, pure}
use anti_river_ten_demo.Exec.Keeps.{Fixes}
use anti_river_ten_demo.Auth.AdminRows.{admin_rows}
use anti_river_ten_demo.Auth.Laws.{touch_none}
use anti_river_ten_demo.Db.Memory.{memory_table, rows_of}
use anti_river_ten_demo.Db.{User}
use anti_river_ten_demo.Sqllog.{SqlLog}
use anti_river_ten_demo.Handlers.{Request}
use anti_river_ten_demo.Router.{list_users}
use anti_river_ten_demo.Router.Logs.{LogCalls, LogOutside, upload, report, scan, serve_logs}
use anti_river_ten_demo.Router.Logs.Guarded.{May, GuardedBy, serve_logs-GuardedBy}
use anti_river_ten_demo.Router.Logs.Reads.{Quiet}
use anti_river_ten_demo.Router.Server.{
  ServerCall, account, sql_logs, serve_server_all, serve_server_all-admins, serve_logs-read_only,
}
use anti_river_ten_demo.Tests.Data.{config, request, start}
use anti_river_ten_demo.Tests.Memory.{memory, memory_lawful}
use anti_river_ten_demo.Tests.Pdf.{paper}
use anti_river_ten_demo.Tests.Reports.{whole_numbers, test_outside}
use anti_river_ten_demo.Tests.Uploads.{log_form}
use anti_river_ten_demo.Tests.Witnesses.{start_awake}

unfoldable memory_calls : LogCalls memory.World
unfolding memory memory_table rows_of pure
memory_calls = record {
  logs = memory_table (λ w. w.log_rows) (λ l w. record w { log_rows = l }) (λ l. true) touch_none;
  create_in_batches = λ entries size w. (ok tt, record w { log_rows = w.log_rows ++ entries });
  distinct_db_names = pure [];
  count_by_db = λ p. pure [];
  raw_overall = λ sql args. pure ([], []);
  raw_per_db = λ sql args. pure [];
  raw_patterns = λ sql args. pure [];
  raw_db_patterns = λ sql args. pure [];
}

abbrev outside : LogOutside memory.World
outside = record {
  floats = whole_numbers;
  reports = test_outside;
  canvas = paper;
  repo_text = λ e. text "repo";
  stream_text = λ e. text "line";
  sort_slice = sort;
  scanned = λ e w. [];
  client = none;
}

abbrev server_calls : List (ServerCall × Request)
server_calls =
    (account list_users, request (text "GET") (text "/v1/admin/users") (text "Bearer secret:root"))
    ∷ (
      sql_logs (upload log_form),
      request (text "POST") (text "/v1/sql-logs/upload") (text "Bearer secret:ann"),
    )
    ∷ (
      sql_logs report,
      request (text "GET") (text "/v1/sql-logs/report") (text "Bearer secret:root"),
    )
    ∷ []

users-Quiet : Quiet memory_calls memory.users.rows
unfolding memory memory_calls memory_table rows_of pure
users-Quiet = record {
  count_quiet = λ p. record { at = λ w. refl };
  find_quiet = λ q. record { at = λ w. refl };
  distinct_quiet = record { at = λ w. refl };
  by_db_quiet = λ p. record { at = λ w. refl };
  overall_quiet = λ sql args. record { at = λ w. refl };
  per_db_quiet = λ sql args. record { at = λ w. refl };
  patterns_quiet = λ sql args. record { at = λ w. refl };
  db_patterns_quiet = λ sql args. record { at = λ w. refl };
}

logs-Quiet : Quiet memory_calls memory_calls.logs.rows
unfolding memory memory_calls memory_table rows_of pure
logs-Quiet = record {
  count_quiet = λ p. record { at = λ w. refl };
  find_quiet = λ q. record { at = λ w. refl };
  distinct_quiet = record { at = λ w. refl };
  by_db_quiet = λ p. record { at = λ w. refl };
  overall_quiet = λ sql args. record { at = λ w. refl };
  per_db_quiet = λ sql args. record { at = λ w. refl };
  patterns_quiet = λ sql args. record { at = λ w. refl };
  db_patterns_quiet = λ sql args. record { at = λ w. refl };
}

quiet_batches :
    (entries : List SqlLog) (size : ℕ)
    → Fixes memory.users.rows (memory_calls.create_in_batches entries size)
unfolding memory memory_calls memory_table rows_of
quiet_batches entries size = record { at = λ w. refl }

quiet_search : (p : User → Bool) → Fixes memory_calls.logs.rows (memory.users.first p)
unfolding memory memory_calls memory_table rows_of
quiet_search p = record { at = λ w. refl }

serve_server_all-admins_example :
    admin_rows memory (serve_server_all memory config memory_calls outside 7 7 server_calls start)
    ≡ admin_rows memory start
serve_server_all-admins_example =
    serve_server_all-admins memory memory_lawful config memory_calls outside 7 7 users-Quiet
      quiet_batches tt server_calls start start_awake

abbrev anonymous : Request
anonymous = request (text "GET") (text "/v1/sql-logs/scan") []

serve_logs-read_only_example :
    memory_calls.logs.rows
      (serve_logs memory config memory_calls outside 7 7 scan anonymous start).1
    ≡ memory_calls.logs.rows start
serve_logs-read_only_example =
    serve_logs-read_only memory memory_lawful config memory_calls outside 7 7 logs-Quiet tt
      quiet_search scan anonymous start (λ up. up)

quiet_first :
    (p : User → Bool) (w : memory.World)
    → memory_calls.logs.rows (memory.users.first p w).1 ≡ memory_calls.logs.rows w
unfolding memory memory_calls memory_table rows_of
quiet_first p w = refl

serve_logs-GuardedBy_example :
    GuardedBy memory memory_lawful config memory_calls
      (May memory memory_lawful config memory_calls report)
      anonymous
      start
      (serve_logs memory config memory_calls outside 7 7 report anonymous start)
serve_logs-GuardedBy_example =
    serve_logs-GuardedBy memory memory_lawful config memory_calls quiet_first outside 7 7 report
      anonymous start (λ h. h)
