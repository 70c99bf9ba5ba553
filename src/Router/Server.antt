-- ===== src/Router/Server.antt =====
-- internal/http/router.go: all routes of the accounts and of the SQL logs together, under any
-- sequence of calls.
use anti_river_ten_demo.Prelude.{
  ℕ, Bool, ◌≡◌, refl, sym, ap, ◌∙◌, subst, List, [], ◌∷◌, All, inl, inr, Bool-cases, arith,
}
use anti_river_ten_demo.Strings.{Bytes, is_empty}
use anti_river_ten_demo.Exec.{Result, ok, err}
use anti_river_ten_demo.Exec.Keeps.{Fixes}
use anti_river_ten_demo.Config.{Config}
use anti_river_ten_demo.Db.{User}
use anti_river_ten_demo.Auth.{Backend, Error, wrap_first}
use anti_river_ten_demo.Auth.Laws.{BackendLaws, users-first}
use anti_river_ten_demo.Auth.Accounts.{get_user_by_id, user_id_is}
use anti_river_ten_demo.Auth.Admin.{admin_role}
use anti_river_ten_demo.Auth.AdminRows.{admin_rows, admins, NoSleeper}
use anti_river_ten_demo.Auth.Tokens.{parse_token}
use anti_river_ten_demo.Handlers.{Reply, Request}
use anti_river_ten_demo.Handlers.Query.{list_databases_handler, list_by_db_handler}
use anti_river_ten_demo.Handlers.Scan.{scan_handler}
use anti_river_ten_demo.Handlers.Upload.{upload_handler}
use anti_river_ten_demo.Handlers.Guards.{
  require_auth, require_admin_role, require_any_role, with_subject, with_loaded, with_user,
  bearer_token,
}
use anti_river_ten_demo.Router.{Call, serve, admin_middleware, role_middleware, export_roles}
use anti_river_ten_demo.Router.Admins.{serve-admins}
use anti_river_ten_demo.Router.Logs.{
  LogCalls, LogOutside, LogCall, upload, databases, list_by_db, scan, scan_preflight, ai_analysis,
  report, report_in_csv, report_in_pdf, serve_logs, log_store, json_of, csv_of, pdf_of,
}
use anti_river_ten_demo.Router.Logs.Reads.{
  Quiet, ClientQuiet, quiet-list_databases_handler, quiet-list_by_db_handler, quiet-scan_handler,
  quiet-upload_handler, quiet-report_json_handler, quiet-report_csv_handler,
  quiet-report_pdf_handler, quiet-ai_analysis_handler,
}
use anti_river_ten_demo.Sqllog.{SqlLog}

-- A call of any route that is modelled.
pub data ServerCall : Type 0 where
  account : Call → ServerCall
  sql_logs : LogCall → ServerCall

module _ (b : Backend) (cfg : Config) (l : LogCalls b.World) (o : LogOutside b.World)
    (now later : ℕ) where
  open b use {World}

  unfoldable pub serve_server : ServerCall → Request → World → ℕ × World
  serve_server (account call) r w = serve b cfg call r w
  serve_server (sql_logs call) r w = serve_logs b cfg l o now later call r w

  -- A sequence of calls.
  unfoldable pub serve_server_all : List (ServerCall × Request) → World → World
  unfolding serve_server
  serve_server_all [] w = w
  serve_server_all ((call, r) ∷ calls) w = serve_server_all calls (serve_server call r w).1

abbrev pub IsUpload : LogCall → Type 0
IsUpload (upload form) = Unit
IsUpload _ = ⊥

-- The completion of the AI client leaves what `f` reads.
abbrev pub AsksQuietly : {W X : Type 0} → LogCalls W → LogOutside W → (W → X) → Type 0
AsksQuietly l o f = ClientQuiet o.client f

module _ (b : Backend) (cfg : Config) (l : LogCalls b.World) (o : LogOutside b.World)
    (now later : ℕ) {X : Type 0} (f : b.World → X) (quiet : Quiet l f) (asked : AsksQuietly l o f)
    (found : (p : User → Bool) → Fixes f (b.users.first p)) where
  open b use {World}

  loaded : (id : Bytes) (w : World) → f (get_user_by_id b cfg id w).1 ≡ f w
  unfolding get_user_by_id wrap_first
  loaded id w = (found (user_id_is id)).at w

  -- What a handler leaves alone, the handler behind a guard leaves alone.
  module _ {A : Type 0} (next : Request → World → Reply A × World)
      (kept : (r : Request) (w : World) → f (next r w).1 ≡ f w) where
    fixed-with_loaded :
        (r : Request) (res : Result Error User) (w : World)
        → f (with_loaded b cfg next r (res, w)).1 ≡ f w
    unfolding with_loaded
    fixed-with_loaded r (ok u) w = kept (with_user r u) w
    fixed-with_loaded r (err e) w = refl

    fixed-with_subject :
        (r : Request) (res : Result Error Bytes) (w : World)
        → f (with_subject b cfg next r res w).1 ≡ f w
    unfolding with_subject
    fixed-with_subject r (err e) w = refl
    fixed-with_subject r (ok sub) w = elim (Bool-cases (is_empty sub)) [
      | inl none' ↦ rw none'
      | inr found ↦ rw found (fixed-with_loaded r (get_user_by_id b cfg sub w).0 _ ∙ loaded sub w)
    ]

    fixed-require_auth : (r : Request) (w : World) → f (require_auth b cfg next r w).1 ≡ f w
    unfolding require_auth
    fixed-require_auth r w = elim (Bool-cases (is_empty (bearer_token r.authorization))) [
      | inl none' ↦ rw none'
      | inr found ↦
          rw found (fixed-with_subject r (parse_token b cfg (bearer_token r.authorization) w) w)
    ]

    fixed-require_admin_role : (r : Request) (w : World) → f (require_admin_role next r w).1 ≡ f w
    unfolding require_admin_role
    fixed-require_admin_role r w = ground (arith, kept r w)

    fixed-require_any_role :
        (roles : List Bytes) (r : Request) (w : World) → f (require_any_role roles next r w).1 ≡ f w
    unfolding require_any_role
    fixed-require_any_role roles r w = ground (arith, kept r w)

  pub serve_logs-fixed :
      (call : LogCall) (r : Request) (w : World)
      → (IsUpload call
          → (entries : List SqlLog) (size : ℕ) → Fixes f (l.create_in_batches entries size))
      → f (serve_logs b cfg l o now later call r w).1 ≡ f w
  unfolding serve_logs admin_middleware role_middleware
  serve_logs-fixed (upload form) r w batches =
      fixed-require_auth (λ r'. upload_handler (log_store l) o.repo_text o.stream_text form)
        (λ r'. quiet-upload_handler l f quiet (batches tt) o.repo_text o.stream_text form) r w
  serve_logs-fixed databases r w batches =
      fixed-require_auth (λ r'. list_databases_handler (log_store l))
        (λ r'. quiet-list_databases_handler l f quiet) r w
  serve_logs-fixed list_by_db r w batches =
      fixed-require_auth (list_by_db_handler (log_store l)) (quiet-list_by_db_handler l f quiet) r w
  serve_logs-fixed scan r w batches =
      fixed-require_auth (scan_handler (log_store l)) (quiet-scan_handler l f quiet) r w
  serve_logs-fixed scan_preflight r w batches = refl
  serve_logs-fixed ai_analysis r w batches =
      quiet-ai_analysis_handler l f quiet o.client asked o.sort_slice o.scanned r w
  serve_logs-fixed report r w batches =
      let next = json_of b cfg l o now later in
      fixed-require_auth (require_admin_role next)
        (fixed-require_admin_role next
          (quiet-report_json_handler l f quiet o.floats o.reports now later))
        r w
  serve_logs-fixed report_in_csv r w batches =
      let next = csv_of b cfg l o now later in
      fixed-require_auth (require_any_role export_roles next)
        (fixed-require_any_role next
          (quiet-report_csv_handler l f quiet o.floats o.reports now later) export_roles)
        r w
  serve_logs-fixed report_in_pdf r w batches =
      let next = pdf_of b cfg l o now later in
      fixed-require_auth (require_any_role export_roles next)
        (fixed-require_any_role next
          (quiet-report_pdf_handler l f quiet o.floats o.reports now later o.canvas) export_roles)
        r w

module _ (b : Backend) (laws : BackendLaws b) (cfg : Config) (l : LogCalls b.World)
    (o : LogOutside b.World) (now later : ℕ) where
  open b use {World, users}

  -- If the tables keep their laws and the calls on the records and the AI client leave the users
  -- alone, and at the start every role that begins with ADMIN is ADMIN, then whatever calls of the
  -- accounts and of the SQL logs are made, in whatever order and by whomever, the rows of the
  -- administrators stay as they are.
  pub serve_server_all-admins :
      Quiet l users.rows
      → ((entries : List SqlLog) (size : ℕ) → Fixes users.rows (l.create_in_batches entries size))
      → AsksQuietly l o users.rows
      → (calls : List (ServerCall × Request)) (w : World) → NoSleeper b w
      → admin_rows b (serve_server_all b cfg l o now later calls w) ≡ admin_rows b w
  unfolding serve_server_all serve_server
  serve_server_all-admins quiet batches asked [] w awake = refl
  serve_server_all-admins quiet batches asked ((account call, r) ∷ calls) w awake =
      let kept = serve-admins b laws cfg call r w awake in
      serve_server_all-admins quiet batches asked calls _
        (subst (All (λ u. u.role ≡ admin_role)) (sym kept) awake)
      ∙ kept
  serve_server_all-admins quiet batches asked ((sql_logs call, r) ∷ calls) w awake =
      let kept : admin_rows b (serve_logs b cfg l o now later call r w).1 ≡ admin_rows b w =
        ap admins (
          serve_logs-fixed b cfg l o now later users.rows quiet asked (users-first b laws) call r w
            (λ _. batches)) in
      serve_server_all-admins quiet batches asked calls _
        (subst (All (λ u. u.role ≡ admin_role)) (sym kept) awake)
      ∙ kept

  -- If the queries of gorm for reading and the AI client leave the records alone, and so does the
  -- search of gorm for a user, then no call of a route of the SQL logs but an upload changes a record, whoever makes it.
  pub serve_logs-read_only :
      Quiet l l.logs.rows
      → AsksQuietly l o l.logs.rows
      → ((p : User → Bool) → Fixes l.logs.rows (users.first p))
      → (call : LogCall) (r : Request) (w : World) → ¬ IsUpload call
      → l.logs.rows (serve_logs b cfg l o now later call r w).1 ≡ l.logs.rows w
  serve_logs-read_only quiet asked found call r w read =
      serve_logs-fixed b cfg l o now later l.logs.rows quiet asked found call r w
        (λ up. absurd (read up))
