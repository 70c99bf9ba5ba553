-- ===== src/Router/Logs/Guarded.antt =====
-- Who gets an answer from the routes of the SQL logs.
use anti_river_ten_demo.Prelude.{ℕ, Bool, ◌≡◌, refl, ◌⊎◌, inl, inr}
use anti_river_ten_demo.Strings.{Bytes}
use anti_river_ten_demo.Exec.{ok}
use anti_river_ten_demo.Config.{Config}
use anti_river_ten_demo.Db.{User}
use anti_river_ten_demo.Db.Laws.{Elem}
use anti_river_ten_demo.Auth.{Backend, wrap_first}
use anti_river_ten_demo.Auth.Accounts.{get_user_by_id, user_id_is}
use anti_river_ten_demo.Auth.Laws.{BackendLaws, SameTables}
use anti_river_ten_demo.Auth.Tokens.{parse_token}
use anti_river_ten_demo.Handlers.{Reply, Request}
use anti_river_ten_demo.Handlers.Guards.{
  require_auth, require_admin_role, require_any_role, bearer_token,
}
use anti_river_ten_demo.Handlers.Guards.Bearer.{Bears}
use anti_river_ten_demo.Router.{answer, admin_middleware, role_middleware, export_roles}
use anti_river_ten_demo.Router.Access.{
  AccessOr, IsAdminUser, MayExport, get_user_by_id-kept, require_auth-Through, admin-Splits,
  export-Splits,
}
use anti_river_ten_demo.Router.Logs.{
  LogCalls, LogOutside, LogCall, upload, databases, list_by_db, scan, scan_preflight, ai_analysis,
  report, report_in_csv, report_in_pdf, serve_logs,
}

module _ (b : Backend) (laws : BackendLaws b) (cfg : Config) (l : LogCalls b.World) where
  open b use {World, users}

  -- The calls that no guard stands in front of.
  abbrev pub IsOpen : LogCall → Type 0
  IsOpen scan_preflight = Unit
  IsOpen ai_analysis = Unit
  IsOpen _ = ⊥

  -- Who may make a call.
  abbrev pub May : LogCall → User → Type 0
  May report u = IsAdminUser b laws cfg u
  May report_in_csv u = MayExport b laws cfg u
  May report_in_pdf u = MayExport b laws cfg u
  May _ u = Unit

  -- No table has changed.
  abbrev pub Untouched : World → World → Type 0
  Untouched w w' = SameTables b w w' × (l.logs.rows w' ≡ l.logs.rows w)

  -- The token names a stored user who may make the call, or the status is 401 or 403 and no table
  -- has changed.
  abbrev pub GuardedBy : (User → Type 0) → Request → World → ℕ × World → Type 0
  GuardedBy Allowed r w out =
      ((u : User) × Elem u (users.rows w)
        × Allowed u
        × Bears r.authorization (bearer_token r.authorization)
        × (parse_token b cfg (bearer_token r.authorization) w ≡ ok u.id))
      ⊎ (((out.0 ≡ 401) ⊎ (out.0 ≡ 403)) × Untouched w out.1)

  module _
      (apart : (p : User → Bool) (w : World)
        → l.logs.rows (users.first p w).1 ≡ l.logs.rows w) where
    same-Untouched : (w : World) → Untouched w w
    same-Untouched w = ((refl, refl, refl), refl)

    user-Untouched : (id : Bytes) (w : World) → Untouched w (get_user_by_id b cfg id w).1
    unfolding get_user_by_id wrap_first
    user-Untouched id w = (get_user_by_id-kept b laws cfg id w, apart (user_id_is id) w)

    module _ {A : Type 0} (next : Request → World → Reply A × World) (r : Request) (w : World) where
      through-GuardedBy :
          (Allowed : User → Type 0) (out : Reply A × World)
          → AccessOr b laws cfg Untouched Allowed next r w out
          → GuardedBy Allowed r w (answer out)
      through-GuardedBy Allowed out (inl (u, el, allowed, bears, token, e)) =
          inl (u, el, allowed, bears, token)
      through-GuardedBy Allowed out (inr refused) = inr refused

      any-GuardedBy : GuardedBy (λ u. Unit) r w (answer (require_auth b cfg next r w))
      any-GuardedBy =
          through-GuardedBy (λ u. Unit) _
            (require_auth-Through b laws cfg (λ u. Unit) next Untouched same-Untouched
              user-Untouched next (λ r' u w'. inl (tt, refl)) r w)

      admin-GuardedBy :
          GuardedBy (IsAdminUser b laws cfg) r w (answer (admin_middleware b cfg next r w))
      unfolding admin_middleware
      admin-GuardedBy = through-GuardedBy (IsAdminUser b laws cfg) _ (
          require_auth-Through b laws cfg (IsAdminUser b laws cfg) next Untouched same-Untouched
            user-Untouched (require_admin_role next) (admin-Splits b laws cfg next) r w)

      export-GuardedBy :
          GuardedBy (MayExport b laws cfg) r w (answer (role_middleware b cfg next r w))
      unfolding role_middleware
      export-GuardedBy = through-GuardedBy (MayExport b laws cfg) _ (
          require_auth-Through b laws cfg (MayExport b laws cfg) next Untouched same-Untouched
            user-Untouched (require_any_role export_roles next) (export-Splits b laws cfg next) r w)

    -- If the tables keep their laws and a search for a user leaves the records alone, a call of a
    -- route of the SQL logs, but for the preflight of the scan and the AI analysis, gets 401 or 403
    -- and changes no table, unless its header bears a valid token, with the scheme Bearer, that names
    -- a stored user; for the report that user is an administrator, and for its export an
    -- administrator or a team leader.
    pub serve_logs-GuardedBy :
        (o : LogOutside b.World) (now later : ℕ) (call : LogCall) (r : Request) (w : World)
        → ¬ IsOpen call
        → GuardedBy (May call) r w (serve_logs b cfg l o now later call r w)
    unfolding serve_logs
    serve_logs-GuardedBy o now later (upload form) r w closed = any-GuardedBy _ r w
    serve_logs-GuardedBy o now later databases r w closed = any-GuardedBy _ r w
    serve_logs-GuardedBy o now later list_by_db r w closed = any-GuardedBy _ r w
    serve_logs-GuardedBy o now later scan r w closed = any-GuardedBy _ r w
    serve_logs-GuardedBy o now later scan_preflight r w closed = absurd (closed tt)
    serve_logs-GuardedBy o now later ai_analysis r w closed = absurd (closed tt)
    serve_logs-GuardedBy o now later report r w closed = admin-GuardedBy _ r w
    serve_logs-GuardedBy o now later report_in_csv r w closed = export-GuardedBy _ r w
    serve_logs-GuardedBy o now later report_in_pdf r w closed = export-GuardedBy _ r w
