-- ===== src/Router.antt =====
-- internal/http/router.go: the account endpoints with the guards that the router puts in front of
-- them. A call names the endpoint and carries the decoded body; the pattern matching of ServeMux is
-- not modelled, so the method test of each handler stands.
pub mod Admins
pub mod Access
pub mod Logs
pub mod Server
use anti_river_ten_demo.Prelude.{ℕ, Bool, Option, List, [], ◌∷◌}
use anti_river_ten_demo.Strings.{Bytes, text}
use anti_river_ten_demo.Config.{Config}
use anti_river_ten_demo.Auth.{Backend}
use anti_river_ten_demo.Handlers.{Reply, status, Request, UserResp}
use anti_river_ten_demo.Handlers.Guards.{require_auth, require_admin_role, require_any_role}
use anti_river_ten_demo.Handlers.Accounts.{
  RegisterReq, LoginReq, me_handler, register_handler, login_handler, refresh_handler,
}
use anti_river_ten_demo.Handlers.Admin.{
  CreateUserReq, create_user_handler, list_users_handler, update_user_status_handler,
  delete_user_handler, update_user_role_handler,
}

pub data Call : Type 0 where
  register : Option RegisterReq → Call
  login : Option LoginReq → Call
  refresh : Option Bytes → Call
  me : Call
  create_user : Option CreateUserReq → Call
  list_users : Call
  update_user_status : Option Bool → Call
  update_user_role : Option Bytes → Call
  delete_user : Call

module _ {A W : Type 0} where
  abbrev pub answer : Reply A × W → ℕ × W
  answer (reply, w) = (status reply, w)

  -- A handler that only reads the request.
  abbrev reading : (Request → Reply A) → Request → W → Reply A × W
  reading h r w = (h r, w)

abbrev pub export_roles : List Bytes
export_roles = text "ADMIN" ∷ text "TEAM_LEADER" ∷ []

module _ (b : Backend) (cfg : Config) where
  open b use {World}

  -- adminMiddleware of the router.
  unfoldable pub admin_middleware :
      {A : Type 0} → (Request → World → Reply A × World) → Request → World → Reply A × World
  unfolding require_auth require_admin_role
  admin_middleware next = require_auth b cfg (require_admin_role next)

  -- roleMiddleware of the router, in front of the reports in CSV and PDF.
  unfoldable pub role_middleware :
      {A : Type 0} → (Request → World → Reply A × World) → Request → World → Reply A × World
  role_middleware next = require_auth b cfg (require_any_role export_roles next)

  -- The status and the world after a call.
  unfoldable pub serve : Call → Request → World → ℕ × World
  serve (register body) r w = answer (register_handler b cfg r body w)
  serve (login body) r w = answer (login_handler b cfg r body w)
  serve (refresh body) r w = answer (refresh_handler b cfg r body w)
  serve me r w = answer (require_auth b cfg (reading me_handler) r w)
  serve (create_user body) r w =
      answer (admin_middleware (λ r'. create_user_handler b cfg r' body) r w)
  serve list_users r w = answer (admin_middleware (list_users_handler b cfg) r w)
  serve (update_user_status body) r w =
      answer (admin_middleware (λ r'. update_user_status_handler b cfg r' body) r w)
  serve (update_user_role body) r w =
      answer (admin_middleware (λ r'. update_user_role_handler b cfg r' body) r w)
  serve delete_user r w = answer (admin_middleware (delete_user_handler b cfg) r w)

  -- A sequence of calls.
  unfoldable pub serve_all : List (Call × Request) → World → World
  serve_all [] w = w
  serve_all ((call, r) ∷ calls) w = serve_all calls (serve call r w).1
