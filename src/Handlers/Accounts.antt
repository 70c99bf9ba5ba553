-- ===== src/Handlers/Accounts.antt =====
-- internal/http/handlers/auth.go: Register, Login, Me, Refresh.
use anti_river_ten_demo.Prelude.{ℕ, Bool, Option, none, some}
use anti_river_ten_demo.Strings.{Bytes, text, str_eq}
use anti_river_ten_demo.Exec.{pure, lift, catch, check, ◌>>=◌, ◌>>◌}
use anti_river_ten_demo.Config.{Config}
use anti_river_ten_demo.Auth.{Backend, Session, Error, invalid_credentials, user_exists}
use anti_river_ten_demo.Auth.Accounts.{register, login, refresh}
use anti_river_ten_demo.Handlers.{
  Reply, error_envelope, json, Request, finish, some_or, UserResp, user_resp, method_not_allowed,
  bad_json, authentication_required, server_error,
}

pub record RegisterReq : Type 0 where
  pub username : Bytes
  pub email : Bytes
  pub password : Bytes

pub record LoginReq : Type 0 where
  pub identifier : Bytes
  pub password : Bytes

-- LoginResp and RefreshResp have the same fields.
pub record LoginResp : Type 0 where
  pub token : Bytes
  pub expires_at : ℕ
  pub refresh_token : Bytes
  pub refresh_expires_at : ℕ
  pub user : UserResp

unfoldable pub login_resp : Session → LoginResp
unfolding user_resp
login_resp s = record {
  token = s.access;
  expires_at = s.access_exp;
  refresh_token = s.refresh;
  refresh_expires_at = s.refresh_exp;
  user = user_resp s.user;
}

unfoldable pub register_error : Error → Reply UserResp
register_error user_exists =
    error_envelope 409 (text "user_exists") (text "username or email already exists")
register_error _ = server_error (text "could not register user")

unfoldable pub login_error : Error → Reply LoginResp
login_error invalid_credentials =
    error_envelope 401 (text "invalid_credentials") (text "invalid username/email or password")
login_error _ = server_error (text "could not login")

unfoldable pub refresh_error : Error → Reply LoginResp
refresh_error invalid_credentials =
    error_envelope 401 (text "invalid_refresh") (text "invalid or expired refresh token")
refresh_error _ = server_error (text "could not refresh token")

unfoldable pub me_handler : Request → Reply UserResp
unfolding user_resp
me_handler r = elim (str_eq r.method (text "GET")) [
  | Bool.false ↦ method_not_allowed
  | Bool.true ↦ elim r.user [ none ↦ authentication_required | some u ↦ json 200 (user_resp u) ]
]

module _ (b : Backend) (cfg : Config) where
  open b use {World}

  unfoldable pub register_handler : Request → Option RegisterReq → World → Reply UserResp × World
  unfolding register_error user_resp
  register_handler r body = finish (do
    check (str_eq r.method (text "POST")) method_not_allowed
    req ← lift (some_or bad_json body)
    u ← catch register_error (register b cfg req.username req.email req.password (text "self"))
    pure (json 201 (user_resp u)))

  unfoldable pub login_handler : Request → Option LoginReq → World → Reply LoginResp × World
  unfolding login_error login_resp
  login_handler r body = finish (do
    check (str_eq r.method (text "POST")) method_not_allowed
    req ← lift (some_or bad_json body)
    s ← catch login_error (login b cfg req.identifier req.password)
    pure (json 200 (login_resp s)))

  -- The body of RefreshReq is its one field, the refresh token.
  unfoldable pub refresh_handler : Request → Option Bytes → World → Reply LoginResp × World
  unfolding refresh_error login_resp
  refresh_handler r body = finish (do
    check (str_eq r.method (text "POST")) method_not_allowed
    refresh_token ← lift (some_or bad_json body)
    s ← catch refresh_error (refresh b cfg refresh_token)
    pure (json 200 (login_resp s)))
