-- ===== src/Handlers.antt =====
-- internal/http/handlers: requests, replies (json.go) and the payloads of the account handlers. The
-- decoder of encoding/json is not modelled: a handler is given what Decode has made of the body,
-- with `none` for its error.
pub mod Guards
pub mod Roles
pub mod Paging
pub mod Scan
pub mod Upload
pub mod Query
pub mod Report
pub mod Ai
pub mod Invariant
pub mod Accounts
pub mod Admin
use anti_river_ten_demo.Prelude.{ℕ, Bool, Option, none, some, List, map}
use anti_river_ten_demo.Strings.{Bytes, text, str_eq}
use anti_river_ten_demo.Exec.{Exec, Result, ok, err}
use anti_river_ten_demo.Db.{User}

-- http.Error, writeError, writeJSON and a bare WriteHeader, each with its status.
pub data Reply (A : Type 0) : Type 0 where
  plain_error : ℕ → Bytes → Reply A
  error_envelope : ℕ → Bytes → Bytes → Reply A
  json : ℕ → A → Reply A
  no_body : ℕ → Reply A

module _ {A : Type 0} where
  abbrev pub status : Reply A → ℕ
  status (plain_error code m) = code
  status (error_envelope code c m) = code
  status (json code a) = code
  status (no_body code) = code

-- What the handlers read of a request: `query` is r.URL.Query().Get, `user` the user of the
-- context.
pub record Request : Type 0 where
  pub method : Bytes
  pub path : Bytes
  pub authorization : Bytes
  pub query : Bytes → Bytes
  pub user : Option User

module _ {A : Type 0} where
  abbrev pub merge : Result A A → A
  merge (ok a) = a
  merge (err a) = a

module _ {W A : Type 0} where
  -- A handler is a block whose errors are the replies of its early returns.
  unfoldable pub finish : Exec W A A → W → A × W
  finish m w = let (r, w') = m w in (merge r, w')

module _ {E A : Type 0} where
  abbrev pub some_or : E → Option A → Result E A
  some_or e none = err e
  some_or e (some a) = ok a

pub record UserResp : Type 0 where
  pub id : Bytes
  pub username : Bytes
  pub email : Bytes
  pub created_by : Bytes
  pub created_time : ℕ
  pub updated_time : ℕ
  pub role : Bytes

unfoldable pub user_resp : User → UserResp
user_resp u = record {
  id = u.id;
  username = u.username;
  email = u.email;
  created_by = u.created_by;
  created_time = u.created_time;
  updated_time = u.updated_time;
  role = u.role;
}

module _ {A : Type 0} where
  -- http.Error(w, "method not allowed", 405)
  abbrev pub method_not_allowed : Reply A
  method_not_allowed = plain_error 405 (text "method not allowed")

  abbrev pub bad_json : Reply A
  bad_json = error_envelope 400 (text "bad_request") (text "invalid JSON payload")

  abbrev pub authentication_required : Reply A
  authentication_required =
      error_envelope 401 (text "unauthorized") (text "authentication required")

  abbrev pub server_error : Bytes → Reply A
  server_error m = error_envelope 500 (text "server_error") m
