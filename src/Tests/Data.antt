-- ===== src/Tests/Data.antt =====
-- A server with an administrator, a user and a refresh token of the user, and calls to it.
use anti_river_ten_demo.Prelude.{◌*◌, false, none, some, List, [], ◌∷◌}
use anti_river_ten_demo.Prelude.Int.{pos}
use anti_river_ten_demo.Strings.{Bytes, text}
use anti_river_ten_demo.Config.{Config, second, hour}
use anti_river_ten_demo.Db.{User, RefreshToken}
use anti_river_ten_demo.Handlers.{Request}
use anti_river_ten_demo.Router.{Call, update_user_status, delete_user, refresh}
use anti_river_ten_demo.Tests.Memory.{memory}

abbrev pub config : Config
config = record {
  port = text "8080";
  log_level = text "info";
  request_timeout = pos (30 * second);
  max_body_bytes = pos 1048576;
  allowed_origins = text "https://app.example" ∷ [];
  env = text "production";
  database_url = text "db";
  jwt_secret = text "secret";
  jwt_ttl = pos hour;
  refresh_ttl = pos (720 * hour);
  openai_api_key = [];
}

abbrev pub user_of : Bytes → Bytes → User
user_of id role = record {
  id = id;
  username = id;
  email = id;
  password_hash = text "hash:pw";
  created_by = text "self";
  updated_by = text "self";
  role = role;
  created_time = 0;
  updated_time = 0;
}

abbrev pub root : User
root = user_of (text "root") (text "ADMIN")

abbrev pub ann : User
ann = user_of (text "ann") (text "USER")

abbrev pub ann_token : RefreshToken
ann_token = record {
  id = text "t1";
  user_id = text "ann";
  token_hash = text "3131";
  expires_at = 1000;
  created_time = 0;
}

unfoldable pub start : memory.World
unfolding memory
start = record {
  user_rows = root ∷ ann ∷ [];
  role_rows = [];
  token_rows = ann_token ∷ [];
  log_rows = [];
  clock = 7;
}

abbrev pub request : Bytes → Bytes → Bytes → Request
request method path bearer = record {
  method = method;
  path = path;
  authorization = bearer;
  query = λ key. [];
  user = none;
}

abbrev pub calls : List (Call × Request)
calls =
    (
      update_user_status (some false),
      request (text "PUT") (text "/v1/admin/users/root/status") (text "Bearer secret:root"),
    )
    ∷ (
      delete_user,
      request (text "DELETE") (text "/v1/admin/users/ann") (text "Bearer secret:root"),
    )
    ∷ (refresh (some (text "11")), request (text "POST") (text "/v1/auth/refresh") [])
    ∷ []
