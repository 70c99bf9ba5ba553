-- ===== src/Auth/Accounts.antt =====
-- internal/auth/service.go: Register, CreateUser, Login, GetUserByID, Refresh.
use anti_river_ten_demo.Prelude.{Bool, not, ◌||◌, [], ◌++◌, ltb, ◌==◌, if◌then◌else◌}
use anti_river_ten_demo.Strings.{Bytes, text, is_empty, str_eq}
use anti_river_ten_demo.Exec.{Exec, pure, raise, total, check, ignore, ◌>>=◌, ◌>>◌}
use anti_river_ten_demo.Config.{Config}
use anti_river_ten_demo.Db.{User, Role, RefreshToken, DbError, user_before_create}
use anti_river_ten_demo.Auth.{
  Error, invalid_credentials, user_exists, message, Backend, Session, wrap, wrap_first,
}
use anti_river_ten_demo.Auth.Tokens.{token_hash, generate_token, generate_refresh_token}

-- WHERE username = ? OR email = ?
unfoldable pub named : Bytes → Bytes → User → Bool
named username email u = str_eq u.username username || str_eq u.email email

-- WHERE id = ?
unfoldable pub user_id_is : Bytes → User → Bool
user_id_is id u = str_eq u.id id

-- WHERE code = ?
unfoldable pub code_is : Bytes → Role → Bool
code_is code r = str_eq r.code code

-- WHERE token_hash = ?
unfoldable pub hash_is : Bytes → RefreshToken → Bool
hash_is hash rt = str_eq rt.token_hash hash

-- The row of a delete by primary key.
unfoldable pub token_id_is : Bytes → RefreshToken → Bool
token_id_is id rt = str_eq rt.id id

abbrev pub missing_fields : Error
missing_fields = message (text "missing required fields")

unfoldable pub new_user : Bytes → Bytes → Bytes → Bytes → Bytes → User
new_user username email hash role created_by = record {
  id = [];
  username = username;
  email = email;
  password_hash = hash;
  created_by = created_by;
  updated_by = created_by;
  role = role;
  created_time = 0;
  updated_time = 0;
}

module _ (b : Backend) (cfg : Config) where
  open b use {
    World, users, roles, tokens, now, new_uuid, generate_from_password, compare_hash_and_password,
  }

  -- Create of a user: the hook, then the row.
  unfoldable pub insert_user : User → Exec World DbError User
  insert_user u = do u' ← user_before_create new_uuid u; users.create u'

  -- What Register and CreateUser share: the check for a taken name, the hash, the row.
  unfoldable pub add_user : Bytes → Bytes → Bytes → Bytes → Bytes → Exec World Error User
  unfolding insert_user new_user
  add_user username email password role created_by = do
    count ← wrap (text "check existing") (users.count_rows (named username email))
    check (count == 0) user_exists
    hash ← wrap (text "hash password") (generate_from_password password)
    wrap (text "create user") (insert_user (new_user username email hash role created_by))

  unfoldable pub register : Bytes → Bytes → Bytes → Bytes → Exec World Error User
  unfolding add_user
  register username email password created_by = do
    check (not (is_empty username || is_empty email || is_empty password)) missing_fields
    add_user username email password (text "USER") created_by

  -- Validates that a role is listed in the table of roles.
  unfoldable pub check_role : Bytes → Exec World Error (Unit {0})
  check_role role = do
    count ← wrap (text "check role") (roles.count_rows (code_is role))
    check (not (count == 0)) (message (text "invalid role: " ++ role))

  unfoldable pub create_user : Bytes → Bytes → Bytes → Bytes → Bytes → Exec World Error User
  unfolding check_role add_user
  create_user username email password role created_by = do
    check (not (is_empty username || is_empty email || is_empty password || is_empty role))
        missing_fields
    check_role role
    add_user username email password role created_by

  unfoldable pub get_user_by_id : Bytes → Exec World Error User
  get_user_by_id id = wrap_first invalid_credentials (text "get user") (users.first (user_id_is id))

  unfoldable pub login : Bytes → Bytes → Exec World Error Session
  login identifier password = do
    u ←
        wrap_first invalid_credentials (text "find user")
          (users.first (named identifier identifier))
    check (compare_hash_and_password u.password_hash password) invalid_credentials
    (access, access_exp) ← generate_token b cfg u
    (refresh, refresh_exp) ← generate_refresh_token b cfg u.id u.role
    pure (record {
      user = u;
      access = access;
      access_exp = access_exp;
      refresh = refresh;
      refresh_exp = refresh_exp;
    })

  -- The second half of Refresh: the token is known and has not expired.
  unfoldable pub rotate : RefreshToken → Exec World Error Session
  rotate rt = do
    u ← wrap (text "load user") (users.first (user_id_is rt.user_id))
    wrap (text "delete old refresh") (tokens.delete (token_id_is rt.id))
    (refresh, refresh_exp) ← generate_refresh_token b cfg u.id u.role
    (access, access_exp) ← generate_token b cfg u
    pure (record {
      user = u;
      access = access;
      access_exp = access_exp;
      refresh = refresh;
      refresh_exp = refresh_exp;
    })

  -- An expired token is deleted, whatever the delete returns, and refused.
  unfoldable pub reject_expired : RefreshToken → Exec World Error Session
  reject_expired rt = do ignore (tokens.delete (token_id_is rt.id)); raise invalid_credentials

  unfoldable pub refresh : Bytes → Exec World Error Session
  unfolding rotate reject_expired
  refresh refresh_token = do
    check (not (is_empty refresh_token)) invalid_credentials
    rt ←
        wrap_first invalid_credentials (text "find refresh token")
          (tokens.first (hash_is (token_hash b cfg refresh_token)))
    t ← total now
    if ltb rt.expires_at t then reject_expired rt else rotate rt
