-- ===== src/Handlers/Admin.antt =====
-- internal/http/handlers/auth.go: the handlers of the administrators and their helpers.
use anti_river_ten_demo.Prelude.{
  ℕ, ◌+◌, ◌-◌, ◌*◌, ◌%◌, ◌^◌, Bool, not, ◌&&◌, Option, none, some, List, [], ◌∷◌, map, any,
  if◌then◌else◌,
}
use anti_river_ten_demo.Prelude.Int.{ℤ, pos, ltb_ℤ, leb_ℤ, wrap64}
use anti_river_ten_demo.Strings.{
  Bytes, text, str_eq, is_empty, has_prefix, has_suffix, cut_prefix, cut_suffix,
}
use anti_river_ten_demo.Strconv.{is_digit}
use anti_river_ten_demo.Exec.{pure, lift, catch, check, ◌>>=◌, ◌>>◌}
use anti_river_ten_demo.Config.{Config}
use anti_river_ten_demo.Auth.{Backend, Error, user_exists, error_text}
use anti_river_ten_demo.Auth.Accounts.{create_user}
use anti_river_ten_demo.Auth.Admin.{
  admin_role, list_users, update_user_status, delete_user, update_user_role,
}
use anti_river_ten_demo.Handlers.{
  Reply, error_envelope, json, no_body, Request, finish, some_or, UserResp, user_resp,
  method_not_allowed, bad_json, authentication_required, server_error,
}

pub record CreateUserReq : Type 0 where
  pub username : Bytes
  pub email : Bytes
  pub password : Bytes
  pub role : Bytes

pub record ListUsersResp : Type 0 where
  pub users : List UserResp
  pub total : ℕ
  pub limit : ℤ
  pub offset : ℤ

abbrev pub allowed_roles : List Bytes
allowed_roles = text "USER" ∷ text "ANALYZER" ∷ text "MONITOR" ∷ text "TEAM_LEADER" ∷ []

-- The loop that sets validRole.
unfoldable pub valid_role : Bytes → Bool
valid_role role = any (str_eq role) allowed_roles

-- The loop of parsePositiveInt: the bit pattern of `result`, for the sum wraps around in an int.
unfoldable pub positive_from : Bytes → ℕ → Option ℕ
unfolding is_digit
positive_from [] n = some n
positive_from (c ∷ s) n =
    let rest = positive_from s ((n * 10 + (c - b'0')) % 2 ^ 64) in if is_digit c then rest else none

unfoldable pub parse_positive_int : Bytes → Option ℤ
unfolding positive_from
parse_positive_int s = elim (positive_from s 0) [ none ↦ none | some n ↦ some (wrap64 n) ]

-- The limit of a page: a parsed value in 1..100, or 20.
unfoldable pub page_limit : Bytes → ℤ
unfolding parse_positive_int
page_limit s = if is_empty s then pos 20 else elim (parse_positive_int s) [
  | none ↦ pos 20
  | some n ↦ if ltb_ℤ (pos 0) n && leb_ℤ n (pos 100) then n else pos 20
]

-- The offset of a page: a parsed value that is not negative, or 0.
unfoldable pub page_offset : Bytes → ℤ
unfolding parse_positive_int
page_offset s = if is_empty s then pos 0 else elim (parse_positive_int s) [
  | none ↦ pos 0
  | some n ↦ if leb_ℤ (pos 0) n then n else pos 0
]

unfoldable pub extract_id_from_path : Bytes → Bytes → Bytes → Bytes
extract_id_from_path path prefix suffix =
    if has_prefix path prefix
    then (let rest = cut_prefix path prefix in
        if not (is_empty suffix) && has_suffix rest suffix then cut_suffix rest suffix else rest)
    else []

abbrev users_prefix : Bytes
users_prefix = text "/v1/admin/users/"

module _ {A : Type 0} where
  abbrev id_required : Reply A
  id_required = error_envelope 400 (text "invalid_path") (text "user ID is required")

  abbrev invalid_role : Bytes → Reply A
  invalid_role m = error_envelope 400 (text "invalid_role") m

  abbrev invalid_operation : Bytes → Reply A
  invalid_operation m = error_envelope 400 (text "invalid_operation") m

  abbrev user_not_found : Reply A
  user_not_found = error_envelope 404 (text "user_not_found") (text "user not found")

  -- if err.Error() == "..." { reply }
  abbrev on_text : Error → Bytes → Reply A → Reply A → Reply A
  on_text e m reply other = if str_eq (error_text e) m then reply else other

unfoldable pub create_error : Error → Reply UserResp
create_error user_exists =
    error_envelope 409 (text "user_exists") (text "username or email already exists")
create_error _ = server_error (text "could not create user")

unfoldable pub list_error : Error → Reply ListUsersResp
list_error e = server_error (text "could not list users")

unfoldable pub status_error : Error → Reply UserResp
status_error e = on_text e (text "user not found") user_not_found (
    on_text e (text "cannot modify ADMIN user status")
      (invalid_operation (text "cannot modify ADMIN user status"))
      (server_error (text "could not update user status")))

unfoldable pub delete_error : Error → Reply UserResp
delete_error e = on_text e (text "user not found") user_not_found (
    on_text e (text "cannot delete ADMIN user")
      (invalid_operation (text "cannot delete ADMIN user"))
      (server_error (text "could not delete user")))

unfoldable pub role_error : Error → Reply UserResp
role_error e = on_text e (text "user not found") user_not_found (
    on_text e (text "cannot modify ADMIN user role")
      (invalid_operation (text "cannot modify ADMIN user role"))
      (on_text e (text "cannot assign ADMIN role")
        (invalid_operation (text "cannot assign ADMIN role"))
        (server_error (text "could not update user role"))))

module _ (b : Backend) (cfg : Config) where
  open b use {World}

  unfoldable pub create_user_handler :
      Request → Option CreateUserReq → World → Reply UserResp × World
  unfolding create_error user_resp valid_role
  create_user_handler r body = finish (do
    check (str_eq r.method (text "POST")) method_not_allowed
    admin_user ← lift (some_or authentication_required r.user)
    req ← lift (some_or bad_json body)
    check (not (str_eq req.role admin_role)) (invalid_role (text "cannot create ADMIN users"))
    check (valid_role req.role) (invalid_role (text "invalid role specified"))
    u ←
        catch create_error
          (create_user b cfg req.username req.email req.password req.role admin_user.username)
    pure (json 201 (user_resp u)))

  unfoldable pub list_users_handler : Request → World → Reply ListUsersResp × World
  unfolding list_error user_resp page_limit page_offset
  list_users_handler r = finish (do
    check (str_eq r.method (text "GET")) method_not_allowed
    _ ← lift (some_or authentication_required r.user)
    let limit = page_limit (r.query (text "limit"))
    let offset = page_offset (r.query (text "offset"))
    (page, n) ← catch list_error (list_users b cfg limit offset)
    pure (
        json 200
          (record { users = map user_resp page; total = n; limit = limit; offset = offset })))

  unfoldable pub update_user_status_handler : Request → Option Bool → World → Reply UserResp × World
  unfolding status_error user_resp extract_id_from_path
  update_user_status_handler r body = finish (do
    check (str_eq r.method (text "PUT")) method_not_allowed
    admin_user ← lift (some_or authentication_required r.user)
    let id = extract_id_from_path r.path users_prefix (text "/status")
    check (not (is_empty id)) id_required
    active ← lift (some_or bad_json body)
    u ← catch status_error (update_user_status b cfg id active admin_user.username)
    pure (json 200 (user_resp u)))

  unfoldable pub delete_user_handler : Request → World → Reply UserResp × World
  unfolding delete_error extract_id_from_path
  delete_user_handler r = finish (do
    check (str_eq r.method (text "DELETE")) method_not_allowed
    admin_user ← lift (some_or authentication_required r.user)
    let id = extract_id_from_path r.path users_prefix []
    check (not (is_empty id)) id_required
    check (not (str_eq id admin_user.id))
        (invalid_operation (text "cannot delete your own account"))
    catch delete_error (delete_user b cfg id admin_user.username)
    pure (no_body 204))

  unfoldable pub update_user_role_handler : Request → Option Bytes → World → Reply UserResp × World
  unfolding role_error user_resp extract_id_from_path valid_role
  update_user_role_handler r body = finish (do
    check (str_eq r.method (text "PUT")) method_not_allowed
    admin_user ← lift (some_or authentication_required r.user)
    let id = extract_id_from_path r.path users_prefix (text "/role")
    check (not (is_empty id)) id_required
    role ← lift (some_or bad_json body)
    check (valid_role role) (invalid_role (text "invalid role specified"))
    u ← catch role_error (update_user_role b cfg id role admin_user.username)
    pure (json 200 (user_resp u)))
