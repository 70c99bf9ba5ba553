-- ===== src/Auth/Admin.antt =====
-- internal/auth/service.go: ListUsers, UpdateUserStatus, DeleteUser, IsUserActive, UpdateUserRole.
use anti_river_ten_demo.Prelude.{
  ℕ, ◌-◌, ◌/◌, Bool, true, false, not, ◌&&◌, ◌||◌, Option, none, some, List, ◌++◌, ltb, length,
  if◌then◌else◌,
}
use anti_river_ten_demo.Prelude.Int.{ℤ}
use anti_river_ten_demo.Strings.{Bytes, text, is_empty, str_eq, has_suffix, cut_suffix}
use anti_river_ten_demo.Strconv.{decimal}
use anti_river_ten_demo.Exec.{Exec, pure, total, check, ignore, ◌>>=◌, ◌>>◌}
use anti_river_ten_demo.Config.{Config, second}
use anti_river_ten_demo.Db.{User, RefreshToken}
use anti_river_ten_demo.Auth.{Error, message, Backend, wrap, wrap_first}
use anti_river_ten_demo.Auth.Accounts.{user_id_is, missing_fields, check_role}

abbrev pub admin_role : Bytes
admin_role = text "ADMIN"

abbrev pub inactive_suffix : Bytes
inactive_suffix = text "_INACTIVE"

-- len(role) > 9 && role[len(role)-9:] == "_INACTIVE"
unfoldable pub is_inactive_role : Bytes → Bool
is_inactive_role role = ltb 9 (length role) && has_suffix role inactive_suffix

-- The role of a user after UpdateUserStatus.
unfoldable pub status_role : Bool → Bytes → Bytes
unfolding is_inactive_role
status_role true role = if is_inactive_role role then cut_suffix role inactive_suffix else role
status_role false role = if is_inactive_role role then role else role ++ inactive_suffix

unfoldable pub is_user_active : Option User → Bool
unfolding is_inactive_role
is_user_active none = false
is_user_active (some u) =
    if str_eq u.role (text "DELETED") then false else not (is_inactive_role u.role)

-- Seconds of the Unix epoch of a time since the zero time of Go.
abbrev pub unix : ℕ → ℕ
unix t = t / second - 62135596800

-- The suffix of a deleted user's name and email.
unfoldable pub deleted_mark : ℕ → Bytes
deleted_mark t = text "_deleted_" ++ decimal (unix t)

unfoldable pub mark_role : Bytes → Bytes → User → User
mark_role role updated_by r = record r { role = role; updated_by = updated_by }

-- The changes of DeleteUser, from the values that were loaded.
unfoldable pub mark_deleted : User → ℕ → Bytes → User → User
unfolding deleted_mark
mark_deleted loaded t deleted_by r = record r {
  username = loaded.username ++ deleted_mark t;
  email = loaded.email ++ deleted_mark t;
  role = text "DELETED";
  updated_by = deleted_by;
}

-- WHERE user_id = ?
unfoldable pub owned_by : Bytes → RefreshToken → Bool
owned_by id rt = str_eq rt.user_id id

abbrev pub newest_first : User → User → Bool
newest_first u v = ltb v.created_time u.created_time

abbrev pub every_user : User → Bool
every_user u = true

module _ (b : Backend) (cfg : Config) where
  open b use {World, users, tokens, now}

  unfoldable pub list_users : ℤ → ℤ → Exec World Error (List User × ℕ)
  list_users limit offset = do
    n ← wrap (text "count users") (users.count_rows every_user)
    page ← wrap (text "list users") (
        users.find_rows (record {
          condition = every_user;
          before = newest_first;
          limit = some limit;
          offset = some offset;
        }))
    pure (page, n)

  -- The load that the three methods below begin with.
  unfoldable pub find_user : Bytes → Exec World Error User
  find_user id =
      wrap_first (message (text "user not found")) (text "find user") (users.first (user_id_is id))

  unfoldable pub update_user_status : Bytes → Bool → Bytes → Exec World Error User
  unfolding find_user status_role mark_role
  update_user_status id active updated_by = do
    user ← find_user id
    check (not (str_eq user.role admin_role)) (message (text "cannot modify ADMIN user status"))
    wrap (text "update user status")
        (users.update (user_id_is user.id) (mark_role (status_role active user.role) updated_by))
    wrap (text "reload user") (users.first (user_id_is id))

  unfoldable pub delete_user : Bytes → Bytes → Exec World Error (Unit {0})
  unfolding find_user mark_deleted
  delete_user id deleted_by = do
    user ← find_user id
    check (not (str_eq user.role admin_role)) (message (text "cannot delete ADMIN user"))
    t ← total now
    wrap (text "delete user") (users.update (user_id_is user.id) (mark_deleted user t deleted_by))
    ignore (tokens.delete (owned_by id))

  unfoldable pub update_user_role : Bytes → Bytes → Bytes → Exec World Error User
  unfolding find_user mark_role
  update_user_role id new_role updated_by = do
    check (not (is_empty id || is_empty new_role || is_empty updated_by)) missing_fields
    check_role b cfg new_role
    user ← find_user id
    check (not (str_eq user.role admin_role)) (message (text "cannot modify ADMIN user role"))
    check (not (str_eq new_role admin_role)) (message (text "cannot assign ADMIN role"))
    wrap (text "update user role")
        (users.update (user_id_is user.id) (mark_role new_role updated_by))
    wrap (text "reload user") (users.first (user_id_is id))
