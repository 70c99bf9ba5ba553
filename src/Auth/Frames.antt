-- ===== src/Auth/Frames.antt =====
-- The methods of the service that leave the table of users alone.
use anti_river_ten_demo.Prelude.Int.{ℤ}
use anti_river_ten_demo.Strings.{Bytes}
use anti_river_ten_demo.Exec.Keeps.{
  Fixes, Fixes-catch, bind_at, catch-ok, catch-state, check-ok, check-state, fixes_rules,
}
use anti_river_ten_demo.Config.{Config}
use anti_river_ten_demo.Db.{User, RefreshToken, token_before_create}
use anti_river_ten_demo.Auth.{Backend, wrap, wrap_first}
use anti_river_ten_demo.Auth.Laws.{
  BackendLaws, StoredUser, touch_user, users-count, users-first, users-find, users-count_roles,
  users-first_token, users-create_token, users-delete_token, users-now, users-uuid, users-rand,
  users-hash,
}
use anti_river_ten_demo.Auth.Tokens.{generate_token, generate_refresh_token, create_token}
use anti_river_ten_demo.Auth.Accounts.{login, refresh, rotate, reject_expired, get_user_by_id}
use anti_river_ten_demo.Auth.Admin.{list_users}

module _ (b : Backend) (laws : BackendLaws b) (cfg : Config) where
  open b use {World, users, new_uuid}

  pub ruleset users_rules = (
    fixes_rules, users-count, users-first, users-find, users-count_roles, users-first_token,
    users-create_token, users-delete_token, users-now, users-uuid, users-rand, users-hash,
  )

  users-create_token_row : (rt : RefreshToken) → Fixes users.rows (create_token b cfg rt)
  unfolding create_token token_before_create
  users-create_token_row rt = search users_rules

  users-generate_refresh_token :
      (id role : Bytes) → Fixes users.rows (generate_refresh_token b cfg id role)
  unfolding generate_refresh_token wrap
  users-generate_refresh_token id role = search (users_rules, users-create_token_row)

  users-generate_token : (u : User) → Fixes users.rows (generate_token b cfg u)
  unfolding generate_token
  users-generate_token u = search users_rules

  pub users-login :
      (identifier password : Bytes) → Fixes users.rows (login b cfg identifier password)
  unfolding login wrap_first
  users-login identifier password =
      search (users_rules, users-generate_token, users-generate_refresh_token)

  users-rotate : (rt : RefreshToken) → Fixes users.rows (rotate b cfg rt)
  unfolding rotate wrap
  users-rotate rt = search (users_rules, users-generate_token, users-generate_refresh_token)

  users-reject_expired : (rt : RefreshToken) → Fixes users.rows (reject_expired b cfg rt)
  unfolding reject_expired
  users-reject_expired rt = search users_rules

  pub users-refresh : (token : Bytes) → Fixes users.rows (refresh b cfg token)
  unfolding refresh wrap_first
  users-refresh token = search (users_rules, users-rotate, users-reject_expired)

  pub users-get_user_by_id : (id : Bytes) → Fixes users.rows (get_user_by_id b cfg id)
  unfolding get_user_by_id wrap_first
  users-get_user_by_id id = search users_rules

  pub users-list_users : (limit offset : ℤ) → Fixes users.rows (list_users b cfg limit offset)
  unfolding list_users wrap
  users-list_users limit offset = search users_rules
