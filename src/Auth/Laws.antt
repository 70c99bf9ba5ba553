-- ===== src/Auth/Laws.antt =====
-- What the service relies on: the tables, the clock and the libraries, and the rules that say which
-- call leaves which table alone.
use anti_river_ten_demo.Prelude.{refl, ℕ, ◌≡◌, Bool, true, All}
use anti_river_ten_demo.Strings.{Bytes}
use anti_river_ten_demo.Exec.{Exec, ok, total}
use anti_river_ten_demo.Exec.Keeps.{Fixes, catch-ok}
use anti_river_ten_demo.Db.{User, Role, RefreshToken, DbError, Query}
use anti_river_ten_demo.Db.Laws.{TableLaws, Elem}
use anti_river_ten_demo.Auth.{Error, wrapped, not_found_as, Backend, wrap, wrap_first}
use anti_river_ten_demo.Auth.Accounts.{user_id_is, hash_is}

module _ {W A : Type 0} where
  -- What has returned under a wrapper has returned.
  pub wrap-ok :
      (m : Bytes) (action : Exec W DbError A) (w : W) {a : A}
      → (wrap m action w).0 ≡ ok a
      → (action w).0 ≡ ok a
  unfolding wrap
  wrap-ok m action w h = catch-ok (wrapped m) action w h

  pub wrap-state :
      (m : Bytes) (action : Exec W DbError A) (w : W) → (wrap m action w).1 ≡ (action w).1
  unfolding wrap
  wrap-state m action w = refl

  pub wrap_first-ok :
      (e : Error) (m : Bytes) (action : Exec W DbError A) (w : W) {a : A}
      → (wrap_first e m action w).0 ≡ ok a
      → (action w).0 ≡ ok a
  unfolding wrap_first
  wrap_first-ok e m action w h = catch-ok (not_found_as e m) action w h

  pub wrap_first-state :
      (e : Error) (m : Bytes) (action : Exec W DbError A) (w : W)
      → (wrap_first e m action w).1 ≡ (action w).1
  unfolding wrap_first
  wrap_first-state e m action w = refl

-- The stored row has the fields that were given; the database sets the time stamps.
pub record StoredUser (r s : User) : Type 0 where
  pub id : s.id ≡ r.id
  pub username : s.username ≡ r.username
  pub email : s.email ≡ r.email
  pub password_hash : s.password_hash ≡ r.password_hash
  pub created_by : s.created_by ≡ r.created_by
  pub updated_by : s.updated_by ≡ r.updated_by
  pub role : s.role ≡ r.role

pub record StoredToken (r s : RefreshToken) : Type 0 where
  pub id : s.id ≡ r.id
  pub user_id : s.user_id ≡ r.user_id
  pub token_hash : s.token_hash ≡ r.token_hash
  pub expires_at : s.expires_at ≡ r.expires_at

abbrev pub touch_user : ℕ → User → User
touch_user t u = record u { updated_time = t }

module _ {R : Type 0} where
  abbrev pub touch_none : ℕ → R → R
  touch_none t r = r

module _ (b : Backend) where
  open b use {World, users, roles, tokens}

  abbrev pub BesideUsers : World → World → Type 0
  BesideUsers w w' = (roles.rows w' ≡ roles.rows w) × (tokens.rows w' ≡ tokens.rows w)

  abbrev pub BesideRoles : World → World → Type 0
  BesideRoles w w' = (users.rows w' ≡ users.rows w) × (tokens.rows w' ≡ tokens.rows w)

  abbrev pub BesideTokens : World → World → Type 0
  BesideTokens w w' = (users.rows w' ≡ users.rows w) × (roles.rows w' ≡ roles.rows w)

  abbrev pub SameTables : World → World → Type 0
  SameTables w w' =
      (users.rows w' ≡ users.rows w)
      × (roles.rows w' ≡ roles.rows w)
      × (tokens.rows w' ≡ tokens.rows w)

-- The primary key of the users and the unique index on the token hashes are laws of the tables.
pub record BackendLaws (b : Backend) : Type 0 where
  pub users_laws : TableLaws b.users StoredUser touch_user (BesideUsers b)
  pub roles_laws : TableLaws b.roles (λ r s. s ≡ r) touch_none (BesideRoles b)
  pub tokens_laws : TableLaws b.tokens StoredToken touch_none (BesideTokens b)
  pub user_key :
      (w : b.World) (u : User)
      → Elem u (b.users.rows w)
      → All (λ r. user_id_is u.id r ≡ true → r ≡ u) (b.users.rows w)
  pub token_key :
      (w : b.World) (rt : RefreshToken)
      → Elem rt (b.tokens.rows w)
      → All (λ r. hash_is rt.token_hash r ≡ true → r ≡ rt) (b.tokens.rows w)
  pub now_kept : (w : b.World) → SameTables b w (b.now w).1
  pub uuid_kept : (w : b.World) → SameTables b w (b.new_uuid w).1
  pub rand_kept : (w : b.World) → SameTables b w (b.rand_read w).1
  pub hash_kept : (s : Bytes) (w : b.World) → SameTables b w (b.generate_from_password s w).1

module _ (b : Backend) (laws : BackendLaws b) where
  open b use {World, users, roles, tokens, now, new_uuid, rand_read, generate_from_password}
  open laws use {users_laws, roles_laws, tokens_laws, now_kept, uuid_kept, rand_kept, hash_kept}

  -- Calls that leave the table of users alone.
  pub users-count : (p : User → Bool) → Fixes users.rows (users.count_rows p)
  users-count p = record { at = users_laws.count_kept p }

  pub users-first : (p : User → Bool) → Fixes users.rows (users.first p)
  users-first p = record { at = users_laws.first_kept p }

  pub users-find : (q : Query User) → Fixes users.rows (users.find_rows q)
  users-find q = record { at = users_laws.find_kept q }

  pub users-count_roles : (p : Role → Bool) → Fixes users.rows (roles.count_rows p)
  users-count_roles p = record { at = λ w. (roles_laws.count_outside p w).0 }

  pub users-first_token : (p : RefreshToken → Bool) → Fixes users.rows (tokens.first p)
  users-first_token p = record { at = λ w. (tokens_laws.first_outside p w).0 }

  pub users-create_token : (rt : RefreshToken) → Fixes users.rows (tokens.create rt)
  users-create_token rt = record { at = λ w. (tokens_laws.create_outside rt w).0 }

  pub users-delete_token : (p : RefreshToken → Bool) → Fixes users.rows (tokens.delete p)
  users-delete_token p = record { at = λ w. (tokens_laws.delete_outside p w).0 }

  pub users-now : Fixes users.rows (total {E = Error} now)
  unfolding total
  users-now = record { at = λ w. (now_kept w).0 }

  pub users-uuid : Fixes users.rows (total {E = DbError} new_uuid)
  unfolding total
  users-uuid = record { at = λ w. (uuid_kept w).0 }

  pub users-rand : Fixes users.rows rand_read
  users-rand = record { at = λ w. (rand_kept w).0 }

  pub users-hash : (s : Bytes) → Fixes users.rows (generate_from_password s)
  users-hash s = record { at = λ w. (hash_kept s w).0 }

  -- Calls that leave the table of tokens alone.
  pub tokens-first : (p : RefreshToken → Bool) → Fixes tokens.rows (tokens.first p)
  tokens-first p = record { at = tokens_laws.first_kept p }

  pub tokens-first_user : (p : User → Bool) → Fixes tokens.rows (users.first p)
  tokens-first_user p = record { at = λ w. (users_laws.first_outside p w).1 }

  pub tokens-now : Fixes tokens.rows (total {E = Error} now)
  unfolding total
  tokens-now = record { at = λ w. (now_kept w).2 }

  pub tokens-uuid : Fixes tokens.rows (total {E = DbError} new_uuid)
  unfolding total
  tokens-uuid = record { at = λ w. (uuid_kept w).2 }

  pub tokens-rand : Fixes tokens.rows rand_read
  tokens-rand = record { at = λ w. (rand_kept w).2 }
