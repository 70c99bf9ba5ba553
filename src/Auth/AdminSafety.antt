-- ===== src/Auth/AdminSafety.antt =====
-- The methods of the service and the rows of the administrators: which methods leave the whole
-- table of users alone, and which change only rows of other users.
use anti_river_ten_demo.Prelude.{◌≡◌, refl, subst, ap, false, arith}
use anti_river_ten_demo.Strings.{Bytes, text, has_prefix}
use anti_river_ten_demo.Exec.{Exec, ok, pure, total, ◌>>=◌}
use anti_river_ten_demo.Exec.Keeps.{Fixes, Fixes-bind, Fixes-check, Fixes-catch, bind_at}
use anti_river_ten_demo.Config.{Config}
use anti_river_ten_demo.Db.{User, DbError, user_before_create}
use anti_river_ten_demo.Db.Laws.{Elem, Found}
use anti_river_ten_demo.Auth.{Error, Backend, wrap, wrap_first}
use anti_river_ten_demo.Auth.Laws.{BackendLaws, wrap_first-ok, wrap_first-state}
use anti_river_ten_demo.Auth.Accounts.{
  register, create_user, add_user, insert_user, new_user, check_role, user_id_is,
}
use anti_river_ten_demo.Auth.Admin.{find_user}
use anti_river_ten_demo.Auth.AdminRows.{
  admin_rows, is_protected, is_admin, admins, admins-Created, admins-Updated, plain_key,
}
use anti_river_ten_demo.Auth.Frames.{users_rules}

module _ (b : Backend) (laws : BackendLaws b) (cfg : Config) where
  open b use {World, users, new_uuid}

  pub admins-fixed :
      {A : Type 0} (m : Exec World Error A) → Fixes users.rows m → Fixes (admin_rows b) m
  admins-fixed m k = record { at = λ w. ap admins (k.at w) }

  admins-create : (r : User) → is_admin r ≡ false → Fixes (admin_rows b) (users.create r)
  admins-create r h = record {
    at = λ w.
        admins-Created r (users.rows w) (users.rows (users.create r w).1) (users.create r w).0
          (laws.users_laws.create_effect r w) h;
  }

  role-before_create :
      (u : User) (w : World) {a : User}
      → (user_before_create {E = DbError} new_uuid u w).0 ≡ ok a
      → a.role ≡ u.role
  unfolding user_before_create total pure ◌>>=◌
  role-before_create u w h = ground arith

  users-before_create : (u : User) → Fixes users.rows (user_before_create {E = DbError} new_uuid u)
  unfolding user_before_create
  users-before_create u = search users_rules

  admins-insert_user : (u : User) → is_admin u ≡ false → Fixes (admin_rows b) (insert_user b cfg u)
  unfolding insert_user
  admins-insert_user u h = record {
    at = λ w.
        bind_at (admin_rows b) (user_before_create new_uuid u) users.create w
          (ap admins ((users-before_create u).at w))
          λ a e. (admins-create a (rw (role-before_create u w e) h)).at _;
  }

  admins-add_user :
      (username email password role created_by : Bytes)
      → is_protected role ≡ false
      → Fixes (admin_rows b) (add_user b cfg username email password role created_by)
  unfolding add_user wrap new_user
  admins-add_user username email password role created_by h =
      Fixes-bind _ _ (admins-fixed _ (search users_rules)) λ n.
        Fixes-bind _ _ (Fixes-check _ _) λ _.
          Fixes-bind _ _ (admins-fixed _ (search users_rules))
            λ hash. Fixes-catch _ _ (admins-insert_user _ h)

  -- Register leaves the rows of the administrators as they are.
  pub admins-register :
      (username email password created_by : Bytes)
      → Fixes (admin_rows b) (register b cfg username email password created_by)
  unfolding register
  admins-register username email password created_by =
      Fixes-bind _ _ (Fixes-check _ _)
        λ _. admins-add_user username email password _ created_by user_role
    where
      user_role : is_protected (text "USER") ≡ false
      user_role = unfold has_prefix text in refl

  pub users-check_role : (role : Bytes) → Fixes users.rows (check_role b cfg role)
  unfolding check_role wrap
  users-check_role role = search users_rules

  -- So does CreateUser, unless the role that it is given begins with ADMIN.
  pub admins-create_user :
      (username email password role created_by : Bytes)
      → is_protected role ≡ false
      → Fixes (admin_rows b) (create_user b cfg username email password role created_by)
  unfolding create_user
  admins-create_user username email password role created_by h =
      Fixes-bind _ _ (Fixes-check _ _) λ _.
        Fixes-bind _ _ (admins-fixed _ (users-check_role role))
          λ _. admins-add_user username email password role created_by h

  pub users-find_user : (id : Bytes) → Fixes users.rows (find_user b cfg id)
  unfolding find_user wrap_first
  users-find_user id = search users_rules

  -- The user that was found is a row of the table.
  pub find_user-Elem :
      (id : Bytes) (w : World) (u : User)
      → (find_user b cfg id w).0 ≡ ok u
      → Elem u (users.rows (find_user b cfg id w).1)
  unfolding find_user
  find_user-Elem id w u h =
      let found : (users.first (user_id_is id) w).0 ≡ ok u = wrap_first-ok _ _ _ w h in
      rw (wrap_first-state, laws.users_laws.first_kept (user_id_is id) w)
        ((subst (Found (user_id_is id) (users.rows w)) found
          (laws.users_laws.first_answer (user_id_is id) w)).0)

  -- A change of the row of a user who is no administrator.
  pub admins-update :
      (u : User) (f : User → User) (w : World)
      → Elem u (users.rows w)
      → is_admin u ≡ false
      → ((r : User) → is_admin (f r) ≡ false)
      → admin_rows b (users.update (user_id_is u.id) f w).1 ≡ admin_rows b w
  admins-update u f w el h plain =
      admins-Updated (user_id_is u.id) f plain (users.rows w) _
        (users.update (user_id_is u.id) f w).0 (laws.users_laws.update_effect (user_id_is u.id) f w)
        (plain_key (users.rows w) u (laws.user_key w u el) h)
