-- ===== src/Handlers/Invariant.antt =====
-- What the account handlers do to the table of users and to the rows of the administrators.
use anti_river_ten_demo.Prelude.{
  ◌≡◌, refl, ap, All, [], ◌∷◌, Bool, true, false, Option, List, any, inl, inr, Bool-cases,
}
use anti_river_ten_demo.Strings.{Bytes, text, str_eq, has_prefix}
use anti_river_ten_demo.Strings.Laws.{str_eq_iff}
use anti_river_ten_demo.Exec.{Exec, Result, pure, lift, catch, check, ◌>>=◌, ◌>>◌}
use anti_river_ten_demo.Exec.Keeps.{
  Fixes, Fixes-pure, bind_at, silent_at, catch-state, check-state, check-ok, fixes_rules,
}
use anti_river_ten_demo.Config.{Config}
use anti_river_ten_demo.Db.{User}
use anti_river_ten_demo.Auth.{Backend}
use anti_river_ten_demo.Auth.Laws.{BackendLaws}
use anti_river_ten_demo.Auth.AdminRows.{admin_rows, NoSleeper, is_protected}
use anti_river_ten_demo.Auth.Frames.{users-login, users-refresh, users-list_users}
use anti_river_ten_demo.Auth.AdminSafety.{admins-register, admins-create_user}
use anti_river_ten_demo.Auth.AdminUpdates.{
  admins-update_user_status, admins-delete_user, admins-update_user_role,
}
use anti_river_ten_demo.Handlers.{Request, finish}
use anti_river_ten_demo.Handlers.Accounts.{
  RegisterReq, LoginReq, register_handler, login_handler, refresh_handler,
}
use anti_river_ten_demo.Handlers.Admin.{
  CreateUserReq, create_user_handler, list_users_handler, update_user_status_handler,
  delete_user_handler, update_user_role_handler, valid_role, allowed_roles,
}

module _ {W A X : Type 0} (f : W → X) where
  pub finish-fixed : (m : Exec W A A) → Fixes f m → (w : W) → f (finish m w).1 ≡ f w
  unfolding finish
  finish-fixed m k w = k.at w

  finish_at : (m : Exec W A A) (w : W) → f (m w).1 ≡ f w → f (finish m w).1 ≡ f w
  unfolding finish
  finish_at m w h = h

module _ {W E A : Type 0} where
  lift-state : (r : Result E A) (w : W) → (lift r w).1 ≡ w
  unfolding lift
  lift-state r w = refl

module _ {W D A B X : Type 0} (f : W → X) where
  -- The end of a handler: a call of the service, and the reply made of its result.
  catch_at :
      (g : D → B) (m : Exec W D A) (reply : A → B) (w : W)
      → f (m w).1 ≡ f w
      → f ((catch g m >>= λ a. pure (reply a)) w).1 ≡ f w
  catch_at g m reply w h =
      bind_at f (catch g m) (λ a. pure (reply a)) w (rw catch-state h)
        λ a _. (Fixes-pure {f = f} (reply a)).at _

unprotected_of_any :
    (role : Bytes) (roles : List Bytes)
    → All (λ r. is_protected r ≡ false) roles
    → any (str_eq role) roles ≡ true
    → is_protected role ≡ false
unprotected_of_any role [] h e = cc
unprotected_of_any role (r ∷ roles) (hr, h) e = elim (Bool-cases (str_eq role r)) [
  | inl same ↦ rw ((str_eq_iff role r).0 same) hr
  | inr other ↦ unprotected_of_any role roles h (rw other at e)
]

-- A role that the handlers let through does not begin with ADMIN.
pub valid_role-unprotected : (role : Bytes) → valid_role role ≡ true → is_protected role ≡ false
unfolding valid_role has_prefix text
valid_role-unprotected role =
    unprotected_of_any role allowed_roles (refl, (refl, (refl, (refl, tt))))

module _ (b : Backend) (laws : BackendLaws b) (cfg : Config) where
  open b use {World, users}

  pub users-login_handler :
      (r : Request) (body : Option LoginReq) (w : World)
      → users.rows (login_handler b cfg r body w).1 ≡ users.rows w
  unfolding login_handler
  users-login_handler r body =
      finish-fixed users.rows _ (search (fixes_rules, users-login b laws cfg))

  pub users-refresh_handler :
      (r : Request) (body : Option Bytes) (w : World)
      → users.rows (refresh_handler b cfg r body w).1 ≡ users.rows w
  unfolding refresh_handler
  users-refresh_handler r body =
      finish-fixed users.rows _ (search (fixes_rules, users-refresh b laws cfg))

  pub users-list_users_handler :
      (r : Request) (w : World) → users.rows (list_users_handler b cfg r w).1 ≡ users.rows w
  unfolding list_users_handler
  users-list_users_handler r =
      finish-fixed users.rows _ (search (fixes_rules, users-list_users b laws cfg))

  pub admins-register_handler :
      (r : Request) (body : Option RegisterReq) (w : World)
      → admin_rows b (register_handler b cfg r body w).1 ≡ admin_rows b w
  unfolding register_handler
  admins-register_handler r body =
      finish-fixed (admin_rows b) _ (search (fixes_rules, admins-register b laws cfg))

  pub admins-update_user_status_handler :
      (r : Request) (body : Option Bool) (w : World)
      → NoSleeper b w
      → admin_rows b (update_user_status_handler b cfg r body w).1 ≡ admin_rows b w
  unfolding update_user_status_handler
  admins-update_user_status_handler r body w awake = finish_at (admin_rows b) _ w (
      silent_at (admin_rows b) _ _ w (check-state _ _ w) λ _.
        silent_at (admin_rows b) _ _ w (lift-state _ w) λ admin_user.
          silent_at (admin_rows b) _ _ w (check-state _ _ w) λ _.
            silent_at (admin_rows b) _ _ w (lift-state _ w) λ active.
              catch_at (admin_rows b) _ _ _ w
                (admins-update_user_status b laws cfg _ active admin_user.username w awake))

  pub admins-delete_user_handler :
      (r : Request) (w : World)
      → NoSleeper b w
      → admin_rows b (delete_user_handler b cfg r w).1 ≡ admin_rows b w
  unfolding delete_user_handler
  admins-delete_user_handler r w awake = finish_at (admin_rows b) _ w (
      silent_at (admin_rows b) _ _ w (check-state _ _ w) λ _.
        silent_at (admin_rows b) _ _ w (lift-state _ w) λ admin_user.
          silent_at (admin_rows b) _ _ w (check-state _ _ w) λ _.
            silent_at (admin_rows b) _ _ w (check-state _ _ w) λ _.
              catch_at (admin_rows b) _ _ _ w
                (admins-delete_user b laws cfg _ admin_user.username w awake))

  -- The role that passes the guard of a handler, and what follows it.
  valid_at :
      {A : Type 0} (f : World → List User) (role : Bytes) (e : A) (m : Exec World A A) (w : World)
      → (is_protected role ≡ false → f (m w).1 ≡ f w)
      → f ((check (valid_role role) e >> m) w).1 ≡ f w
  valid_at f role e m w h =
      bind_at f (check (valid_role role) e) (λ _. m) w (ap f (check-state _ e w))
        λ _ passed.
          rw check-state (h (valid_role-unprotected role (check-ok (valid_role role) e w passed)))

  pub admins-update_user_role_handler :
      (r : Request) (body : Option Bytes) (w : World)
      → NoSleeper b w
      → admin_rows b (update_user_role_handler b cfg r body w).1 ≡ admin_rows b w
  unfolding update_user_role_handler
  admins-update_user_role_handler r body w awake = finish_at (admin_rows b) _ w (
      silent_at (admin_rows b) _ _ w (check-state _ _ w) λ _.
        silent_at (admin_rows b) _ _ w (lift-state _ w) λ admin_user.
          silent_at (admin_rows b) _ _ w (check-state _ _ w) λ _.
            silent_at (admin_rows b) _ _ w (lift-state _ w) λ role.
              valid_at (admin_rows b) role _ _ w λ plain.
                catch_at (admin_rows b) _ _ _ w
                  (admins-update_user_role b laws cfg _ role admin_user.username w plain awake))

  pub admins-create_user_handler :
      (r : Request) (body : Option CreateUserReq) (w : World)
      → admin_rows b (create_user_handler b cfg r body w).1 ≡ admin_rows b w
  unfolding create_user_handler
  admins-create_user_handler r body w = finish_at (admin_rows b) _ w (
      silent_at (admin_rows b) _ _ w (check-state _ _ w) λ _.
        silent_at (admin_rows b) _ _ w (lift-state _ w) λ admin_user.
          silent_at (admin_rows b) _ _ w (lift-state _ w) λ req.
            silent_at (admin_rows b) _ _ w (check-state _ _ w) λ _.
              valid_at (admin_rows b) req.role _ _ w λ plain.
                catch_at (admin_rows b) _ _ _ w
                  ((admins-create_user b laws cfg _ _ _ _ _ plain).at w))
