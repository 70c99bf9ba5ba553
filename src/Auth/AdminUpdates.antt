-- ===== src/Auth/AdminUpdates.antt =====
-- UpdateUserStatus, UpdateUserRole and DeleteUser leave the rows of the administrators alone.
use anti_river_ten_demo.Prelude.{
  ◌≡◌, refl, sym, subst, ap, Bool, true, false, not, inl, inr, Bool-cases, All, arith,
}
use anti_river_ten_demo.Strings.{Bytes, text, str_eq, has_prefix}
use anti_river_ten_demo.Strings.Laws.{str_eq_refl}
use anti_river_ten_demo.Exec.{Exec, check, total, ignore, ◌>>=◌, ◌>>◌}
use anti_river_ten_demo.Exec.Keeps.{Fixes, Fixes-check, bind_at, check-ok, check-state}
use anti_river_ten_demo.Config.{Config}
use anti_river_ten_demo.Db.{User}
use anti_river_ten_demo.Db.Laws.{Elem}
use anti_river_ten_demo.Auth.{Error, Backend, wrap}
use anti_river_ten_demo.Auth.Laws.{BackendLaws, wrap-state, users-now}
use anti_river_ten_demo.Auth.Accounts.{user_id_is}
use anti_river_ten_demo.Auth.Admin.{
  admin_role, update_user_status, delete_user, update_user_role, find_user, owned_by, mark_deleted,
}
use anti_river_ten_demo.Auth.AdminRows.{
  admin_rows, NoSleeper, is_protected, is_admin, admins, admin_of_All,
}
use anti_river_ten_demo.Auth.Frames.{users_rules}
use anti_river_ten_demo.Auth.Roles.{status_role-unprotected}
use anti_river_ten_demo.Auth.AdminSafety.{
  admins-fixed, users-find_user, users-check_role, find_user-Elem, admins-update,
}

module _ (b : Backend) (laws : BackendLaws b) (cfg : Config) where
  open b use {World, users}

  -- A row whose role is not ADMIN is no administrator's.
  plain_of_check :
      (u : User) (w : World)
      → Elem u (users.rows w)
      → NoSleeper b w
      → not (str_eq u.role admin_role) ≡ true
      → is_admin u ≡ false
  plain_of_check u w el awake h = elim (Bool-cases (is_admin u)) [
    | inr plain ↦ plain
    | inl admin ↦
        let e : u.role ≡ admin_role =
          admin_of_All (λ r. r.role ≡ admin_role) (users.rows w) u el admin awake in
        let same : str_eq u.role admin_role ≡ true = rw e (str_eq_refl admin_role) in
        ground (arith, same)
  ]

  -- The guard on the role, and what follows it.
  admins-guard :
      {A : Type 0} (u : User) (e : Error) (m : Exec World Error A) (w : World)
      → Elem u (users.rows w)
      → NoSleeper b w
      → (is_admin u ≡ false → admin_rows b (m w).1 ≡ admin_rows b w)
      → admin_rows b ((check (not (str_eq u.role admin_role)) e >> m) w).1 ≡ admin_rows b w
  admins-guard u e m w el awake rest =
      bind_at (admin_rows b) (check (not (str_eq u.role admin_role)) e) (λ _. m) w
        (ap (admin_rows b) (check-state _ e w))
        λ _ passed.
          rw (check-state (not (str_eq u.role admin_role)) e w)
            (rest (plain_of_check u w el awake (check-ok _ e w passed)))

  -- The load of a user, and what follows it.
  admins-load :
      {A : Type 0} (id : Bytes) (k : User → Exec World Error A) (w : World)
      → NoSleeper b w
      → ((u : User) (w' : World)
          → Elem u (users.rows w')
          → NoSleeper b w'
          → admin_rows b (k u w').1 ≡ admin_rows b w')
      → admin_rows b ((find_user b cfg id >>= k) w).1 ≡ admin_rows b w
  admins-load id k w awake rest = bind_at (admin_rows b) (find_user b cfg id) k w kept λ u e.
      rest u (find_user b cfg id w).1 (find_user-Elem b laws cfg id w u e)
        (subst (All (λ r. r.role ≡ admin_role)) (sym kept) awake)
    where
      kept : admin_rows b (find_user b cfg id w).1 ≡ admin_rows b w
      kept = (admins-fixed b laws cfg _ (users-find_user b laws cfg id)).at w

  -- The change of a found user, and what follows it.
  admins-change_user :
      {A : Type 0} (m : Bytes) (u : User) (f : User → User) (rest : Exec World Error A) (w : World)
      → Elem u (users.rows w)
      → is_admin u ≡ false
      → ((r : User) → is_admin (f r) ≡ false)
      → Fixes users.rows rest
      → admin_rows b ((wrap m (users.update (user_id_is u.id) f) >> rest) w).1 ≡ admin_rows b w
  admins-change_user m u f rest w el plain keeps k =
      bind_at (admin_rows b) (wrap m (users.update (user_id_is u.id) f)) (λ _. rest) w
        (rw wrap-state (admins-update b laws cfg u f w el plain keeps))
        λ _ _. (admins-fixed b laws cfg rest k).at _

  users-reload : (m : Bytes) (p : User → Bool) → Fixes users.rows (wrap m (users.first p))
  unfolding wrap
  users-reload m p = search users_rules

  -- An action that leaves the users alone, and what follows it.
  admins-then :
      {A B : Type 0} (m : Exec World Error A) (k : A → Exec World Error B) (w : World)
      → Fixes users.rows m
      → NoSleeper b w
      → ((a : A) (w' : World) → NoSleeper b w' → admin_rows b (k a w').1 ≡ admin_rows b w')
      → admin_rows b ((m >>= k) w).1 ≡ admin_rows b w
  admins-then m k w fixed awake rest =
      let kept = (admins-fixed b laws cfg m fixed).at w in
      bind_at (admin_rows b) m k w kept
        λ a _. rest a (m w).1 (subst (All (λ r. r.role ≡ admin_role)) (sym kept) awake)

  users-drop_tokens :
      (id : Bytes) → Fixes users.rows (ignore {E = Error} (b.tokens.delete (owned_by id)))
  users-drop_tokens id = search users_rules

  deleted-unprotected : is_protected (text "DELETED") ≡ false
  unfolding has_prefix text
  deleted-unprotected = refl

  -- UpdateUserStatus changes no row of an administrator.
  pub admins-update_user_status :
      (id : Bytes) (active : Bool) (updated_by : Bytes) (w : World)
      → NoSleeper b w
      → admin_rows b (update_user_status b cfg id active updated_by w).1 ≡ admin_rows b w
  unfolding update_user_status
  admins-update_user_status id active updated_by w awake =
      admins-load id _ w awake λ u w' el awake'. admins-guard u _ _ w' el awake' λ plain.
        admins-change_user _ u _ _ w' el plain (λ r. status_role-unprotected active u.role plain)
          (users-reload _ _)

  -- DeleteUser changes no row of an administrator.
  pub admins-delete_user :
      (id deleted_by : Bytes) (w : World)
      → NoSleeper b w
      → admin_rows b (delete_user b cfg id deleted_by w).1 ≡ admin_rows b w
  unfolding delete_user
  admins-delete_user id deleted_by w awake = admins-load id _ w awake λ u w' el awake'.
      admins-guard u _ _ w' el awake' λ plain.
        bind_at (admin_rows b) _ _ w' (ap admins ((users-now b laws).at w')) λ t _.
          admins-change_user _ u (mark_deleted u t deleted_by) _ (total {E = Error} b.now w').1
            (rw ((users-now b laws).at w') el) plain (λ r. deleted-unprotected)
            (users-drop_tokens id)

  -- UpdateUserRole changes no row of an administrator, and makes nobody one, unless the role that
  -- it is given begins with ADMIN.
  pub admins-update_user_role :
      (id role updated_by : Bytes) (w : World)
      → is_protected role ≡ false
      → NoSleeper b w
      → admin_rows b (update_user_role b cfg id role updated_by w).1 ≡ admin_rows b w
  unfolding update_user_role
  admins-update_user_role id role updated_by w h awake =
      admins-then _ _ w (Fixes-check _ _) awake λ _ w1 awake1.
        admins-then _ _ w1 (users-check_role b laws cfg role) awake1 λ _ w2 awake2.
          admins-load id _ w2 awake2 λ u w3 el awake3. admins-guard u _ _ w3 el awake3 λ plain.
            bind_at (admin_rows b) _ _ w3 (ap (admin_rows b) (check-state _ _ w3)) λ _ _.
              rw check-state (admins-change_user _ u _ _ w3 el plain (λ r. h) (users-reload _ _))
