-- ===== src/Auth/Registration/Outcomes.antt =====
-- internal/auth/service.go: the outcomes of Register and CreateUser.
use anti_river_ten_demo.Prelude.{
  ◌≤◌, ◌≡◌, refl, ap, ◌∙◌, subst, true, false, not, ◌||◌, [], ◌∷◌, ◌++◌, count, arith, ◌==◌,
}
use anti_river_ten_demo.Strings.{Bytes, text, is_empty, str_eq}
use anti_river_ten_demo.Exec.{Result, ok, err}
use anti_river_ten_demo.Exec.Keeps.{bind-ok, check-ok}
use anti_river_ten_demo.Config.{Config}
use anti_river_ten_demo.Db.{User}
use anti_river_ten_demo.Db.Laws.{Counted}
use anti_river_ten_demo.Auth.{Backend, Error}
use anti_river_ten_demo.Auth.Accounts.{
  register, create_user, missing_fields, add_user, check_role, named, code_is,
}
use anti_river_ten_demo.Auth.Laws.{BackendLaws, wrap-ok}
use anti_river_ten_demo.Auth.AdminSafety.{users-check_role}
use anti_river_ten_demo.Auth.Registration.{Added, Accepts, either, checked, add_user-Added}

module _ (b : Backend) where
  open b use {World, users, roles}

  -- The same for Register.
  abbrev pub Registered : Bytes → Bytes → Bytes → Bytes → World → Result Error User → World → Type 0
  Registered username email password by w (ok u) w' =
      (is_empty username || is_empty email || is_empty password ≡ false)
      × Added b username email password (text "USER") by w (ok u) w'
  Registered username email password by w (err e) w' = users.rows w' ≡ users.rows w

  given-Registered :
      (username email password by : Bytes) (w : World) (r : Result Error User) (w' : World)
      → not (is_empty username || is_empty email || is_empty password) ≡ true
      → Added b username email password (text "USER") by w r w'
      → Registered username email password by w r w'
  given-Registered username email password by w (ok u) w' given added =
      (ground (arith, given), added)
  given-Registered username email password by w (err e) w' given added = added

  -- The same for CreateUser.
  abbrev pub Enrolled :
      Bytes → Bytes → Bytes → Bytes → Bytes → World → Result Error User → World → Type 0
  Enrolled username email password role by w (ok u) w' =
      (is_empty username || is_empty email || is_empty password || is_empty role ≡ false)
      × (1 ≤ count (λ r. str_eq r.code role) (roles.rows w))
      × Added b username email password role by w (ok u) w'
  Enrolled username email password role by w (err e) w' = users.rows w' ≡ users.rows w

  moved-Added :
      (username email password role by : Bytes) (w : World) (u : User) (w1 w' : World)
      → users.rows w1 ≡ users.rows w
      → Added b username email password role by w1 (ok u) w'
      → Added b username email password role by w (ok u) w'
  moved-Added username email password role by w u w1 w' same added =
      let (free, rows, name, mail, code, creator, updater, valid) = added in
      (
        subst (λ l. count (named username email) l ≡ 0) same free,
        rows ∙ ap (λ l. l ++ u ∷ []) same,
        name,
        mail,
        code,
        creator,
        updater,
        valid,
      )

  listed-Enrolled :
      (username email password role by : Bytes) (w : World) (r : Result Error User) (w1 w' : World)
      → users.rows w1 ≡ users.rows w
      → not (is_empty username || is_empty email || is_empty password || is_empty role) ≡ true
      → 1 ≤ count (λ r. str_eq r.code role) (roles.rows w)
      → Added b username email password role by w1 r w'
      → Enrolled username email password role by w r w'
  listed-Enrolled username email password role by w (ok u) w1 w' same given listed added =
      let moved = moved-Added username email password role by w u w1 w' same added in
      (ground (arith, given), listed, moved)
  listed-Enrolled username email password role by w (err e) w1 w' same given listed added =
      added ∙ same

module _ (b : Backend) (laws : BackendLaws b) (cfg : Config) (accepts : Accepts b) where
  open b use {World, users, roles, new_uuid, generate_from_password, compare_hash_and_password}
  open laws use {users_laws, roles_laws}

  -- If the tables keep their laws and bcrypt accepts a password for its own hash of it, then a
  -- registration that returns a user had all three fields, found no stored user with the name or the
  -- email, and added one row, the user that it returns: with the name and the email, the role USER,
  -- the given author, and a hash that bcrypt accepts the password for. A registration that returns
  -- an error has left the table of users as it was.
  pub register-Registered :
      (username email password by : Bytes) (w : World)
      → Registered b username email password by w
          (register b cfg username email password by w).0
          (register b cfg username email password by w).1
  unfolding register
  register-Registered username email password by w =
      checked (Registered b username email password by w)
        (not (is_empty username || is_empty email || is_empty password)) missing_fields
        (add_user b cfg username email password (text "USER") by) w
        (λ given.
          given-Registered b username email password by w _ _ given
            (add_user-Added b laws cfg accepts username email password (text "USER") by w))
        refl

  check_role-listed :
      (role : Bytes) (w : World)
      → (check_role b cfg role w).0 ≡ ok tt
      → 1 ≤ count (λ r. str_eq r.code role) (roles.rows w)
  unfolding check_role code_is
  check_role-listed role w h =
      let (n, counted, h1) = bind-ok _ _ w (λ i. (h i, (check_role b cfg role w).1)) in
      let n-rows =
        subst (Counted (code_is role) (roles.rows w)) (wrap-ok (text "check role") _ w counted)
          (roles_laws.count_answer (code_is role) w) in
      let some_row = check-ok (not (n == 0)) _ _ (ap (λ z. z.0) h1) in
      ground (arith, n-rows, some_row)

  -- If the tables keep their laws and bcrypt accepts a password for its own hash of it, then a
  -- CreateUser that returns a user had all four fields and a role that the table of roles lists,
  -- found no stored user with the name or the email, and added one row, the user that it returns:
  -- with the name, the email, the role, the given author, and a hash that bcrypt accepts the
  -- password for. A CreateUser that returns an error has left the table of users as it was.
  pub create_user-Enrolled :
      (username email password role by : Bytes) (w : World)
      → Enrolled b username email password role by w
          (create_user b cfg username email password role by w).0
          (create_user b cfg username email password role by w).1
  unfolding create_user
  create_user-Enrolled username email password role by w =
      let P = Enrolled b username email password role by w in
      let w1 = (check_role b cfg role w).1 in
      let kept : users.rows w1 ≡ users.rows w = (users-check_role b laws cfg role).at w in
      checked P (not (is_empty username || is_empty email || is_empty password || is_empty role))
        missing_fields _ w
        (λ given.
          either P (check_role b cfg role) (λ _. add_user b cfg username email password role by) w
            (λ _ listed.
              listed-Enrolled b username email password role by w _ w1 _ kept given
                (check_role-listed role w listed)
                (add_user-Added b laws cfg accepts username email password role by w1))
            (λ e. kept))
        refl
