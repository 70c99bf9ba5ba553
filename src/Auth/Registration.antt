-- ===== src/Auth/Registration.antt =====
-- internal/auth/service.go: what Register and CreateUser leave in the table of users.
pub mod Outcomes
use anti_river_ten_demo.Prelude.{
  ℕ, ◌≤◌, ◌≡◌, ◌≢◌, refl, sym, ap, ◌∙◌, subst, Bool, true, false, not, ◌||◌, List, [], ◌∷◌, ◌++◌,
  count, arith, inl, inr, Bool-cases, if◌then◌else◌, ◌==◌,
}
use anti_river_ten_demo.Strings.{Bytes, text, is_empty}
use anti_river_ten_demo.Exec.{
  Exec, Result, ok, err, fail_with, catch, pure, raise, total, check, continue, ◌>>=◌, ◌>>◌,
}
use anti_river_ten_demo.Exec.Keeps.{bind-ok, check-ok}
use anti_river_ten_demo.Config.{Config}
use anti_river_ten_demo.Db.{DbError, User, user_before_create}
use anti_river_ten_demo.Db.Laws.{Counted, Created}
use anti_river_ten_demo.Auth.{Backend, Error, user_exists, wrapped, wrap}
use anti_river_ten_demo.Auth.Accounts.{
  register, create_user, missing_fields, add_user, insert_user, new_user, check_role, named,
  code_is,
}
use anti_river_ten_demo.Auth.Laws.{BackendLaws, StoredUser, wrap-ok}

module _ {W E A B : Type 0} (P : Result E B → W → Type 0) where
  continue_either :
      (r : Result E A) (k : A → Exec W E B) (w : W)
      → ((a : A) → r ≡ ok a → P (k a w).0 (k a w).1)
      → ((e : E) → P (err e) w)
      → P (continue r k w).0 (continue r k w).1
  continue_either (ok a) k w good bad = good a refl
  continue_either (err e) k w good bad = bad e

  -- A block ends at an error of its first action, or with its rest.
  pub either :
      (m : Exec W E A) (k : A → Exec W E B) (w : W)
      → ((a : A) → (m w).0 ≡ ok a → P (k a (m w).1).0 (k a (m w).1).1)
      → ((e : E) → P (err e) (m w).1)
      → P ((m >>= k) w).0 ((m >>= k) w).1
  unfolding ◌>>=◌
  either m k w good bad = continue_either (m w).0 k (m w).1 good bad

module _ {W E B : Type 0} (P : Result E B → W → Type 0) where
  -- A check stops the block with its error, or the rest runs with the condition.
  pub checked :
      (c : Bool) (e : E) (m : Exec W E B) (w : W)
      → (c ≡ true → P (m w).0 (m w).1)
      → P (err e) w
      → P ((check c e >> m) w).0 ((check c e >> m) w).1
  unfolding check ◌>>=◌ pure raise
  checked true e m w good bad = good refl
  checked false e m w good bad = bad

-- The fields of a stored user that were given; the hook sets the id, the database the time stamps.
abbrev SameFields : User → User → Type 0
SameFields n u =
    (u.username ≡ n.username)
    × (u.email ≡ n.email)
    × (u.password_hash ≡ n.password_hash)
    × (u.created_by ≡ n.created_by)
    × (u.updated_by ≡ n.updated_by)
    × (u.role ≡ n.role)

with_id-Created :
    (n : User) (id : Bytes) (old mid new : List User) (r : Result DbError User)
    → mid ≡ old
    → Created StoredUser (record n { id = id }) mid new r
    → Created SameFields n old new r
with_id-Created n id old mid new (ok u) same (s, rows) = (
  (s.username, s.email, s.password_hash, s.created_by, s.updated_by, s.role),
  rows ∙ ap (λ l. l ++ u ∷ []) same,
)
with_id-Created n id old mid new (err e) same rows = rows ∙ same

module _ (b : Backend) where
  open b use {World, users, roles, compare_hash_and_password}

  -- What an attempt to add a user has made of the table.
  abbrev pub Added :
      Bytes → Bytes → Bytes → Bytes → Bytes → World → Result Error User → World → Type 0
  Added username email password role by w (ok u) w' =
      (count (named username email) (users.rows w) ≡ 0)
      × (users.rows w' ≡ users.rows w ++ u ∷ [])
      × (u.username ≡ username)
      × (u.email ≡ email)
      × (u.role ≡ role)
      × (u.created_by ≡ by)
      × (u.updated_by ≡ by)
      × (compare_hash_and_password u.password_hash password ≡ true)
  Added username email password role by w (err e) w' = users.rows w' ≡ users.rows w

-- bcrypt accepts a password for a hash that it has made of it.
abbrev pub Accepts : Backend → Type 0
Accepts b =
    (s hash : Bytes) (w : b.World)
    → (b.generate_from_password s w).0 ≡ ok hash
    → b.compare_hash_and_password hash s ≡ true

module _ (b : Backend) (laws : BackendLaws b) (cfg : Config) (accepts : Accepts b) where
  open b use {World, users, roles, new_uuid, generate_from_password, compare_hash_and_password}
  open laws use {users_laws, roles_laws}

  insert_user-Created :
      (username email hash role by : Bytes) (w : World)
      → Created SameFields
          (new_user username email hash role by)
          (users.rows w)
          (users.rows (insert_user b cfg (new_user username email hash role by) w).1)
          (insert_user b cfg (new_user username email hash role by) w).0
  unfolding insert_user new_user user_before_create total pure ◌>>=◌
  insert_user-Created username email hash role by w =
      with_id-Created (new_user username email hash role by) (new_uuid w).0 _ _ _ _
        ((laws.uuid_kept w).0)
        (users_laws.create_effect
          (record (new_user username email hash role by) { id = (new_uuid w).0 }) (new_uuid w).1)

  -- The result of the insert, under the wrapper, for a name that was free.
  inserted-Added :
      (m username email password role by hash : Bytes) (w w' : World) (r : Result DbError User)
      → count (named username email) (users.rows w) ≡ 0
      → compare_hash_and_password hash password ≡ true
      → Created SameFields (new_user username email hash role by) (users.rows w) (users.rows w') r
      → Added b username email password role by w (fail_with (wrapped m) r) w'
  unfolding new_user
  inserted-Added m username email password role by hash w w' (ok u) free valid (same, rows) =
      let (name, mail, hashed, creator, updater, code) = same in
      (free, rows, name, mail, code, creator, updater, rw hashed valid)
  inserted-Added m username email password role by hash w w' (err e) free valid rows = rows

  counted_free :
      (m username email : Bytes) (n : ℕ) (w : World)
      → (wrap m (users.count_rows (named username email)) w).0 ≡ ok n
      → (n == 0) ≡ true
      → count (named username email) (users.rows w) ≡ 0
  counted_free m username email n w h zero =
      let n-rows =
        subst (Counted (named username email) (users.rows w)) (wrap-ok m _ w h)
          (users_laws.count_answer (named username email) w) in
      ground (arith, n-rows, zero)

  insert-Added :
      (m username email password role by hash : Bytes) (w w2 : World)
      → users.rows w2 ≡ users.rows w
      → count (named username email) (users.rows w) ≡ 0
      → compare_hash_and_password hash password ≡ true
      → Added b username email password role by w
          (wrap m (insert_user b cfg (new_user username email hash role by)) w2).0
          (wrap m (insert_user b cfg (new_user username email hash role by)) w2).1
  unfolding wrap catch
  insert-Added m username email password role by hash w w2 kept free valid =
      let n = new_user username email hash role by in
      let (r, w3) = insert_user b cfg n w2 in
      inserted-Added m username email password role by hash w w3 r free valid (
        subst (λ l. Created SameFields n l (users.rows w3) r) kept
          (insert_user-Created username email hash role by w2))

  pub add_user-Added :
      (username email password role by : Bytes) (w : World)
      → Added b username email password role by w
          (add_user b cfg username email password role by w).0
          (add_user b cfg username email password role by w).1
  unfolding add_user wrap
  add_user-Added username email password role by w =
      let P = Added b username email password role by w in
      let taken = wrap (text "check existing") (users.count_rows (named username email)) in
      let hashing = wrap (text "hash password") (generate_from_password password) in
      let w1 = (taken w).1 in
      let w2 = (hashing w1).1 in
      let kept1 : users.rows w1 ≡ users.rows w = users_laws.count_kept (named username email) w in
      let kept2 : users.rows w2 ≡ users.rows w = (laws.hash_kept password w1).0 ∙ kept1 in
      either P taken _ w
        (λ n counted.
          checked P (n == 0) user_exists _ w1
            (λ zero.
              either P hashing _ w1
                (λ hash made.
                  insert-Added (text "create user") username email password role by hash w w2 kept2
                    (counted_free (text "check existing") username email n w counted zero)
                    (accepts password hash w1
                      (wrap-ok (text "hash password") (generate_from_password password) w1 made)))
                (λ e. kept2))
            kept1)
        (λ e. kept1)
