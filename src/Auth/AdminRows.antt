-- ===== src/Auth/AdminRows.antt =====
-- The rows of the administrators, and what an insert or an update of another row does to them.
use anti_river_ten_demo.Prelude.{
  ℕ, ◌≡◌, refl, Bool, true, false, inl, inr, Bool-cases, List, [], ◌∷◌, ◌++◌, map, filter, All,
  arith,
}
use anti_river_ten_demo.Strings.{Bytes, has_prefix}
use anti_river_ten_demo.Exec.{Result, ok, err}
use anti_river_ten_demo.Db.{User, DbError}
use anti_river_ten_demo.Db.Laws.{Elem, Created, Updated, change}
use anti_river_ten_demo.Auth.{Backend}
use anti_river_ten_demo.Auth.Laws.{StoredUser, touch_user}
use anti_river_ten_demo.Auth.Accounts.{user_id_is}
use anti_river_ten_demo.Auth.Admin.{admin_role}

-- A role that is ADMIN, or ADMIN with anything behind it, such as ADMIN_INACTIVE.
abbrev pub is_protected : Bytes → Bool
is_protected role = has_prefix role admin_role

abbrev pub is_admin : User → Bool
is_admin u = is_protected u.role

-- The rows of the administrators.
unfoldable pub admins : List User → List User
admins = filter is_admin

admins-concat :
    (rows : List User) (u : User) → is_admin u ≡ false → admins (rows ++ u ∷ []) ≡ admins rows
unfolding admins
admins-concat [] u h = rw h
admins-concat (r ∷ rows) u h = ground (arith, admins-concat rows u h)

pub admins-Created :
    (r : User) (old new : List User) (res : Result DbError User)
    → Created StoredUser r old new res
    → is_admin r ≡ false
    → admins new ≡ admins old
admins-Created r old new (ok r') c h =
    let same : is_admin r' ≡ false = rw c.0.role h in rw c.1 (admins-concat old r' same)
admins-Created r old new (err e) c h = rw c

module _ (p : User → Bool) (f : User → User) (f_plain : (r : User) → is_admin (f r) ≡ false) where
  admins-change :
      (t : ℕ) (rows : List User)
      → All (λ r. p r ≡ true → is_admin r ≡ false) rows
      → admins (map (change touch_user p f t) rows) ≡ admins rows
  unfolding admins
  admins-change t [] h = refl
  admins-change t (r ∷ rows) (hr, h) = elim (Bool-cases (p r)) [
    | inl e ↦ rw (e, f_plain r, hr e) (admins-change t rows h)
    | inr e ↦ rw (e, admins-change t rows h)
  ]

  pub admins-Updated :
      (old new : List User) (res : Result DbError (Unit {0}))
      → Updated touch_user p f old new res
      → All (λ r. p r ≡ true → is_admin r ≡ false) old
      → admins new ≡ admins old
  admins-Updated old new (ok _) (t, e) h = rw e (admins-change t old h)
  admins-Updated old new (err _) e h = rw e

-- The row with a key is the row that was loaded.
pub plain_key :
    (rows : List User) (u : User)
    → All (λ r. user_id_is u.id r ≡ true → r ≡ u) rows
    → is_admin u ≡ false
    → All (λ r. user_id_is u.id r ≡ true → is_admin r ≡ false) rows
plain_key [] u h k = tt
plain_key (r ∷ rows) u (hr, h) k = ((λ e. rw (hr e) k), plain_key rows u h k)

-- An administrator among the rows has what all administrators have.
pub admin_of_All :
    (P : User → Type 0) (rows : List User) (u : User)
    → Elem u rows
    → is_admin u ≡ true
    → All P (admins rows)
    → P u
unfolding admins
admin_of_All P [] u el h a = absurd el
admin_of_All P (r ∷ rows) u (inl e) h a =
    let h' : is_admin r ≡ true = rw (← e) h in rw e ((rw h' at a).0)
admin_of_All P (r ∷ rows) u (inr el) h a = elim (Bool-cases (is_admin r)) [
  | inl yes' ↦ admin_of_All P rows u el h ((rw yes' at a).1)
  | inr no' ↦ admin_of_All P rows u el h (rw no' at a)
]

-- The rows of the administrators, read from the world.
abbrev pub admin_rows : (b : Backend) → b.World → List User
admin_rows b w = admins (b.users.rows w)

-- Every row with a protected role has the role ADMIN itself.
abbrev pub NoSleeper : (b : Backend) → b.World → Type 0
NoSleeper b w = All (λ u. u.role ≡ admin_role) (admin_rows b w)
