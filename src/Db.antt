-- ===== src/Db.antt =====
-- internal/db: the rows of the tables, the hooks and the seeding of the roles. The database itself
-- (gorm over PostgreSQL) is not code of the repository: a table is an interface, and Db.Laws states
-- what a table promises.
pub mod Laws
pub mod Memory
pub mod Seed
use anti_river_ten_demo.Prelude.{ℕ, Bool, Option, List, if◌then◌else◌}
use anti_river_ten_demo.Prelude.Int.{ℤ}
use anti_river_ten_demo.Strings.{Bytes, text, is_empty}
use anti_river_ten_demo.Exec.{Exec, pure, total, ◌>>=◌}

pub record Role : Type 0 where
  pub code : Bytes
  pub name : Bytes
  pub description : Bytes
  pub created_by : Bytes
  pub updated_by : Bytes
  pub created_time : ℕ
  pub updated_time : ℕ

-- Times are nanoseconds since the zero time of Go.
pub record User : Type 0 where
  pub id : Bytes
  pub username : Bytes
  pub email : Bytes
  pub password_hash : Bytes
  pub created_by : Bytes
  pub updated_by : Bytes
  pub role : Bytes
  pub created_time : ℕ
  pub updated_time : ℕ

pub record RefreshToken : Type 0 where
  pub id : Bytes
  pub user_id : Bytes
  pub token_hash : Bytes
  pub expires_at : ℕ
  pub created_time : ℕ

-- gorm.ErrRecordNotFound, or any other error with its text.
pub data DbError : Type 0 where
  record_not_found : DbError
  failed : Bytes → DbError

pub record Query (R : Type 0) : Type 0 where
  pub condition : R → Bool
  pub before : R → R → Bool
  pub limit : Option ℤ
  pub offset : Option ℤ

-- The calls of gorm that the program makes on one table: `before` of a query is its ORDER BY.
pub record Table (W R : Type 0) : Type 0 where
  pub rows : W → List R
  pub count_rows : (R → Bool) → Exec W DbError ℕ
  pub first : (R → Bool) → Exec W DbError R
  pub find_rows : Query R → Exec W DbError (List R)
  pub create : R → Exec W DbError R
  pub update : (R → Bool) → (R → R) → Exec W DbError (Unit {0})
  pub delete : (R → Bool) → Exec W DbError (Unit {0})

-- The hooks BeforeCreate: a row with no id gets a fresh UUID.
module _ {W E : Type 0} (new_uuid : W → Bytes × W) where
  unfoldable pub user_before_create : User → Exec W E User
  user_before_create u =
      if is_empty u.id then (do id ← total new_uuid; pure (record u { id = id })) else pure u

  unfoldable pub token_before_create : RefreshToken → Exec W E RefreshToken
  token_before_create rt =
      if is_empty rt.id then (do id ← total new_uuid; pure (record rt { id = id })) else pure rt
