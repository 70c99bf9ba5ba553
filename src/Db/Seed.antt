-- ===== src/Db/Seed.antt =====
-- internal/db/seed.go: the seeding of the default roles. The insert with OnConflict DoNothing is a
-- parameter.
pub mod Seeded
use anti_river_ten_demo.Prelude.{Bool, List, [], ◌∷◌, map}
use anti_river_ten_demo.Strings.{Bytes, text}
use anti_river_ten_demo.Exec.{Exec, pure, catch, ◌>>=◌, ◌>>◌}
use anti_river_ten_demo.Db.{DbError, Role}

-- The table of the roles, and an insert that leaves a row with the same code as it is.
pub record RoleStore : Type 1 where
  pub World : Type 0
  pub rows : World → List Role
  pub create_or_skip : Role → Exec World DbError (Unit {0})

abbrev default_role : Bytes → Bytes → Bytes → Role
default_role code name description = record {
  code = code;
  name = name;
  description = description;
  created_by = [];
  updated_by = [];
  created_time = 0;
  updated_time = 0;
}

unfoldable pub default_roles : List Role
default_roles =
    default_role (text "USER") (text "User") (text "Standard user role")
    ∷ default_role (text "ADMIN") (text "Administrator") (text "Administrator role")
    ∷ default_role (text "ANALYZER") (text "Analyzer") (text "Data analyzer role")
    ∷ default_role (text "MONITOR") (text "Monitor") (text "System monitor role")
    ∷ default_role (text "TEAM_LEADER") (text "Team Leader") (text "Team leader role")
    ∷ []

-- fmt.Errorf("seed role %s: %w", role.Code, err)
pub data SeedError : Type 0 where
  seed_role : Bytes → DbError → SeedError

module _ (b : RoleStore) where
  open b use {World, create_or_skip}

  -- The loop over the roles.
  unfoldable pub seed_roles : List Role → Exec World SeedError (Unit {0})
  seed_roles [] = pure tt
  seed_roles (r ∷ roles) = do catch (seed_role r.code) (create_or_skip r); seed_roles roles

  unfoldable pub seed_default_roles : Exec World SeedError (Unit {0})
  seed_default_roles = seed_roles default_roles
