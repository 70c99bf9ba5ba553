-- ===== src/Handlers/Roles/Chain.antt =====
-- internal/http/handlers/middleware.go: the handlers behind RequireRoles run in order.
use anti_river_ten_demo.Prelude.{◌≡◌, ◌⊎◌, List, [], ◌∷◌, map}
use anti_river_ten_demo.Strings.{text, lower_byte}
use anti_river_ten_demo.Db.{User}
use anti_river_ten_demo.Handlers.Roles.{Step, both}

-- A user whose role is ADMIN or TEAM_LEADER but for case.
abbrev pub IsLeader : User → Type 0
IsLeader u = (map lower_byte u.role ≡ text "admin") ⊎ (map lower_byte u.role ≡ text "team_leader")

module _ {W A : Type 0} where
  abbrev pub done : Step W A
  done r w = ([], w)

  -- Each handler once, in order, and then another.
  unfoldable pub run_onto : List (Step W A) → Step W A → Step W A
  run_onto [] h = h
  run_onto (x ∷ xs) h = both x (run_onto xs h)
