-- ===== src/Handlers/Guards.antt =====
-- internal/http/handlers/middleware.go and internal/authctx/context.go: the guards in front of the
-- handlers. A handler is a function of the request and the world; the guard puts the user into the
-- context of the request.
pub mod Bearer
use anti_river_ten_demo.Prelude.{ℕ, Option, none, some, List, [], ◌∷◌, any, ◌==◌, if◌then◌else◌}
use anti_river_ten_demo.Strings.{Bytes, text, str_eq, is_empty, equal_fold, trim_space}
use anti_river_ten_demo.Exec.{Result, ok, err}
use anti_river_ten_demo.Config.{Config}
use anti_river_ten_demo.Db.{User}
use anti_river_ten_demo.Auth.{Backend, Error}
use anti_river_ten_demo.Auth.Tokens.{parse_token}
use anti_river_ten_demo.Auth.Accounts.{get_user_by_id}
use anti_river_ten_demo.Auth.Admin.{admin_role}
use anti_river_ten_demo.Handlers.{Reply, error_envelope, Request, authentication_required}

abbrev pub onto : ℕ → Bytes × Bytes → Bytes × Bytes
onto c (before, after) = (c ∷ before, after)

-- strings.SplitN(h, " ", 2): the text before the first space and the text behind it, or none.
unfoldable pub split_space : Bytes → Option (Bytes × Bytes)
split_space [] = none
split_space (c ∷ s) =
    if c == b' '
    then some ([], s)
    else elim (split_space s) [ none ↦ none | some p ↦ some (onto c p) ]

unfoldable pub bearer_token : Bytes → Bytes
unfolding split_space
bearer_token h = elim (split_space h) [
  | none ↦ []
  | some (scheme, rest) ↦ if equal_fold scheme (text "Bearer") then trim_space rest else []
]

-- authctx.WithUser: the request with the user in its context.
abbrev pub with_user : Request → User → Request
with_user r u = record r { user = some u }

module _ {A : Type 0} where
  abbrev unauthorized : Bytes → Reply A
  unauthorized m = error_envelope 401 (text "unauthorized") m

  abbrev forbidden : Bytes → Reply A
  forbidden m = error_envelope 403 (text "forbidden") m

module _ {W A : Type 0} where
  unfoldable pub require_admin_role : (Request → W → Reply A × W) → Request → W → Reply A × W
  require_admin_role next r w = elim r.user [
    | none ↦ (authentication_required, w)
    | some u ↦
        if str_eq u.role admin_role then next r w else (forbidden (text "admin role required"), w)
  ]

  unfoldable pub require_any_role :
      List Bytes → (Request → W → Reply A × W) → Request → W → Reply A × W
  require_any_role roles next r w = elim r.user [
    | none ↦ (authentication_required, w)
    | some u ↦
        if any (λ want. equal_fold (trim_space u.role) (trim_space want)) roles
        then next r w
        else (forbidden (text "insufficient role"), w)
  ]

-- RequireAuth, from the reply of each of its early returns to the handler behind it.
module _ (b : Backend) (cfg : Config) {A : Type 0} where
  open b use {World}

  unfoldable pub with_loaded :
      (Request → World → Reply A × World) → Request → Result Error User × World → Reply A × World
  with_loaded next r (ok u, w) = next (with_user r u) w
  with_loaded next r (err e, w) = (unauthorized (text "user not found"), w)

  unfoldable pub with_subject :
      (Request → World → Reply A × World) → Request → Result Error Bytes → World → Reply A × World
  unfolding with_loaded
  with_subject next r (err e) w = (unauthorized (text "invalid token"), w)
  with_subject next r (ok sub) w =
      if is_empty sub
      then (unauthorized (text "invalid token"), w)
      else with_loaded next r (get_user_by_id b cfg sub w)

  unfoldable pub require_auth :
      (Request → World → Reply A × World) → Request → World → Reply A × World
  unfolding with_subject
  require_auth next r w =
      let token = bearer_token r.authorization in
      if is_empty token
      then (unauthorized (text "missing bearer token"), w)
      else with_subject next r (parse_token b cfg token w) w
