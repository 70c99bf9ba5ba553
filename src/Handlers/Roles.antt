-- ===== src/Handlers/Roles.antt =====
-- internal/http/handlers/middleware.go: RequireRoles, which takes the handlers behind it. A handler
-- here may write any number of replies on the writer that it shares with the others.
pub mod Chain
use anti_river_ten_demo.Prelude.{Bool, Option, none, some, List, [], ◌∷◌, ◌++◌, any, if◌then◌else◌}
use mathlib.Core.List.{reverse}
use anti_river_ten_demo.Strings.{Bytes, text, equal_fold}
use anti_river_ten_demo.Db.{User}
use anti_river_ten_demo.Handlers.{Reply, error_envelope, Request, authentication_required}

abbrev pub Step : Type 0 → Type 0 → Type 0
Step W A = Request → W → List (Reply A) × W

abbrev pub some_roles : List Bytes
some_roles = text "ADMIN" ∷ text "TEAM_LEADER" ∷ []

-- strings.EqualFold(role, want) for a role of the list.
abbrev pub role_allowed : User → Bool
role_allowed u = any (λ want. equal_fold u.role want) some_roles

module _ {W A : Type 0} where
  abbrev pub reply_of : Reply A → Step W A
  reply_of reply r w = (reply ∷ [], w)

  -- cur.ServeHTTP(w, r); prev.ServeHTTP(w, r)
  abbrev pub both : Step W A → Step W A → Step W A
  both cur prev r w =
      let (replies, w') = cur r w in let (more, w'') = prev r w' in (replies ++ more, w'')

  -- The loop from the last handler but one to the first.
  unfoldable pub chain_back : List (Step W A) → Step W A → Step W A
  chain_back [] h = h
  chain_back (cur ∷ before) h = chain_back before (both cur h)

  abbrev pub chain_last : List (Step W A) → Step W A
  chain_last [] = λ r w. ([], w)
  chain_last (h ∷ before) = chain_back before h

  -- No handler, one, or all of them chained.
  unfoldable pub wrapped_handler : List (Step W A) → Step W A
  unfolding chain_back
  wrapped_handler wrapped = chain_last (reverse wrapped)

  unfoldable pub require_roles : List (Step W A) → Step W A
  unfolding wrapped_handler
  require_roles roles r w = elim r.user [
    | none ↦ reply_of authentication_required r w
    | some u ↦
        if role_allowed u
        then wrapped_handler roles r w
        else reply_of (error_envelope 403 (text "forbidden") (text "insufficient role")) r w
  ]
