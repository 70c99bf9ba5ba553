-- ===== src/Router/Access.antt =====
-- Who gets through the guards in front of the administrators' handlers.
use anti_river_ten_demo.Prelude.{
  ◌≡◌, refl, sym, ap, ◌∙◌, subst, any, true, false, ◌||◌, Bool, map, ◌⊎◌, inl, inr, Bool-cases,
}
use anti_river_ten_demo.Strings.{
  Bytes, text, str_eq, is_empty, equal_fold, trim_space, lower_byte, drop_spaces, space_width,
  space_width_back, is_ascii_space,
}
use anti_river_ten_demo.Strings.Laws.{str_eq_iff}
use anti_river_ten_demo.Exec.{Result, ok, err}
use anti_river_ten_demo.Config.{Config}
use anti_river_ten_demo.Db.{User}
use anti_river_ten_demo.Db.Laws.{Elem, Found}
use anti_river_ten_demo.Auth.{Backend, Error, invalid_credentials, wrap_first}
use anti_river_ten_demo.Auth.Laws.{BackendLaws, SameTables, wrap_first-ok}
use anti_river_ten_demo.Auth.Tokens.{parse_token}
use anti_river_ten_demo.Auth.Accounts.{get_user_by_id, user_id_is}
use anti_river_ten_demo.Auth.Admin.{admin_role}
use anti_river_ten_demo.Handlers.{Reply, status, Request}
use anti_river_ten_demo.Handlers.Guards.{
  require_auth, require_admin_role, require_any_role, with_subject, with_loaded, with_user,
  bearer_token,
}
use anti_river_ten_demo.Handlers.Guards.Bearer.{Bears, bearer_token-Bears}
use anti_river_ten_demo.Router.{admin_middleware, export_roles, role_middleware}

either_of : (p q : Bool) → p || (q || false) ≡ true → (p ≡ true) ⊎ (q ≡ true)
either_of true q h = inl refl
either_of false true h = inr refl
either_of false false h = inl h

-- A text that folds to one of the two roles has the letters of one of them.
export_roles-either :
    (s : Bytes)
    → any (λ want. equal_fold s (trim_space want)) export_roles ≡ true
    → (map lower_byte s ≡ text "admin") ⊎ (map lower_byte s ≡ text "team_leader")
unfolding equal_fold trim_space drop_spaces space_width space_width_back is_ascii_space text
    lower_byte
export_roles-either s h =
    let low = map lower_byte s in
    elim (either_of (str_eq low (text "admin")) (str_eq low (text "team_leader")) h) [
      | inl e ↦ inl ((str_eq_iff low (text "admin")).0 e)
      | inr e ↦ inr ((str_eq_iff low (text "team_leader")).0 e)
    ]

module _ (b : Backend) (laws : BackendLaws b) (cfg : Config) where
  open b use {World, users}
  open laws use {users_laws}

  -- The user that is found is a row with that key.
  get_user_by_id-Found :
      (id : Bytes) (w : World) (u : User)
      → (get_user_by_id b cfg id w).0 ≡ ok u
      → Elem u (users.rows w) × (u.id ≡ id)
  unfolding get_user_by_id user_id_is
  get_user_by_id-Found id w u h =
      let found =
        wrap_first-ok invalid_credentials (text "get user") (users.first (user_id_is id)) w h in
      let fact : Found (user_id_is id) (users.rows w) (ok u) =
        subst (Found (user_id_is id) (users.rows w)) found
          (users_laws.first_answer (user_id_is id) w) in
      (fact.0, (str_eq_iff u.id id).0 fact.1)

  pub get_user_by_id-kept : (id : Bytes) (w : World) → SameTables b w (get_user_by_id b cfg id w).1
  unfolding get_user_by_id wrap_first
  get_user_by_id-kept id w =
      let (kept_roles, kept_tokens) = users_laws.first_outside (user_id_is id) w in
      (users_laws.first_kept (user_id_is id) w, kept_roles, kept_tokens)

  -- Either the token names an allowed user among the rows and the handler runs as that user, or the
  -- reply is 401 or 403 and the world is kept.
  abbrev pub AccessOr :
      (World → World → Type 0)
      → {A : Type 0} → (User → Type 0)
      → (Request → World → Reply A × World)
      → Request
      → World
      → Reply A × World
      → Type 0
  AccessOr Kept Allowed next r w out =
      ((u : User) × Elem u (users.rows w)
        × Allowed u
        × Bears r.authorization (bearer_token r.authorization)
        × (parse_token b cfg (bearer_token r.authorization) w ≡ ok u.id)
        × (out ≡ next (with_user r u) (get_user_by_id b cfg u.id w).1))
      ⊎ (((status out.0 ≡ 401) ⊎ (status out.0 ≡ 403)) × Kept w out.1)

  -- The same where the tables are kept.
  abbrev pub Access :
      {A : Type 0}
      → (User → Type 0)
      → (Request → World → Reply A × World)
      → Request
      → World
      → Reply A × World
      → Type 0
  Access = AccessOr (SameTables b)

  module _ {A : Type 0} (Allowed : User → Type 0) (next : Request → World → Reply A × World) where
    -- A guard lets an allowed user through and answers 403 to another.
    abbrev Splits : (Request → World → Reply A × World) → Type 0
    Splits guarded =
        (r : Request) (u : User) (w : World)
        → (Allowed u × (guarded (with_user r u) w ≡ next (with_user r u) w))
          ⊎ ((status (guarded (with_user r u) w).0 ≡ 403) × ((guarded (with_user r u) w).1 ≡ w))

    module _ (Kept : World → World → Type 0) (kept_same : (w : World) → Kept w w)
        (kept_user : (id : Bytes) (w : World) → Kept w (get_user_by_id b cfg id w).1)
        (guarded : Request → World → Reply A × World) (splits : Splits guarded) where
      abbrev Through : Request → World → Reply A × World → Type 0
      Through = AccessOr Kept Allowed next

      loaded-Access :
          (r : Request) (w : World) (sub : Bytes) (res : Result Error User)
          → Bears r.authorization (bearer_token r.authorization)
          → parse_token b cfg (bearer_token r.authorization) w ≡ ok sub
          → (get_user_by_id b cfg sub w).0 ≡ res
          → Through r w (with_loaded b cfg guarded r (res, (get_user_by_id b cfg sub w).1))
      unfolding with_loaded
      loaded-Access r w sub (err e) bears token h = inr (inl refl, kept_user sub w)
      loaded-Access r w sub (ok u) bears token h =
          let w' = (get_user_by_id b cfg sub w).1 in
          elim (splits r u w') [
            | inl (allowed, e) ↦
                let (el, key) = get_user_by_id-Found sub w u h in
                inl (
                  u,
                  el,
                  allowed,
                  bears,
                  rw key token,
                  e ∙ ap (λ i. next (with_user r u) (get_user_by_id b cfg i w).1) (sym key),
                )
            | inr (refused, k) ↦ inr (inr refused, subst (Kept w) (sym k) (kept_user sub w))
          ]

      subject-Access :
          (r : Request) (w : World) (res : Result Error Bytes)
          → Bears r.authorization (bearer_token r.authorization)
          → parse_token b cfg (bearer_token r.authorization) w ≡ res
          → Through r w (with_subject b cfg guarded r res w)
      unfolding with_subject
      subject-Access r w (err e) bears token = inr (inl refl, kept_same w)
      subject-Access r w (ok sub) bears token = elim (Bool-cases (is_empty sub)) [
        | inl none' ↦ rw none' (inr (inl refl, kept_same w))
        | inr found ↦
            rw found (loaded-Access r w sub (get_user_by_id b cfg sub w).0 bears token refl)
      ]

      pub require_auth-Through :
          (r : Request) (w : World) → Through r w (require_auth b cfg guarded r w)
      unfolding require_auth
      require_auth-Through r w = elim (Bool-cases (is_empty (bearer_token r.authorization))) [
        | inl none' ↦ rw none' (inr (inl refl, kept_same w))
        | inr found ↦
            let bears = bearer_token-Bears r.authorization found in
            rw found
              (subject-Access r w (parse_token b cfg (bearer_token r.authorization) w) bears refl)
      ]

  tables_same : (w : World) → SameTables b w w
  tables_same w = (refl, refl, refl)

  abbrev pub IsAdminUser : User → Type 0
  IsAdminUser u = u.role ≡ admin_role

  -- A role that is ADMIN or TEAM_LEADER, but for case and outer spaces.
  abbrev pub MayExport : User → Type 0
  MayExport u =
      (map lower_byte (trim_space u.role) ≡ text "admin")
      ⊎ (map lower_byte (trim_space u.role) ≡ text "team_leader")

  module _ {A : Type 0} (next : Request → World → Reply A × World) where
    pub admin-Splits : Splits IsAdminUser next (require_admin_role next)
    unfolding require_admin_role
    admin-Splits r u w = elim (Bool-cases (str_eq u.role admin_role)) [
      | inl admin ↦ inl ((str_eq_iff u.role admin_role).0 admin, rw admin refl)
      | inr other ↦ rw other (inr (refl, refl))
    ]

    -- If the tables keep their laws, a request to an administrators' endpoint runs the handler
    -- only if its header bears a valid token, with the scheme Bearer, that names a stored user
    -- whose role is ADMIN, and the handler then sees that user; any other request gets 401 or 403 and changes no table.
    pub admin_middleware-Access :
        (r : Request) (w : World) → Access IsAdminUser next r w (admin_middleware b cfg next r w)
    unfolding admin_middleware
    admin_middleware-Access r w =
        require_auth-Through IsAdminUser next (SameTables b) tables_same get_user_by_id-kept
          (require_admin_role next) admin-Splits r w

    pub export-Splits : Splits MayExport next (require_any_role export_roles next)
    unfolding require_any_role
    export-Splits r u w =
        elim (Bool-cases
          (any (λ want. equal_fold (trim_space u.role) (trim_space want)) export_roles)) [
            | inl some_role ↦
                inl (export_roles-either (trim_space u.role) some_role, rw some_role refl)
            | inr no_role ↦ rw no_role (inr (refl, refl))
          ]

    -- If the tables keep their laws, a request for the report in CSV or PDF runs the handler only if
    -- its header bears a valid token, with the scheme Bearer, that names a stored user whose role
    -- is ADMIN or TEAM_LEADER, but for case and outer spaces; any other request gets 401 or 403 and changes no table.
    pub role_middleware-Access :
        (r : Request) (w : World) → Access MayExport next r w (role_middleware b cfg next r w)
    unfolding role_middleware
    role_middleware-Access r w =
        require_auth-Through MayExport next (SameTables b) tables_same get_user_by_id-kept
          (require_any_role export_roles next) export-Splits r w
