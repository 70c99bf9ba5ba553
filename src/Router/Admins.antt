-- ===== src/Router/Admins.antt =====
-- The administrators under any sequence of calls of the account endpoints.
use anti_river_ten_demo.Prelude.{
  ◌≡◌, refl, sym, subst, ap, ◌∙◌, List, [], ◌∷◌, All, arith, inl, inr, Bool-cases,
}
use anti_river_ten_demo.Strings.{Bytes, is_empty}
use anti_river_ten_demo.Exec.{Result, ok, err}
use anti_river_ten_demo.Config.{Config}
use anti_river_ten_demo.Db.{User}
use anti_river_ten_demo.Auth.{Backend, Error}
use anti_river_ten_demo.Auth.Laws.{BackendLaws}
use anti_river_ten_demo.Auth.Tokens.{parse_token}
use anti_river_ten_demo.Auth.Accounts.{get_user_by_id}
use anti_river_ten_demo.Auth.Admin.{admin_role}
use anti_river_ten_demo.Auth.AdminRows.{admin_rows, admins, NoSleeper}
use anti_river_ten_demo.Auth.Frames.{users-get_user_by_id}
use anti_river_ten_demo.Handlers.{Reply, Request}
use anti_river_ten_demo.Handlers.Guards.{
  require_auth, require_admin_role, with_subject, with_loaded, with_user, bearer_token,
}
use anti_river_ten_demo.Handlers.Invariant.{
  users-login_handler, users-refresh_handler, users-list_users_handler, admins-register_handler,
  admins-create_user_handler, admins-update_user_status_handler, admins-update_user_role_handler,
  admins-delete_user_handler,
}
use anti_river_ten_demo.Router.{
  Call, register, login, refresh, me, create_user, list_users, update_user_status, update_user_role,
  delete_user, serve, serve_all, admin_middleware,
}

module _ (b : Backend) (laws : BackendLaws b) (cfg : Config) where
  open b use {World, users}

  -- What a handler behind a guard leaves alone, the guarded handler leaves alone.
  module _ {A : Type 0} (next : Request → World → Reply A × World) where
    loaded-admins :
        ((r : Request) (w : World) → NoSleeper b w → admin_rows b (next r w).1 ≡ admin_rows b w)
        → (r : Request) (res : Result Error User) (w : World) → NoSleeper b w
        → admin_rows b (with_loaded b cfg next r (res, w)).1 ≡ admin_rows b w
    unfolding with_loaded
    loaded-admins h r (ok u) w awake = h (with_user r u) w awake
    loaded-admins h r (err e) w awake = refl

    subject-admins :
        ((r : Request) (w : World) → NoSleeper b w → admin_rows b (next r w).1 ≡ admin_rows b w)
        → (r : Request) (res : Result Error Bytes) (w : World) → NoSleeper b w
        → admin_rows b (with_subject b cfg next r res w).1 ≡ admin_rows b w
    unfolding with_subject
    subject-admins h r (err e) w awake = refl
    subject-admins h r (ok sub) w awake = elim (Bool-cases (is_empty sub)) [
      | inl none' ↦ rw none'
      | inr found ↦
          let kept : admin_rows b (get_user_by_id b cfg sub w).1 ≡ admin_rows b w =
            ap admins ((users-get_user_by_id b laws cfg sub).at w) in
          rw found (
            loaded-admins h r (get_user_by_id b cfg sub w).0 (get_user_by_id b cfg sub w).1
              (subst (All (λ u. u.role ≡ admin_role)) (sym kept) awake)
            ∙ kept)
    ]

    require_auth-admins :
        ((r : Request) (w : World) → NoSleeper b w → admin_rows b (next r w).1 ≡ admin_rows b w)
        → (r : Request) (w : World) → NoSleeper b w
        → admin_rows b (require_auth b cfg next r w).1 ≡ admin_rows b w
    unfolding require_auth
    require_auth-admins h r w awake = elim (Bool-cases (is_empty (bearer_token r.authorization))) [
      | inl none' ↦ rw none'
      | inr found ↦
          rw found (subject-admins h r (parse_token b cfg (bearer_token r.authorization) w) w awake)
    ]

    admin_role-admins :
        ((r : Request) (w : World) → NoSleeper b w → admin_rows b (next r w).1 ≡ admin_rows b w)
        → (r : Request) (w : World) → NoSleeper b w
        → admin_rows b (require_admin_role next r w).1 ≡ admin_rows b w
    unfolding require_admin_role
    admin_role-admins h r w awake = ground (arith, h r w awake)

  admin_middleware-admins :
      {A : Type 0} (next : Request → World → Reply A × World)
      → ((r : Request) (w : World) → NoSleeper b w → admin_rows b (next r w).1 ≡ admin_rows b w)
      → (r : Request) (w : World) → NoSleeper b w
      → admin_rows b (admin_middleware b cfg next r w).1 ≡ admin_rows b w
  unfolding admin_middleware
  admin_middleware-admins next h =
      require_auth-admins (require_admin_role next) (admin_role-admins next h)

  -- One call of an account endpoint leaves the rows of the administrators as they are.
  pub serve-admins :
      (call : Call) (r : Request) (w : World)
      → NoSleeper b w
      → admin_rows b (serve b cfg call r w).1 ≡ admin_rows b w
  unfolding serve
  serve-admins (register body) r w awake = admins-register_handler b laws cfg r body w
  serve-admins (login body) r w awake = ap admins (users-login_handler b laws cfg r body w)
  serve-admins (refresh body) r w awake = ap admins (users-refresh_handler b laws cfg r body w)
  serve-admins me r w awake = require_auth-admins _ (λ r' w' _. refl) r w awake
  serve-admins (create_user body) r w awake =
      admin_middleware-admins _ (λ r' w' _. admins-create_user_handler b laws cfg r' body w') r w
        awake
  serve-admins list_users r w awake =
      admin_middleware-admins _ (λ r' w' _. ap admins (users-list_users_handler b laws cfg r' w')) r
        w awake
  serve-admins (update_user_status body) r w awake =
      admin_middleware-admins _ (λ r'. admins-update_user_status_handler b laws cfg r' body) r w
        awake
  serve-admins (update_user_role body) r w awake =
      admin_middleware-admins _ (λ r'. admins-update_user_role_handler b laws cfg r' body) r w awake
  serve-admins delete_user r w awake =
      admin_middleware-admins _ (admins-delete_user_handler b laws cfg) r w awake

  -- If the tables keep their laws and at the start every role that begins with ADMIN is ADMIN,
  -- then whatever calls of the account endpoints are made, in whatever order and by whomever, the
  -- rows of the administrators stay as they are.
  pub serve_all-admins :
      (calls : List (Call × Request)) (w : World)
      → NoSleeper b w
      → admin_rows b (serve_all b cfg calls w) ≡ admin_rows b w
  unfolding serve_all
  serve_all-admins [] w awake = refl
  serve_all-admins ((call, r) ∷ calls) w awake =
      let kept = serve-admins call r w awake in
      serve_all-admins calls (serve b cfg call r w).1
        (subst (All (λ u. u.role ≡ admin_role)) (sym kept) awake)
      ∙ kept
