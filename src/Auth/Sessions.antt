-- ===== src/Auth/Sessions.antt =====
-- internal/auth/service.go: what a successful Login or Refresh has checked.
use anti_river_ten_demo.Prelude.{
  ◌≤◌, ◌≡◌, subst, ap, ◌∙◌, Bool, true, false, arith, ltb, inl, inr, Bool-cases, if◌then◌else◌,
}
use anti_river_ten_demo.Strings.{Bytes}
use anti_river_ten_demo.Strings.Laws.{str_eq_iff}
use anti_river_ten_demo.Exec.{Exec, ok, pure, raise, total, check, ignore, ◌>>=◌, ◌>>◌}
use anti_river_ten_demo.Exec.Keeps.{bind-ok, check-ok}
use anti_river_ten_demo.Config.{Config}
use anti_river_ten_demo.Db.{RefreshToken}
use anti_river_ten_demo.Db.Laws.{Elem, Found}
use anti_river_ten_demo.Auth.{Backend, Session}
use anti_river_ten_demo.Auth.Laws.{BackendLaws, wrap_first-ok, wrap_first-state, wrap-ok}
use anti_river_ten_demo.Auth.Tokens.{token_hash}
use anti_river_ten_demo.Auth.Accounts.{
  login, refresh, rotate, reject_expired, named, hash_is, user_id_is,
}

pure-ok : {W E A : Type 0} (x : A) (w : W) {y : A} {w' : W} → pure {E = E} x w ≡ (ok y, w') → x ≡ y
unfolding pure
pure-ok x w h = cc

module _ {W E B : Type 0} where
  pub check_then :
      (c : Bool) (e : E) (m : Exec W E B) (w : W) {s : B} {w' : W}
      → (check c e >> m) w ≡ (ok s, w')
      → m w ≡ (ok s, w')
  unfolding check ◌>>=◌ pure raise
  check_then true e m w h = h
  check_then false e m w h = cc

module _ (b : Backend) (laws : BackendLaws b) (cfg : Config) where
  open b use {World, users, tokens, now, compare_hash_and_password}
  open laws use {users_laws, tokens_laws}

  -- If the tables keep their laws, a user logs in only as a stored user whose name or email is the
  -- identifier, and only with a password that bcrypt accepts for the stored hash; the session is
  -- the one of that user.
  pub login-Elem :
      (identifier password : Bytes) (w w' : World) (s : Session)
      → login b cfg identifier password w ≡ (ok s, w')
      → Elem s.user (users.rows w)
        × (named identifier identifier s.user ≡ true)
        × (compare_hash_and_password s.user.password_hash password ≡ true)
  unfolding login
  login-Elem identifier password w w' s h =
      let (u, found, h1) = bind-ok _ _ w h in
      let (_, checked, h2) = bind-ok _ _ _ h1 in
      let (at, _, h3) = bind-ok _ _ _ h2 in
      let (rt, _, h4) = bind-ok _ _ _ h3 in
      let same : u ≡ s.user = ap (λ z. z.user) (pure-ok _ _ h4) in
      let (el, match') =
        subst (Found (named identifier identifier) (users.rows w)) (wrap_first-ok _ _ _ w found)
          (users_laws.first_answer (named identifier identifier) w) in
      rw (← same) (el, match', check-ok _ _ _ checked)

  -- The second half of a refresh that returns: its user is the stored owner of the token.
  rotate-Elem :
      (rt : RefreshToken) (w w' : World) (s : Session)
      → rotate b cfg rt w ≡ (ok s, w')
      → Elem s.user (users.rows w) × (s.user.id ≡ rt.user_id)
  unfolding rotate user_id_is
  rotate-Elem rt w w' s h =
      let (u, found, h1) = bind-ok _ _ w h in
      let (_, _, h2) = bind-ok _ _ _ h1 in
      let (_, _, h3) = bind-ok _ _ _ h2 in
      let (_, _, h4) = bind-ok _ _ _ h3 in
      let same : u ≡ s.user = ap (λ z. z.user) (pure-ok _ _ h4) in
      let (el, key) =
        subst (Found (user_id_is rt.user_id) (users.rows w)) (wrap-ok _ _ w found)
          (users_laws.first_answer (user_id_is rt.user_id) w) in
      rw (← same) (el, (str_eq_iff u.id rt.user_id).0 key)

  pub reject_expired-err :
      (rt : RefreshToken) (w w' : World) (s : Session) → reject_expired b cfg rt w ≡ (ok s, w') → ⊥
  unfolding reject_expired ignore raise ◌>>=◌
  reject_expired-err rt w w' s h = cc

  after_found :
      (rt : RefreshToken) (w w' : World) (s : Session)
      → (total now >>= λ t.
            if ltb rt.expires_at t then reject_expired b cfg rt else rotate b cfg rt)
          w
        ≡ (ok s, w')
      → ((now w).0 ≤ rt.expires_at) × Elem s.user (users.rows w) × (s.user.id ≡ rt.user_id)
  unfolding total ◌>>=◌
  after_found rt w w' s h = elim (Bool-cases (ltb rt.expires_at (now w).0)) [
    | inl late ↦ absurd (reject_expired-err rt (now w).1 w' s (rw late at h))
    | inr fresh ↦
        let (el, key) = rotate-Elem rt (now w).1 w' s (rw fresh at h) in
        (ground arith, subst (Elem s.user) (laws.now_kept w).0 el, key)
  ]

  -- If the tables keep their laws, a refresh returns a session only for a stored token with the
  -- hash of the text that was sent, not expired at the time of the call, and only for the stored
  -- user to whom that token belongs.
  pub refresh-Elem :
      (text_sent : Bytes) (w w' : World) (s : Session)
      → refresh b cfg text_sent w ≡ (ok s, w')
      → (rt : RefreshToken) × Elem rt (tokens.rows w)
        × (rt.token_hash ≡ token_hash b cfg text_sent)
        × ((now (tokens.first (hash_is (token_hash b cfg text_sent)) w).1).0 ≤ rt.expires_at)
        × Elem s.user (users.rows w)
        × (s.user.id ≡ rt.user_id)
  unfolding refresh hash_is
  refresh-Elem text_sent w w' s h =
      let h0 = check_then _ _ _ w h in
      let (rt, found, h1) = bind-ok _ _ w h0 in
      let (el, key) =
        subst (Found (hash_is (token_hash b cfg text_sent)) (tokens.rows w))
          (wrap_first-ok _ _ _ w found)
          (tokens_laws.first_answer (hash_is (token_hash b cfg text_sent)) w) in
      let (fresh, owner, id) = after_found rt _ w' s h1 in
      (
        rt,
        el,
        (str_eq_iff rt.token_hash (token_hash b cfg text_sent)).0 key,
        subst (λ w1. (now w1).0 ≤ rt.expires_at) (wrap_first-state _ _ _ w) fresh,
        subst (Elem s.user)
            (ap users.rows (wrap_first-state _ _ _ w)
              ∙ (tokens_laws.first_outside (hash_is (token_hash b cfg text_sent)) w).0)
            owner,
        id,
      )
