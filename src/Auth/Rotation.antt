-- ===== src/Auth/Rotation.antt =====
-- internal/auth/service.go: the rows of the tokens behind a refresh.
pub mod Single
use anti_river_ten_demo.Prelude.{
  ℕ, ◌≡◌, ◌≢◌, refl, sym, ap, ◌∙◌, subst, Bool, true, false, not, List, [], ◌∷◌, ◌++◌, ◌+◌, ◌*◌,
  filter, count, All, ◌⊎◌, arith, ltb, inl, inr, Bool-cases, count-append, if◌then◌else◌,
}
use anti_river_ten_demo.Strings.{Bytes, text, is_empty, str_eq}
use anti_river_ten_demo.Strings.Laws.{str_eq_iff, str_eq_refl}
use anti_river_ten_demo.Exec.{Exec, Result, ok, err, pure, total, ◌>>=◌}
use anti_river_ten_demo.Exec.Keeps.{Fixes, bind-ok, fixes_rules}
use anti_river_ten_demo.Config.{Config, hour}
use anti_river_ten_demo.Db.{DbError, User, RefreshToken, token_before_create}
use anti_river_ten_demo.Db.Laws.{Elem, Created, Deleted, Found, other_than}
use anti_river_ten_demo.Auth.{Backend, Error, Session, wrap}
use anti_river_ten_demo.Auth.Accounts.{
  refresh, rotate, reject_expired, hash_is, token_id_is, user_id_is,
}
use anti_river_ten_demo.Auth.Laws.{
  BackendLaws, StoredToken, wrap-ok, wrap-state, wrap_first-ok, wrap_first-state, tokens-now,
  tokens-uuid, tokens-rand, tokens-first_user,
}
use anti_river_ten_demo.Auth.Sessions.{check_then, reject_expired-err, refresh-Elem}
use anti_river_ten_demo.Auth.Tokens.{
  hex, ttl_or, token_hash, create_token, generate_token, generate_refresh_token,
}

pure-both :
    {W E A : Type 0} (x : A) (w : W) {y : A} {w' : W}
    → pure {E = E} x w ≡ (ok y, w')
    → (x ≡ y) × (w ≡ w')
unfolding pure
pure-both x w h = (cc, cc)

module _ (b : Backend) (laws : BackendLaws b) (cfg : Config) where
  open b use {World, users, tokens, now, new_uuid}
  open laws use {users_laws, tokens_laws}

  abbrev hooked : RefreshToken → Exec World DbError RefreshToken
  hooked rt = token_before_create new_uuid rt

  hooked-kept : (rt : RefreshToken) → Fixes tokens.rows (hooked rt)
  unfolding token_before_create
  hooked-kept rt = search (fixes_rules, tokens-uuid b laws)

  hooked-hash :
      (rt a : RefreshToken) (w : World) → (hooked rt w).0 ≡ ok a → a.token_hash ≡ rt.token_hash
  unfolding token_before_create total pure ◌>>=◌
  hooked-hash rt a w h = elim (Bool-cases (is_empty rt.id)) [
    | inl e ↦ cc (rw e at h)
    | inr e ↦ cc (rw e at h)
  ]

  create_token-hash :
      (rt a : RefreshToken) (w w' : World)
      → create_token b cfg rt w ≡ (ok a, w')
      → (a.token_hash ≡ rt.token_hash) × (tokens.rows w' ≡ tokens.rows w ++ a ∷ [])
  unfolding create_token
  create_token-hash rt a w w' h =
      let (rt', done, h1) = bind-ok (hooked rt) (λ r. tokens.create r) w h in
      let w1 = (hooked rt w).1 in
      let (stored, new) =
        subst (λ z. Created StoredToken rt' (tokens.rows w1) (tokens.rows z.1) z.0) h1
          (tokens_laws.create_effect rt' w1) in
      (
        stored.token_hash ∙ hooked-hash rt rt' w done,
        new ∙ ap (λ l. l ++ a ∷ []) ((hooked-kept rt).at w),
      )

  store_then :
      (m : Bytes) (rt : RefreshToken) (q out : Bytes × ℕ) (w w' : World)
      → (wrap m (create_token b cfg rt) >>= λ _. pure q) w ≡ (ok out, w')
      → (a : RefreshToken) × (a.token_hash ≡ rt.token_hash)
        × (tokens.rows w' ≡ tokens.rows w ++ a ∷ [])
        × (q ≡ out)
  store_then m rt q out w w' h =
      let (a, created, h1) = bind-ok (wrap m (create_token b cfg rt)) (λ _. pure q) w h in
      let (same, q-out) = pure-both q _ h1 in
      let done : create_token b cfg rt w ≡ (ok a, (create_token b cfg rt w).1) =
        λ i. (wrap-ok m (create_token b cfg rt) w created i, (create_token b cfg rt w).1) in
      let (hash, rows) = create_token-hash rt a w (create_token b cfg rt w).1 done in
      (
        a,
        hash,
        subst (λ z. tokens.rows z ≡ tokens.rows w ++ a ∷ [])
            (sym (wrap-state m (create_token b cfg rt) w) ∙ q-out) rows,
        same,
      )

  rand-kept : (m : Bytes) → Fixes tokens.rows (wrap m b.rand_read)
  unfolding wrap
  rand-kept m = search (fixes_rules, tokens-rand b laws)

  -- A new refresh token is stored under its own hash, and nothing else changes.
  generate_refresh_token-stored :
      (id role : Bytes) (out : Bytes × ℕ) (w w' : World)
      → generate_refresh_token b cfg id role w ≡ (ok out, w')
      → (a : RefreshToken) × (a.token_hash ≡ token_hash b cfg out.0)
        × (tokens.rows w' ≡ tokens.rows w ++ a ∷ [])
  unfolding generate_refresh_token
  generate_refresh_token-stored id role out w w' h =
      let (t, _, h1) = bind-ok _ _ w h in
      let (bytes, _, h2) = bind-ok _ _ _ h1 in
      let rt : RefreshToken = record {
        id = [];
        user_id = id;
        token_hash = token_hash b cfg (hex bytes);
        expires_at = t + ttl_or cfg.refresh_ttl (720 * hour);
        created_time = 0;
      } in
      let (a, hash, rows, same) = store_then _ rt _ out _ w' h2 in
      (
        a,
        hash ∙ ap (λ z. token_hash b cfg z.0) same,
        rows ∙ ap (λ l. l ++ a ∷ []) ((rand-kept (text "rand")).at _ ∙ (tokens-now b laws).at w),
      )

  generate_token-kept : (u : User) → Fixes tokens.rows (generate_token b cfg u)
  unfolding generate_token
  generate_token-kept u = search (fixes_rules, tokens-now) depth 14

  -- The second half of a refresh deletes the rows with the id of the token, and adds the new one.
  pub rotate-rows :
      (rt : RefreshToken) (w w' : World) (s : Session)
      → rotate b cfg rt w ≡ (ok s, w')
      → (a : RefreshToken) × (a.token_hash ≡ token_hash b cfg s.refresh)
        × (tokens.rows w' ≡ filter (other_than (token_id_is rt.id)) (tokens.rows w) ++ a ∷ [])
  unfolding rotate
  rotate-rows rt w w' s h =
      let (u, _, h1) = bind-ok _ _ w h in
      let w1 = (wrap (text "load user") (users.first (user_id_is rt.user_id)) w).1 in
      let delete = tokens.delete (token_id_is rt.id) in
      let (_, deleted, h2) = bind-ok _ _ w1 h1 in
      let w2 = (wrap (text "delete old refresh") delete w1).1 in
      let (fresh, made, h3) = bind-ok _ _ w2 h2 in
      let w3 = (generate_refresh_token b cfg u.id u.role w2).1 in
      let (access, _, h4) = bind-ok _ _ w3 h3 in
      let (same, end) = pure-both _ _ h4 in
      let (a, hash, rows) =
        generate_refresh_token-stored u.id u.role fresh w2 w3 (λ i. (made i, w3)) in
      let gone : tokens.rows w2 ≡ filter (other_than (token_id_is rt.id)) (tokens.rows w1) =
        ap tokens.rows (wrap-state (text "delete old refresh") delete w1)
        ∙ subst (Deleted (token_id_is rt.id) (tokens.rows w1) (tokens.rows (delete w1).1))
            (wrap-ok (text "delete old refresh") delete w1 deleted)
            (tokens_laws.delete_effect (token_id_is rt.id) w1) in
      let first_kept : tokens.rows w1 ≡ tokens.rows w =
        ap tokens.rows (wrap-state (text "load user") (users.first (user_id_is rt.user_id)) w)
        ∙ (tokens-first_user b laws (user_id_is rt.user_id)).at w in
      (
        a,
        hash ∙ ap (λ z. token_hash b cfg z.refresh) same,
        sym (ap tokens.rows end)
            ∙ ((generate_token-kept u).at w3
                ∙ (rows
                    ∙ ap (λ l. l ++ a ∷ [])
                        (gone ∙ ap (filter (other_than (token_id_is rt.id))) first_kept))),
      )
