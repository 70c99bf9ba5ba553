-- ===== src/Auth/Rotation/Single.antt =====
-- internal/auth/service.go: a token that a refresh has used is used up.
use anti_river_ten_demo.Prelude.{
  ◌≡◌, ◌≢◌, refl, sym, ap, ◌∙◌, subst, Bool, true, List, [], ◌∷◌, filter, count, All, arith, ltb,
  inl, inr, Bool-cases, count-append, if◌then◌else◌,
}
use anti_river_ten_demo.Strings.{Bytes, str_eq}
use anti_river_ten_demo.Strings.Laws.{str_eq_iff, str_eq_refl}
use anti_river_ten_demo.Exec.{Result, ok, err, total, ◌>>=◌}
use anti_river_ten_demo.Exec.Keeps.{bind-ok}
use anti_river_ten_demo.Config.{Config}
use anti_river_ten_demo.Db.{RefreshToken}
use anti_river_ten_demo.Db.Laws.{Elem, Found, other_than}
use anti_river_ten_demo.Auth.{Backend, Error, Session}
use anti_river_ten_demo.Auth.Accounts.{refresh, rotate, reject_expired, hash_is, token_id_is}
use anti_river_ten_demo.Auth.Laws.{BackendLaws, wrap_first-ok, wrap_first-state}
use anti_river_ten_demo.Auth.Sessions.{check_then, reject_expired-err, refresh-Elem}
use anti_river_ten_demo.Auth.Tokens.{token_hash}
use anti_river_ten_demo.Auth.Rotation.{rotate-rows}

token_id_is_self : (rt : RefreshToken) → token_id_is rt.id rt ≡ true
unfolding token_id_is
token_id_is_self rt = str_eq_refl rt.id

-- No row with that hash is left when the rows with the id of the one are deleted.
deleted-none :
    (rt : RefreshToken) (rows : List RefreshToken)
    → All (λ r. hash_is rt.token_hash r ≡ true → r ≡ rt) rows
    → count (hash_is rt.token_hash) (filter (other_than (token_id_is rt.id)) rows) ≡ 0
deleted-none rt [] h = refl
deleted-none rt (r ∷ rows) (only, h) = elim (Bool-cases (token_id_is rt.id r)) [
  | inl gone ↦ rw gone (deleted-none rt rows h)
  | inr stays ↦ elim (Bool-cases (hash_is rt.token_hash r)) [
    | inl same ↦
        let r' : token_id_is rt.id r ≡ true = rw (only same) (token_id_is_self rt) in cc (r', stays)
    | inr other ↦ rw stays (rw other (deleted-none rt rows h))
  ]
]

-- A row with the property is counted.
count-Elem :
    (p : RefreshToken → Bool) (rt : RefreshToken) (rows : List RefreshToken)
    → Elem rt rows
    → p rt ≡ true
    → count p rows ≡ 0
    → ⊥
count-Elem p rt [] el holds h = elim el [ ]
count-Elem p rt (r ∷ rows) (inl same) holds h =
    let here : p r ≡ true = rw (← same) holds in ground (arith, here, h)
count-Elem p rt (r ∷ rows) (inr el) holds h = elim (Bool-cases (p r)) [
  | inl y ↦ ground (arith, y, h)
  | inr n ↦ count-Elem p rt rows el holds (rw n at h)
]

hash_is-same : (hash : Bytes) (rt : RefreshToken) → hash_is hash rt ≡ true → rt.token_hash ≡ hash
unfolding hash_is
hash_is-same hash rt = (str_eq_iff rt.token_hash hash).0

hash_is-hash : (hash : Bytes) (rt : RefreshToken) → rt.token_hash ≡ hash → hash_is hash rt ≡ true
unfolding hash_is
hash_is-hash hash rt = (str_eq_iff rt.token_hash hash).1

count-other :
    (hash : Bytes) (a : RefreshToken) → a.token_hash ≢ hash → count (hash_is hash) (a ∷ []) ≡ 0
unfolding hash_is
count-other hash a differs = elim (Bool-cases (str_eq a.token_hash hash)) [
  | inl y ↦ absurd (differs ((str_eq_iff a.token_hash hash).0 y))
  | inr n ↦ rw n refl
]

module _ (b : Backend) (laws : BackendLaws b) (cfg : Config) where
  open b use {World, users, tokens, now, new_uuid}
  open laws use {users_laws, tokens_laws}

  -- No row with the hash of the used token is left.
  rotate-none :
      (hash : Bytes) (rt : RefreshToken) (w w' : World) (s : Session)
      → Elem rt (tokens.rows w)
      → rt.token_hash ≡ hash
      → token_hash b cfg s.refresh ≢ hash
      → rotate b cfg rt w ≡ (ok s, w')
      → count (hash_is hash) (tokens.rows w') ≡ 0
  rotate-none hash rt w w' s el same differs h =
      let (a, new, rows) = rotate-rows b laws cfg rt w w' s h in
      let gone =
        subst (λ z. count (hash_is z) (filter (other_than (token_id_is rt.id)) (tokens.rows w)) ≡ 0)
          same (deleted-none rt (tokens.rows w) (laws.token_key w rt el)) in
      let other = count-other hash a (λ e. differs (sym new ∙ e)) in
      let both =
        count-append (hash_is hash) (filter (other_than (token_id_is rt.id)) (tokens.rows w))
          (a ∷ []) in
      ap (count (hash_is hash)) rows ∙ (both ∙ omega (arith, gone, other))

  found-none :
      (hash : Bytes) (rt : RefreshToken) (w w' : World) (s : Session)
      → Elem rt (tokens.rows w)
      → rt.token_hash ≡ hash
      → token_hash b cfg s.refresh ≢ hash
      → (total now >>= λ t.
            if ltb rt.expires_at t then reject_expired b cfg rt else rotate b cfg rt)
          w
        ≡ (ok s, w')
      → count (hash_is hash) (tokens.rows w') ≡ 0
  unfolding total ◌>>=◌
  found-none hash rt w w' s el same differs h = elim (Bool-cases (ltb rt.expires_at (now w).0)) [
    | inl late ↦ absurd (reject_expired-err b laws cfg rt (now w).1 w' s (rw late at h))
    | inr fresh ↦
        rotate-none hash rt (now w).1 w' s (subst (Elem rt) (sym ((laws.now_kept w).2)) el) same
          differs (rw fresh at h)
  ]

  refresh-none :
      (text_sent : Bytes) (w w' : World) (s : Session)
      → token_hash b cfg s.refresh ≢ token_hash b cfg text_sent
      → refresh b cfg text_sent w ≡ (ok s, w')
      → count (hash_is (token_hash b cfg text_sent)) (tokens.rows w') ≡ 0
  unfolding refresh
  refresh-none text_sent w w' s differs h =
      let hash = token_hash b cfg text_sent in
      let h0 = check_then _ _ _ w h in
      let (rt, found, h1) = bind-ok _ _ w h0 in
      let (el, key) =
        subst (Found (hash_is hash) (tokens.rows w)) (wrap_first-ok _ _ _ w found)
          (tokens_laws.first_answer (hash_is hash) w) in
      found-none hash rt _ w' s
        (subst (Elem rt)
          (sym
            (ap tokens.rows (wrap_first-state _ _ _ w) ∙ tokens_laws.first_kept (hash_is hash) w))
          el)
        (hash_is-same hash rt key) differs h1

  refused_or :
      (text_sent : Bytes) (w : World)
      → count (hash_is (token_hash b cfg text_sent)) (tokens.rows w) ≡ 0
      → (r : Result Error Session) → (refresh b cfg text_sent w).0 ≡ r
      → (e : Error) × (r ≡ err e)
  refused_or text_sent w none (err e) h = (e, refl)
  refused_or text_sent w none (ok s) h =
      let (rt, el, same, _, _, _) =
        refresh-Elem b laws cfg text_sent w (refresh b cfg text_sent w).1 s
          (λ i. (h i, (refresh b cfg text_sent w).1)) in
      absurd (
        count-Elem (hash_is (token_hash b cfg text_sent)) rt (tokens.rows w) el
          (hash_is-hash (token_hash b cfg text_sent) rt same) none)

  -- If the tables keep their laws, a refresh that returns a session whose new token has another
  -- hash than the text that was sent uses that text up: no stored token has its hash afterwards,
  -- and the next refresh with the same text returns an error.
  pub refresh-single_use :
      (text_sent : Bytes) (w w' : World) (s : Session)
      → token_hash b cfg s.refresh ≢ token_hash b cfg text_sent
      → refresh b cfg text_sent w ≡ (ok s, w')
      → (count (hash_is (token_hash b cfg text_sent)) (tokens.rows w') ≡ 0)
        × ((e : Error) × ((refresh b cfg text_sent w').0 ≡ err e))
  refresh-single_use text_sent w w' s differs h =
      let none = refresh-none text_sent w w' s differs h in
      (none, refused_or text_sent w' none (refresh b cfg text_sent w').0 refl)
