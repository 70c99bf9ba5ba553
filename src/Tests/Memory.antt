-- ===== src/Tests/Memory.antt =====
-- A server with its tables in memory, which shows that the laws of the database and of the
-- libraries can be met together.
use anti_river_ten_demo.Prelude.{
  ℕ, suc, refl, sym, subst, Bool, true, false, not, ◌&&◌, any, ◌≡◌, Option, none, some, List, [],
  ◌∷◌, ◌++◌, All, all, inl, inr, Bool-cases, arith, if◌then◌else◌,
}
use anti_river_ten_demo.Strings.{Bytes, text, str_eq, has_prefix, cut_prefix}
use anti_river_ten_demo.Strings.Laws.{str_eq_iff, str_eq_refl}
use anti_river_ten_demo.Strconv.{decimal}
use anti_river_ten_demo.Exec.{ok, pure}
use anti_river_ten_demo.Db.{User, Role, RefreshToken}
use anti_river_ten_demo.Db.Laws.{Elem}
use anti_river_ten_demo.Db.Memory.{memory_table, memory_laws, rows_of}
use anti_river_ten_demo.Sqllog.{SqlLog}
use anti_river_ten_demo.Auth.{Backend, Claims, hmac}
use anti_river_ten_demo.Auth.Laws.{BackendLaws, StoredUser, StoredToken, touch_user, touch_none}
use anti_river_ten_demo.Auth.Accounts.{user_id_is, hash_is}

pub record Store : Type 0 where
  pub user_rows : List User
  pub role_rows : List Role
  pub token_rows : List RefreshToken
  pub log_rows : List SqlLog
  pub clock : ℕ

module _ {R : Type 0} (key : R → Bytes) where
  -- No two rows have the same key.
  abbrev distinct : List R → Bool
  distinct [] = true
  distinct (r ∷ rows) = all (λ x. not (str_eq (key x) (key r))) rows && distinct rows

  others :
      (r : R) (rows : List R)
      → all (λ x. not (str_eq (key x) (key r))) rows ≡ true
      → All (λ x. str_eq (key x) (key r) ≡ true → x ≡ r) rows
  others r [] h = tt
  others r (x ∷ rows) h = (λ e. ground arith, others r rows (ground arith))

  other :
      (r u : R) (rows : List R)
      → all (λ x. not (str_eq (key x) (key r))) rows ≡ true
      → Elem u rows
      → str_eq (key u) (key r) ≡ false
  other r u [] h el = absurd el
  other r u (x ∷ rows) h (inl e) = rw e (ground arith)
  other r u (x ∷ rows) h (inr el) = other r u rows (ground arith) el

  head_other : (r u : R) → str_eq (key u) (key r) ≡ false → str_eq (key r) (key u) ≡ true → r ≡ u
  head_other r u h e =
      let same = (str_eq_iff (key r) (key u)).0 e in cc (h, same, str_eq_refl (key r))

  -- The row with a key is the one that is known to have it.
  distinct_lem :
      (u : R) (rows : List R)
      → distinct rows ≡ true
      → Elem u rows
      → All (λ x. str_eq (key x) (key u) ≡ true → x ≡ u) rows
  distinct_lem u [] h el = tt
  distinct_lem u (r ∷ rows) h (inl e) =
      subst (λ v. All (λ x. str_eq (key x) (key v) ≡ true → x ≡ v) (r ∷ rows)) (sym e)
        (λ _. refl, others r rows (ground arith))
  distinct_lem u (r ∷ rows) h (inr el) =
      (head_other r u (other r u rows (ground arith) el), distinct_lem u rows (ground arith) el)

abbrev seeded_codes : List Bytes
seeded_codes =
    text "USER" ∷ text "ADMIN" ∷ text "ANALYZER" ∷ text "MONITOR" ∷ text "TEAM_LEADER" ∷ []

-- The foreign key from the role of a user to the codes of the seeded roles.
abbrev pub known_role : Bytes → Bool
known_role role = any (str_eq role) seeded_codes

abbrev pub users_valid : List User → Bool
users_valid l = distinct (λ u. u.id) l && all (λ u. known_role u.role) l

abbrev pub tokens_valid : List RefreshToken → Bool
tokens_valid l = distinct (λ rt. rt.token_hash) l

abbrev roles_valid : List Role → Bool
roles_valid l = distinct (λ r. r.code) l

-- Every call of the clock, of uuid and of the random source moves the clock.
abbrev tick : Store → Store
tick w = record w { clock = suc w.clock }

abbrev token_mark : Bytes → Bytes
token_mark secret = secret ++ text ":"

abbrev read_token : Bytes → Option Bytes → Option (Claims × Bool)
read_token token none = none
read_token token (some secret) =
    if has_prefix token (token_mark secret)
    then some (
      record {
        subject = cut_prefix token (token_mark secret);
        expires_at = 0;
        issued_at = 0;
        role = [];
      },
      true,
    )
    else none

unfoldable pub memory : Backend
unfolding memory_table rows_of pure
memory = record {
  World = Store;
  users =
      memory_table (λ w. w.user_rows) (λ l w. record w { user_rows = l }) users_valid touch_user;
  roles =
      memory_table (λ w. w.role_rows) (λ l w. record w { role_rows = l }) roles_valid touch_none;
  tokens =
      memory_table (λ w. w.token_rows) (λ l w. record w { token_rows = l }) tokens_valid touch_none;
  now = λ w. (w.clock, tick w);
  new_uuid = λ w. (text "id-" ++ decimal w.clock, tick w);
  rand_read = λ w. (ok (decimal w.clock), tick w);
  generate_from_password = λ s. pure (text "hash:" ++ s);
  compare_hash_and_password = λ h s. str_eq h (text "hash:" ++ s);
  sha256 = λ s. s;
  sign_hs256 = λ claims secret. ok (token_mark secret ++ claims.subject);
  parse_with_claims = λ key token w. read_token token (key hmac);
}

StoredUser-refl : (u : User) → StoredUser u u
StoredUser-refl u = record {
  id = refl;
  username = refl;
  email = refl;
  password_hash = refl;
  created_by = refl;
  updated_by = refl;
  role = refl;
}

StoredToken-refl : (rt : RefreshToken) → StoredToken rt rt
StoredToken-refl rt = record { id = refl; user_id = refl; token_hash = refl; expires_at = refl }

module _ {R : Type 0} (valid : List R → Bool) where
  -- The rows that are read are valid.
  valid_rows : (l : List R) → valid [] ≡ true → valid (if valid l then l else []) ≡ true
  valid_rows l h = elim (Bool-cases (valid l)) [ inl e ↦ rw (e, e) | inr e ↦ rw (e, h) ]

pub memory_lawful : BackendLaws memory
unfolding memory rows_of memory_table pure user_id_is hash_is
memory_lawful = record {
  users_laws =
      memory_laws (λ w. w.user_rows) (λ l w. record w { user_rows = l }) users_valid touch_user
        StoredUser _ StoredUser-refl (λ w. (refl, refl)) (λ l w. (refl, refl)) (λ l w. refl);
  roles_laws =
      memory_laws (λ w. w.role_rows) (λ l w. record w { role_rows = l }) roles_valid touch_none
        (λ r s. s ≡ r) _ (λ r. refl) (λ w. (refl, refl)) (λ l w. (refl, refl)) (λ l w. refl);
  tokens_laws =
      memory_laws (λ w. w.token_rows) (λ l w. record w { token_rows = l }) tokens_valid touch_none
        StoredToken _ StoredToken-refl (λ w. (refl, refl)) (λ l w. (refl, refl)) (λ l w. refl);
  user_key = λ w u el.
      distinct_lem (λ v. v.id) u _ (ground (arith, valid_rows users_valid w.user_rows refl)) el;
  token_key = λ w rt el.
      distinct_lem (λ t. t.token_hash) rt _ (valid_rows tokens_valid w.token_rows refl) el;
  now_kept = λ w. (refl, refl, refl);
  uuid_kept = λ w. (refl, refl, refl);
  rand_kept = λ w. (refl, refl, refl);
  hash_kept = λ s w. (refl, refl, refl);
}
