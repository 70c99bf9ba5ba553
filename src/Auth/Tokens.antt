-- ===== src/Auth/Tokens.antt =====
-- internal/auth/service.go: GenerateToken, ParseToken, GenerateRefreshToken.
use anti_river_ten_demo.Prelude.{
  ℕ, zero, suc, ◌+◌, ◌-◌, ◌*◌, ◌/◌, ◌%◌, Bool, not, Option, none, some, [], ◌∷◌, ltb, if◌then◌else◌,
}
use anti_river_ten_demo.Prelude.Int.{ℤ, pos, negsuc}
use anti_river_ten_demo.Strings.{Bytes, text, is_empty}
use anti_river_ten_demo.Exec.{Exec, Result, ok, err, pure, total, lift, check, ◌>>=◌, ◌>>◌}
use anti_river_ten_demo.Config.{Config, hour, second}
use anti_river_ten_demo.Db.{User, RefreshToken, DbError, token_before_create}
use anti_river_ten_demo.Auth.{
  Error, invalid_credentials, message, wrapped, Claims, SigningMethod, hmac, other_method, Backend,
  wrap,
}

unfoldable pub hex_digit : ℕ → ℕ
hex_digit d = if ltb d 10 then b'0' + d else b'a' + (d - 10)

-- hex.EncodeToString
unfoldable pub hex : Bytes → Bytes
unfolding hex_digit
hex [] = []
hex (b ∷ s) = hex_digit (b / 16) ∷ hex_digit (b % 16) ∷ hex s

-- A lifetime from the configuration, with the default for one that is not positive.
unfoldable pub ttl_or : ℤ → ℕ → ℕ
ttl_or (pos zero) d = d
ttl_or (pos (suc n)) d = suc n
ttl_or (negsuc n) d = d

-- jwt.NewNumericDate keeps whole seconds.
unfoldable pub numeric_date : ℕ → ℕ
numeric_date t = t - t % second

-- The key function of ParseToken.
unfoldable pub key_func : Bytes → SigningMethod → Option Bytes
key_func secret hmac = some secret
key_func secret other_method = none

unfoldable pub subject_of : Option (Claims × Bool) → Result Error Bytes
subject_of none = err invalid_credentials
subject_of (some (claims, valid)) = if valid then ok claims.subject else err invalid_credentials

abbrev signed_or : Result DbError Bytes → Result Error Bytes
signed_or (ok s) = ok s
signed_or (err e) = err (wrapped (text "sign token") e)

module _ (b : Backend) (cfg : Config) where
  open b use {World, tokens, now, new_uuid, rand_read, sha256, sign_hs256, parse_with_claims}

  -- The hash under which a refresh token is stored.
  unfoldable pub token_hash : Bytes → Bytes
  token_hash plain = hex (sha256 plain)

  unfoldable pub generate_token : User → Exec World Error (Bytes × ℕ)
  unfolding ttl_or numeric_date
  generate_token u = do
    check (not (is_empty cfg.jwt_secret)) (message (text "JWT_SECRET is required"))
    t ← total now
    let exp = t + ttl_or cfg.jwt_ttl (24 * hour)
    issued ← total now
    let claims : Claims = record {
      subject = u.id;
      expires_at = numeric_date exp;
      issued_at = numeric_date issued;
      role = u.role;
    }
    signed ← lift (signed_or (sign_hs256 claims cfg.jwt_secret))
    pure (signed, exp)

  unfoldable pub parse_token : Bytes → World → Result Error Bytes
  unfolding key_func subject_of
  parse_token token w =
      if is_empty cfg.jwt_secret
      then err (message (text "JWT_SECRET is required"))
      else subject_of (parse_with_claims (key_func cfg.jwt_secret) token w)

  -- Create of a refresh token: the hook, then the row.
  unfoldable pub create_token : RefreshToken → Exec World DbError RefreshToken
  unfolding token_before_create
  create_token rt = do rt' ← token_before_create new_uuid rt; tokens.create rt'

  unfoldable pub generate_refresh_token : Bytes → Bytes → Exec World Error (Bytes × ℕ)
  unfolding ttl_or token_hash create_token
  generate_refresh_token user_id role = do
    t ← total now
    let exp = t + ttl_or cfg.refresh_ttl (720 * hour)
    b ← wrap (text "rand") rand_read
    let plain = hex b
    let rt : RefreshToken = record {
      id = [];
      user_id = user_id;
      token_hash = token_hash plain;
      expires_at = exp;
      created_time = 0;
    }
    _ ← wrap (text "store refresh token") (create_token rt)
    pure (plain, exp)
