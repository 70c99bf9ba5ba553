-- ===== src/Config.antt =====
-- internal/config/config.go: the configuration and how it is read from the environment.
use anti_river_ten_demo.Prelude.{
  ℕ, ◌*◌, ◌^◌, Bool, not, Option, none, some, List, [], ◌∷◌, map, filter, if◌then◌else◌,
}
use anti_river_ten_demo.Prelude.Int.{ℤ, pos}
use anti_river_ten_demo.Strings.{Bytes, text, str_eq, is_empty, trim_space, split}
use anti_river_ten_demo.Strconv.{parse_int}

-- Durations are counted in nanoseconds.
abbrev pub second : ℕ
second = 10 ^ 9

abbrev pub hour : ℕ
hour = 3600 * second

pub record Config : Type 0 where
  pub port : Bytes
  pub log_level : Bytes
  pub request_timeout : ℤ
  pub max_body_bytes : ℤ
  pub allowed_origins : List Bytes
  pub env : Bytes
  pub database_url : Bytes
  pub jwt_secret : Bytes
  pub jwt_ttl : ℤ
  pub refresh_ttl : ℤ
  pub openai_api_key : Bytes

-- The environment, and Go's time.ParseDuration with `none` for its error.
pub record Environment : Type 0 where
  pub lookup_env : Bytes → Option Bytes
  pub parse_go_duration : Bytes → Option ℤ

abbrev or_else {ℓ} : {A : Type ℓ} → Option A → A → A
or_else none d = d
or_else (some a) d = a

abbrev non_empty : Bytes → Bool
non_empty s = not (is_empty s)

unfoldable pub parse_int64 : Bytes → ℤ → ℤ
parse_int64 s d = or_else (parse_int s) d

unfoldable pub parse_csv : Bytes → List Bytes
parse_csv s =
    if is_empty (trim_space s) then [] else filter non_empty (map trim_space (split s b','))

-- The rule for an origin list that is not configured.
unfoldable pub default_origins : List Bytes → Bytes → List Bytes
default_origins [] env = if str_eq env (text "production") then [] else text "*" ∷ []
default_origins (o ∷ os) env = o ∷ os

module _ (e : Environment) where
  open e use {lookup_env, parse_go_duration}

  unfoldable pub getenv : Bytes → Bytes → Bytes
  getenv k d = or_else (lookup_env k) d

  unfoldable pub parse_duration : Bytes → ℤ → ℤ
  parse_duration s d = or_else (parse_go_duration s) d

  unfoldable pub from_env : Config
  unfolding getenv parse_duration parse_int64 default_origins
  from_env =
      let env = getenv (text "APP_ENV") (text "development") in
      record {
        port = getenv (text "PORT") (text "8080");
        log_level = getenv (text "LOG_LEVEL") (text "info");
        request_timeout =
            parse_duration (getenv (text "REQUEST_TIMEOUT") (text "30s")) (pos (30 * second));
        max_body_bytes =
            parse_int64 (getenv (text "MAX_BODY_BYTES") (text "1048576")) (pos 1048576);
        allowed_origins = default_origins (parse_csv (getenv (text "ALLOWED_ORIGINS") [])) env;
        env = env;
        database_url = getenv (text "DATABASE_URL") [];
        jwt_secret = getenv (text "JWT_SECRET") [];
        jwt_ttl = parse_duration (getenv (text "JWT_TTL") (text "24h")) (pos (24 * hour));
        refresh_ttl = parse_duration (getenv (text "REFRESH_TTL") (text "720h")) (pos (720 * hour));
        openai_api_key = getenv (text "OPENAI_API_KEY") [];
      }
