-- ===== src/Middleware.antt =====
-- internal/http/middleware.go: the middleware around all routes. The log record that
-- withRequestLogging writes is what its parts here have captured; time and the request's address
-- are not part of it.
pub mod Capture
pub mod Cors
pub mod Stack
use anti_river_ten_demo.Prelude.{
  ℕ, zero, suc, ◌+◌, ◌-◌, Bool, true, false, not, ◌&&◌, ◌||◌, Option, none, some, List, [], ◌∷◌,
  ◌++◌, map, any, ltb, ◌==◌, length, take, if◌then◌else◌,
}
use anti_river_ten_demo.Prelude.Int.{ℤ, pos, negsuc}
use anti_river_ten_demo.Strings.{Bytes, text, str_eq, is_empty, to_lower, trim_space, join}
use anti_river_ten_demo.Auth.Tokens.{hex}

-- A bodyCaptureWriter, without the writer that it wraps.
pub record BodyCapture : Type 0 where
  pub status : ℕ
  pub size : ℕ
  pub max : ℕ
  pub buf : Bytes

-- The cap of withRequestLogging: the default for one that is not positive.
unfoldable pub body_cap : ℤ → ℕ
body_cap (pos zero) = 4096
body_cap (pos (suc n)) = suc n
body_cap (negsuc n) = 4096

unfoldable pub new_capture : ℤ → BodyCapture
unfolding body_cap
new_capture max_body = record { status = 0; size = 0; max = body_cap max_body; buf = [] }

unfoldable pub capture_write_header : ℕ → BodyCapture → BodyCapture
capture_write_header code c = record c { status = code }

-- The bytes that are captured of a write.
unfoldable pub captured : ℕ → Bytes → Bytes → Bytes
captured max buf b =
    if ltb (length buf) max
    then (let remain = max - length buf in
        if ltb 0 remain
        then (if ltb remain (length b) then buf ++ take remain b else buf ++ b)
        else buf)
    else buf

-- Write: `n` is the count that the wrapped writer returns.
unfoldable pub capture_write : Bytes → ℕ → BodyCapture → BodyCapture
unfolding captured
capture_write b n c = record {
  status = if c.status == 0 then 200 else c.status;
  size = c.size + n;
  max = c.max;
  buf = captured c.max c.buf b;
}

-- What a handler does to the writer.
pub data WriterCall : Type 0 where
  write_header : ℕ → WriterCall
  write : Bytes → ℕ → WriterCall

unfoldable pub capture_all : List WriterCall → BodyCapture → BodyCapture
unfolding capture_write_header capture_write
capture_all [] c = c
capture_all (write_header code ∷ calls) c = capture_all calls (capture_write_header code c)
capture_all (write b n ∷ calls) c = capture_all calls (capture_write b n c)

-- A teeReadCloser, without the reader that it wraps.
pub record TeeReader : Type 0 where
  pub buf : Bytes
  pub max : ℕ
  pub cur : ℕ

-- Read: `p` is what the wrapped reader has put into the buffer, p[:n].
unfoldable pub tee_read : Bytes → TeeReader → TeeReader
tee_read p t =
    if ltb 0 (length p) && ltb t.cur t.max
    then (let remain = t.max - t.cur in
        let cp = if ltb remain (length p) then remain else length p in
        record { buf = t.buf ++ take cp p; max = t.max; cur = t.cur + cp })
    else t

unfoldable pub tee_all : List Bytes → TeeReader → TeeReader
unfolding tee_read
tee_all [] t = t
tee_all (p ∷ reads) t = tee_all reads (tee_read p t)

-- A header with its values, one pair for each key of the map.
abbrev pub Header : Type 0
Header = List (Bytes × List Bytes)

unfoldable pub is_sensitive : Bytes → Bool
is_sensitive k =
    let lk = to_lower k in
    str_eq lk (text "authorization")
    || str_eq lk (text "cookie")
    || str_eq lk (text "set-cookie")
    || str_eq lk (text "x-api-key")

unfoldable pub sanitize_headers : Header → List (Bytes × Bytes)
unfolding is_sensitive
sanitize_headers [] = []
sanitize_headers ((k, v) ∷ h) =
    (k, if is_sensitive k then text "***" else join v (text ",")) ∷ sanitize_headers h

-- The id of a request: its header, or a fresh one from 16 random bytes.
unfoldable pub gen_id : Bytes → Bytes
unfolding hex
gen_id random = hex random

unfoldable pub request_id : Bytes → Bytes → Bytes
unfolding gen_id
request_id header random = if is_empty header then gen_id random else header

-- `fold` is strings.EqualFold, whose Unicode tables are not modelled.
unfoldable pub is_allowed_origin : (Bytes → Bytes → Bool) → Bytes → List Bytes → Bool
is_allowed_origin fold origin allowed = any (λ a. fold (trim_space a) origin) allowed

abbrev pub allows_any : List Bytes → Bool
allows_any [] = false
allows_any (a ∷ allowed) = str_eq a (text "*")

unfoldable pub allowed_match : (Bytes → Bytes → Bool) → List Bytes → Bytes → Bool
unfolding is_allowed_origin
allowed_match fold allowed origin =
    not (is_empty origin) && (allows_any allowed || is_allowed_origin fold origin allowed)

-- What withCORS reads of a request.
pub record CorsRequest : Type 0 where
  pub method : Bytes
  pub origin : Bytes
  pub request_headers : Bytes

-- The headers that withCORS sets, in order.
unfoldable pub cors_headers :
    (Bytes → Bytes → Bool) → List Bytes → CorsRequest → List (Bytes × Bytes)
unfolding allowed_match
cors_headers fold allowed r =
    (text "Vary", text "Origin")
    ∷ (text "Vary", text "Access-Control-Request-Headers")
    ∷ (if allowed_match fold allowed r.origin
        then (text "Access-Control-Allow-Origin", r.origin)
          ∷ (text "Access-Control-Allow-Credentials", text "true")
          ∷ (text "Access-Control-Allow-Methods", text "GET,POST,PUT,PATCH,DELETE,OPTIONS")
          ∷ (
            text "Access-Control-Allow-Headers",
            if is_empty r.request_headers
                then text "Content-Type, Authorization"
                else r.request_headers,
          )
          ∷ (text "Access-Control-Max-Age", text "86400")
          ∷ []
        else [])

-- Whether the request goes on to the next handler, or is answered with 204.
unfoldable pub cors_passes : CorsRequest → Bool
cors_passes r = not (str_eq r.method (text "OPTIONS"))

module _ {A : Type 0} where
  -- chain: the first middleware is the outermost.
  unfoldable pub chain : A → List (A → A) → A
  chain h [] = h
  chain h (m ∷ ms) = m (chain h ms)
