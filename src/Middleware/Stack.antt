-- ===== src/Middleware/Stack.antt =====
-- internal/http/middleware.go: the four middlewares around the routes, in the order in which
-- internal/http/router.go composes them, withLogging, which it does not use, and the probes of
-- internal/http/handlers/health.go. A handler is described by what it does: the headers that it
-- sets, its calls of the writer, its reads of the body, and whether it panics at the end.
pub mod Answers
use anti_river_ten_demo.Prelude.{
  ℕ, ◌+◌, Bool, true, false, not, ◌&&◌, Option, none, some, List, [], ◌∷◌, ◌++◌, ◌==◌, length,
  if◌then◌else◌,
}
use anti_river_ten_demo.Prelude.Int.{ℤ}
use anti_river_ten_demo.Strings.{Bytes, text, is_empty, str_eq}
use anti_river_ten_demo.Middleware.{
  WriterCall, write_header, write, capture_all, new_capture, TeeReader, tee_all, body_cap, Header,
  sanitize_headers, request_id, CorsRequest, cors_headers, cors_passes, chain,
}

-- `body` is whether there is one, `id` what withRequestID has put into the context.
pub record HttpRequest : Type 0 where
  pub method : Bytes
  pub path : Bytes
  pub remote : Bytes
  pub header : Header
  pub get : Bytes → Bytes
  pub body : Bool
  pub id : Option Bytes

-- A record of the log: "http_request", "panic recovered", or "request".
pub record RequestRecord : Type 0 where
  pub method : Bytes
  pub path : Bytes
  pub status : ℕ
  pub resp_size : ℕ
  pub remote : Bytes
  pub id : Bytes
  pub req_headers : List (Bytes × Bytes)
  pub req_body : Bytes
  pub resp_body : Bytes

pub data LogRecord : Type 0 where
  http_request : RequestRecord → LogRecord
  panic_recovered : Bytes → LogRecord
  request_line : Bytes → Bytes → ℕ → ℕ → Bytes → Bytes → LogRecord

-- What has happened on a writer when a handler is done.
pub record Ran : Type 0 where
  pub headers : List (Bytes × Bytes)
  pub calls : List WriterCall
  pub reads : List Bytes
  pub panics : Bool
  pub logged : List LogRecord

abbrev pub Handler : Type 0 → Type 0
Handler W = HttpRequest → W → Ran × W

-- getRequestID
abbrev pub get_request_id : HttpRequest → Bytes
get_request_id r = elim r.id [ none ↦ [] | some id ↦ id ]

-- A statusWriter, without the writer that it wraps.
pub record StatusWriter : Type 0 where
  pub status : ℕ
  pub size : ℕ

unfoldable pub status_call : WriterCall → StatusWriter → StatusWriter
status_call (write_header code) s = record s { status = code }
status_call (write b n) s = record {
  status = if s.status == 0 then 200 else s.status;
  size = s.size + n;
}

unfoldable pub status_all : List WriterCall → StatusWriter → StatusWriter
unfolding status_call
status_all [] s = s
status_all (call ∷ calls) s = status_all calls (status_call call s)

-- http.Error(w, "Internal Server Error", 500), without the headers that it sets.
abbrev pub error_page : List WriterCall
error_page =
    let page = text "Internal Server Error\n" in write_header 500 ∷ write page (length page) ∷ []

abbrev pub id_request : HttpRequest → Bytes → HttpRequest
id_request r id = record r { id = some id }

-- The deferred function of withRecover, if there is a panic.
abbrev pub recovered_if : Bool → HttpRequest → Ran → Ran
recovered_if true r ran = record ran {
  calls = ran.calls ++ error_page;
  panics = false;
  logged = ran.logged ++ panic_recovered (get_request_id r) ∷ [];
}
recovered_if false r ran = ran

unfoldable pub recovered : HttpRequest → Ran → Ran
recovered r ran = recovered_if ran.panics r ran

-- A panic leaves the middleware before its record is written.
abbrev pub recorded_if : Bool → LogRecord → Ran → Ran
recorded_if true rec ran = ran
recorded_if false rec ran = record ran { logged = ran.logged ++ rec ∷ [] }

abbrev cors_part : HttpRequest → CorsRequest
cors_part r = record {
  method = r.method;
  origin = r.get (text "Origin");
  request_headers = r.get (text "Access-Control-Request-Headers");
}

abbrev preflight : Ran
preflight = record {
  headers = [];
  calls = write_header 204 ∷ [];
  reads = [];
  panics = false;
  logged = [];
}

-- What is logged of a request when the handler has returned.
unfoldable pub request_record : ℤ → HttpRequest → Ran → RequestRecord
request_record max_body r ran =
    let seen = capture_all ran.calls (new_capture max_body) in
    let tee : TeeReader = record { buf = []; max = body_cap max_body; cur = 0 } in
    record {
      method = r.method;
      path = r.path;
      status = seen.status;
      resp_size = seen.size;
      remote = r.remote;
      id = get_request_id r;
      req_headers = sanitize_headers r.header;
      req_body = if r.body then (tee_all ran.reads tee).buf else [];
      resp_body = seen.buf;
    }

abbrev says : Bytes → Ran
says s = record {
  headers = [];
  calls = write_header 200 ∷ write s (length s) ∷ [];
  reads = [];
  panics = false;
  logged = [];
}

module _ {W : Type 0} where
  abbrev pub id_header : Bytes × Bytes → Ran × W → Ran × W
  id_header h (ran, w) = (record ran { headers = h ∷ ran.headers }, w)

  -- The 16 bytes of crypto/rand are read only if the request has no id.
  unfoldable pub with_request_id : (W → Bytes × W) → Handler W → Handler W
  with_request_id rand_read next r w =
      let given = r.get (text "X-Request-Id") in
      let drawn = if is_empty given then rand_read w else ([], w) in
      let id = request_id given drawn.0 in
      id_header (text "X-Request-Id", id) (next (id_request r id) drawn.1)

  unfoldable pub with_recover : Handler W → Handler W
  unfolding recovered
  with_recover next r w = let (ran, w') = next r w in (recovered r ran, w')

  abbrev put_headers : List (Bytes × Bytes) → Ran × W → Ran × W
  put_headers h (ran, w) = (record ran { headers = h ++ ran.headers }, w)

  unfoldable pub with_cors : (Bytes → Bytes → Bool) → List Bytes → Handler W → Handler W
  with_cors fold allowed next r w =
      put_headers (cors_headers fold allowed (cors_part r))
        (if cors_passes (cors_part r) then next r w else (preflight, w))

  unfoldable pub with_request_logging : ℤ → Handler W → Handler W
  unfolding request_record
  with_request_logging max_body next r w =
      let (ran, w') = next r w in
      (recorded_if ran.panics (http_request (request_record max_body r ran)) ran, w')

  unfoldable pub with_logging : Handler W → Handler W
  unfolding status_all
  with_logging next r w =
      let (ran, w') = next r w in
      let s = status_all ran.calls (record { status = 0; size = 0 }) in
      (
        recorded_if ran.panics
            (request_line r.method r.path s.status s.size r.remote (get_request_id r)) ran,
        w',
      )

  -- The composition at the end of NewRouter.
  unfoldable pub stack :
      (W → Bytes × W) → (Bytes → Bytes → Bool) → List Bytes → ℤ → Handler W → Handler W
  unfolding chain with_request_id with_recover with_cors with_request_logging
  stack rand_read fold allowed max_body mux = chain mux (
      with_request_id rand_read
      ∷ with_recover
      ∷ with_cors fold allowed
      ∷ with_request_logging max_body
      ∷ [])

  unfoldable pub healthz : Handler W
  healthz r w = (says (text "ok"), w)

  unfoldable pub readyz : Handler W
  readyz r w = (says (text "ready"), w)
