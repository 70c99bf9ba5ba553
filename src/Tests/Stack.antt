-- ===== src/Tests/Stack.antt =====
-- The properties of the middlewares around the routes, and of RequireRoles, at concrete inputs.
use anti_river_ten_demo.Prelude.{◌≡◌, ℕ, suc, true, false, none, List, [], ◌∷◌, arith}
use anti_river_ten_demo.Prelude.Int.{pos}
use anti_river_ten_demo.Strings.{Bytes, text}
use anti_river_ten_demo.Handlers.{json, Request}
use anti_river_ten_demo.Handlers.Roles.{Step, reply_of}
use anti_river_ten_demo.Middleware.{WriterCall, write_header, write, capture_all, new_capture}
use anti_river_ten_demo.Middleware.Stack.{HttpRequest, Handler}
use anti_river_ten_demo.Middleware.Stack.Answers.{sent_status, capture-sent_status}
use anti_river_ten_demo.Tests.Data.{request}

abbrev counter : ℕ → Bytes × ℕ
counter n = (n ∷ [], suc n)

-- A handler that writes half a page and then panics.
abbrev failing : Handler ℕ
failing r w = (
  record {
    headers = [];
    calls = write (text "half") 4 ∷ [];
    reads = [];
    panics = true;
    logged = [];
  },
  w,
)

abbrev get_request : HttpRequest
get_request = record {
  method = text "GET";
  path = text "/v1/auth/me";
  remote = text "127.0.0.1";
  header = [];
  get = λ name. [];
  body = false;
  id = none;
}

abbrev page : List WriterCall
page = write_header 201 ∷ write (text "created") 7 ∷ []

capture-sent_status_example : (capture_all page (new_capture (pos 16))).status ≡ sent_status page
capture-sent_status_example = capture-sent_status (pos 16) page (omega arith, omega arith, tt)

abbrev two_steps : List (Step ℕ Bytes)
two_steps = reply_of (json 200 (text "first")) ∷ reply_of (json 200 (text "second")) ∷ []

abbrev plain_request : Request
plain_request = request (text "GET") (text "/v1/sql-logs/report.csv") []
