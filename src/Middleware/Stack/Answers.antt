-- ===== src/Middleware/Stack/Answers.antt =====
-- internal/http/middleware.go: what the middlewares together make of a handler.
use anti_river_ten_demo.Prelude.{
  ℕ, ◌+◌, ◌≡◌, ◌≢◌, refl, ap, ◌∙◌, ◌⊎◌, Bool, true, false, List, [], ◌∷◌, ◌++◌, ◌==◌, ltb, not,
  ◌&&◌, ◌≤◌, arith, if◌then◌else◌,
}
use anti_river_ten_demo.Prelude.Int.{ℤ}
use anti_river_ten_demo.Strings.{Bytes, text, is_empty}
use anti_river_ten_demo.Middleware.{
  WriterCall, write_header, write, BodyCapture, capture_all, capture_write, capture_write_header,
  new_capture, request_id,
}
use anti_river_ten_demo.Middleware.Stack.{
  HttpRequest, Handler, Ran, LogRecord, http_request, panic_recovered, StatusWriter, status_call,
  status_all, error_page, request_record, get_request_id,
}

-- The status that net/http gives the client for statuses from 100: the first that is set before the
-- body, where one below 200 but 101 is sent for information and another may follow; 200 for none.
unfoldable pub sent_status : List WriterCall → ℕ
sent_status [] = 200
sent_status (write_header code ∷ calls) =
    let rest = sent_status calls in if ltb code 200 && not (code == 101) then rest else code
sent_status (write b n ∷ calls) = 200

module _ {W : Type 0} (rand_read : W → Bytes × W) (r : HttpRequest) (w : W) where
  -- The id of a request: its own, or one from fresh bytes, and the world behind it.
  abbrev pub drawn : Bytes × W
  drawn = if is_empty (r.get (text "X-Request-Id")) then rand_read w else ([], w)

  abbrev pub id_of : Bytes
  id_of = request_id (r.get (text "X-Request-Id")) drawn.0

-- The calls of a handler reach the client, and one record of it is written; a handler that panics
-- gets an error page behind them, and the record of the panic in place of its own.
abbrev pub Answered : HttpRequest → ℤ → Ran → Ran → Type 0
Answered r max_body ran out =
    ((ran.panics ≡ false)
      × (out.calls ≡ ran.calls)
      × (out.logged ≡ ran.logged ++ http_request (request_record max_body r ran) ∷ []))
    ⊎ ((ran.panics ≡ true)
        × (out.calls ≡ ran.calls ++ error_page)
        × (out.logged ≡ ran.logged ++ panic_recovered (get_request_id r) ∷ []))

-- What is the same of two runs but for the headers.
abbrev Alike : Ran → Ran → Type 0
Alike ran out = (out.calls ≡ ran.calls) × (out.panics ≡ ran.panics) × (out.logged ≡ ran.logged)

-- The run of a preflight.
abbrev pub IsPreflight : Ran → Type 0
IsPreflight out = (out.calls ≡ write_header 204 ∷ []) × (out.logged ≡ [])

-- A run behind a middleware that writes a record.
abbrev Recorded : LogRecord → Ran → Ran → Type 0
Recorded rec ran out =
    (out.calls ≡ ran.calls)
    × (out.panics ≡ ran.panics)
    × (((ran.panics ≡ true) × (out.logged ≡ ran.logged))
        ⊎ ((ran.panics ≡ false) × (out.logged ≡ ran.logged ++ rec ∷ [])))

module _ {W : Type 0} (rand_read : W → Bytes × W) (fold : Bytes → Bytes → Bool)
    (allowed : List Bytes) (max_body : ℤ) (mux : Handler W) where
  -- What a request gets: the run of a preflight, or of the handler.
  abbrev pub Served : HttpRequest → W → Ran × W → Type 0
  Served r w out =
      (out.0.panics ≡ false)
      × (((r.method ≡ text "OPTIONS") × IsPreflight out.0 × (out.1 ≡ w))
          ⊎ (Answered r max_body (mux r w).0 out.0 × (out.1 ≡ (mux r w).1)))

-- Only the first call of the writer may set a status, a final one that net/http takes.
abbrev pub Writes : List WriterCall → Type 0
Writes [] = Unit
Writes (write_header code ∷ calls) = ⊥
Writes (write b n ∷ calls) = Writes calls

abbrev pub IsPlain : List WriterCall → Type 0
IsPlain [] = ⊥
IsPlain (write_header code ∷ calls) = (200 ≤ code) × (code ≤ 999) × Writes calls
IsPlain (write b n ∷ calls) = Writes calls

status-Writes :
    (calls : List WriterCall) (c : BodyCapture)
    → Writes calls
    → c.status ≢ 0
    → (capture_all calls c).status ≡ c.status
unfolding capture_all capture_write
status-Writes [] c h nonzero = refl
status-Writes (write_header code ∷ calls) c h nonzero = absurd h
status-Writes (write b n ∷ calls) c h nonzero =
    let kept : (if c.status == 0 then 200 else c.status) ≡ c.status = ground arith in
    status-Writes calls _ h (λ e. nonzero (cc (kept, e))) ∙ kept

-- The status in the log is the one that the client gets, for a handler that writes something, sets
-- a status first if at all, and one from 200 to 999.
pub capture-sent_status :
    (max_body : ℤ) (calls : List WriterCall)
    → IsPlain calls
    → (capture_all calls (new_capture max_body)).status ≡ sent_status calls
unfolding capture_all capture_write capture_write_header new_capture sent_status
capture-sent_status max_body [] h = absurd h
capture-sent_status max_body (write_header code ∷ calls) (final, most, h) =
    let low : ltb code 200 ≡ false = ground (arith, final) in
    rw low (status-Writes calls _ h (λ e. omega (arith, final, e)))
capture-sent_status max_body (write b n ∷ calls) h = status-Writes calls _ h (λ e. omega arith)

-- The statusWriter of withLogging and the writer of withRequestLogging count alike.
status_capture :
    (calls : List WriterCall) (c : BodyCapture) (s : StatusWriter)
    → c.status ≡ s.status
    → c.size ≡ s.size
    → ((capture_all calls c).status ≡ (status_all calls s).status)
      × ((capture_all calls c).size ≡ (status_all calls s).size)
unfolding capture_all capture_write capture_write_header status_all status_call
status_capture [] c s e f = (e, f)
status_capture (write_header code ∷ calls) c s e f = status_capture calls _ _ refl f
status_capture (write b n ∷ calls) c s e f =
    status_capture calls _ _ (rw e refl) (ap (λ z. z + n) f)
