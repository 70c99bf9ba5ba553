-- ===== src/Middleware/Capture.antt =====
-- internal/http/middleware.go: what the log has of the bodies.
use anti_river_ten_demo.Prelude.{
  ℕ, zero, suc, ◌+◌, ◌-◌, ◌≤◌, ◌≡◌, refl, sym, ap, ◌∙◌, List, [], ◌∷◌, ◌++◌, arith, inl, inr,
  length, take, take_all, take-append_left, take-append_right, take-nil, length-append, length-take,
  append_assoc, append-nil, ◌⊎◌, ◌<◌,
}
use anti_river_ten_demo.Prelude.Int.{ℤ, pos, negsuc}
use anti_river_ten_demo.Strings.{Bytes}
use anti_river_ten_demo.Middleware.{
  BodyCapture, body_cap, new_capture, captured, capture_write_header, capture_write, capture_all,
  WriterCall, write_header, write, TeeReader, tee_read, tee_all,
}

ltb-cases : (a b : ℕ) → (a < b) ⊎ (b ≤ a)
ltb-cases a b = omega arith

-- A capture that has a beginning of the bytes so far has a beginning of them and the next ones.
captured-take : (max : ℕ) (s b : Bytes) → captured max (take max s) b ≡ take max (s ++ b)
unfolding captured
captured-take max s b = elim (ltb-cases (length s) max) [
  | inl room ↦
      rw (take_all max s (omega arith), take-append_right max s b (omega arith))
        (ground (arith, take_all (max - length s) b))
  | inr full ↦ rw (take-append_left max s b full) (ground (arith, length-take max s))
]

-- All that is written, and the counts that the wrapped writer has returned.
unfoldable pub written : List WriterCall → Bytes
written [] = []
written (write_header code ∷ calls) = written calls
written (write b n ∷ calls) = b ++ written calls

unfoldable pub returned : List WriterCall → ℕ
returned [] = 0
returned (write_header code ∷ calls) = returned calls
returned (write b n ∷ calls) = n + returned calls

capture_all-buf :
    (calls : List WriterCall) (c : BodyCapture) (s : Bytes)
    → c.buf ≡ take c.max s
    → (capture_all calls c).buf ≡ take c.max (s ++ written calls)
unfolding capture_all capture_write capture_write_header written
capture_all-buf [] c s h = rw (append-nil s) h
capture_all-buf (write_header code ∷ calls) c s h = capture_all-buf calls _ s h
capture_all-buf (write b n ∷ calls) c s h =
    capture_all-buf calls _ (s ++ b) (rw h (captured-take c.max s b)) ∙ rw (append_assoc s b)

capture_all-size :
    (calls : List WriterCall) (c : BodyCapture)
    → (capture_all calls c).size ≡ c.size + returned calls
unfolding capture_all capture_write capture_write_header returned
capture_all-size [] c = omega arith
capture_all-size (write_header code ∷ calls) c = capture_all-size calls _
capture_all-size (write b n ∷ calls) c = omega (arith, capture_all-size calls (capture_write b n c))

body_cap_positive : (m : ℤ) → 1 ≤ body_cap m
unfolding body_cap
body_cap_positive (pos zero) = omega arith
body_cap_positive (pos (suc n)) = omega arith
body_cap_positive (negsuc n) = omega arith

-- The response body in the log is the first bytes of all that the handler has written, as many as
-- the cap allows, whatever the calls of the writer were; the logged size is the sum of the counts
-- that the connection has taken, and the cap is not 0.
pub capture_all_lem :
    (max_body : ℤ) (calls : List WriterCall)
    → ((capture_all calls (new_capture max_body)).buf ≡ take (body_cap max_body) (written calls))
      × ((capture_all calls (new_capture max_body)).size ≡ returned calls)
      × (1 ≤ body_cap max_body)
unfolding new_capture
capture_all_lem max_body calls = (
  capture_all-buf calls (new_capture max_body) [] (sym (take-nil (body_cap max_body))),
  omega (arith, capture_all-size calls (new_capture max_body)),
  body_cap_positive max_body,
)

abbrev pub concat_reads : List Bytes → Bytes
concat_reads [] = []
concat_reads (p ∷ reads) = p ++ concat_reads reads

tee_read-max : (p : Bytes) (t : TeeReader) → (tee_read p t).max ≡ t.max
unfolding tee_read
tee_read-max p t = ground arith

tee_read-cur :
    (p : Bytes) (t : TeeReader)
    → t.cur ≡ length t.buf
    → (tee_read p t).cur ≡ length (tee_read p t).buf
unfolding tee_read
tee_read-cur p t k = ground (
  arith,
  length-append t.buf (take (t.max - t.cur) p),
  length-take (t.max - t.cur) p,
  length-append t.buf (take (length p) p),
  length-take (length p) p,
)

-- A read keeps what a write of the same bytes would.
tee_read-buf :
    (p : Bytes) (t : TeeReader) → t.cur ≡ length t.buf → (tee_read p t).buf ≡ captured t.max t.buf p
unfolding tee_read captured
tee_read-buf [] t k = ground (arith, append-nil t.buf)
tee_read-buf (c ∷ p) t k = ground (arith, take_all (length (c ∷ p)) (c ∷ p))

tee_all-buf :
    (reads : List Bytes) (t : TeeReader) (s : Bytes)
    → t.cur ≡ length t.buf
    → t.buf ≡ take t.max s
    → (tee_all reads t).buf ≡ take t.max (s ++ concat_reads reads)
unfolding tee_all
tee_all-buf [] t s k h = rw (append-nil s) h
tee_all-buf (p ∷ reads) t s k h =
    let kept : (tee_read p t).buf ≡ take t.max (s ++ p) =
      tee_read-buf p t k ∙ rw h (captured-take t.max s p) in
    let kept' : (tee_read p t).buf ≡ take (tee_read p t).max (s ++ p) =
      kept ∙ ap (λ m. take m (s ++ p)) (sym (tee_read-max p t)) in
    tee_all-buf reads (tee_read p t) (s ++ p) (tee_read-cur p t k) kept'
    ∙ ap (λ m. take m ((s ++ p) ++ concat_reads reads)) (tee_read-max p t)
    ∙ rw (append_assoc s p)

-- The request body in the log is the first bytes that the handler has read, up to the cap, however
-- the body was cut into reads.
pub tee_all_lem :
    (max : ℕ) (reads : List Bytes)
    → (tee_all reads (record { buf = []; max = max; cur = 0 })).buf ≡ take max (concat_reads reads)
tee_all_lem max reads = tee_all-buf reads _ [] refl (sym (take-nil max))
