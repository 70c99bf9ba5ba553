-- ===== src/Handlers/Upload/Counts.antt =====
-- internal/http/handlers/sqllog_upload.go: the counts of an upload.
use anti_river_ten_demo.Prelude.{
  ℕ, suc, ◌+◌, ◌≤◌, ◌≡◌, refl, subst, Option, none, some, List, [], ◌∷◌, arith, length,
  length-append, Option-cases, inl, inr,
}
use anti_river_ten_demo.Strings.{Bytes}
use anti_river_ten_demo.Exec.{Result, ok, err}
use anti_river_ten_demo.Sqllog.{SqlLog}
use anti_river_ten_demo.Sqllog.Parser.{
  ParseError, StreamError, StreamEnd, finished, cancelled, scan_failed, ScannedLine, parse_line,
  parse_step, parse_stream,
}
use anti_river_ten_demo.Handlers.Upload.{Tally, new_tally, on_entry, on_error, upload_stream}

-- Every counted line is an entry or skipped; the errors are at most 20 and at most the skipped
-- lines.
pub record Balanced (t : Tally) : Type 0 where
  pub counted : t.total ≡ length t.entries + t.skipped
  pub bounded : length t.errs ≤ 20
  pub reported : length t.errs ≤ t.skipped

module _ (error_text : StreamError → Bytes) where
  on_entry-Balanced : (rec : SqlLog) (t : Tally) → Balanced t → Balanced (on_entry rec t).1
  unfolding on_entry
  on_entry-Balanced rec t h = record {
    counted = omega (arith, h.counted, length-append t.entries (rec ∷ []));
    bounded = h.bounded;
    reported = h.reported;
  }

  on_error-Balanced :
      (e : StreamError) (t : Tally) → Balanced t → Balanced (on_error error_text e t)
  unfolding on_error
  on_error-Balanced e t h = record {
    counted = omega (arith, h.counted);
    bounded = ground (arith, h.bounded, length-append t.errs (error_text e ∷ []));
    reported = ground (arith, h.reported, length-append t.errs (error_text e ∷ []));
  }

  step-Balanced :
      (l : Bytes) (res : Result ParseError SqlLog) (t : Tally)
      → Balanced t
      → Balanced (parse_step on_entry (on_error error_text) l res t)
        × ((parse_step on_entry (on_error error_text) l res t).total ≡ suc t.total)
  unfolding parse_step on_entry on_error
  step-Balanced l (ok rec) t h = (on_entry-Balanced rec t h, refl)
  step-Balanced l (err e) t h = (on_error-Balanced _ t h, refl)

  -- How many lines were read, and whether all were.
  abbrev pub Read : ℕ → ℕ → StreamEnd → Type 0
  Read lines total finished = total ≡ lines
  Read lines total (cancelled e) = total ≤ lines
  Read lines total (scan_failed e) = total ≡ lines

  stream-Balanced :
      (lines : List ScannedLine) (failure : Option Bytes) (t : Tally)
      → Balanced t
      → Balanced (parse_stream on_entry (on_error error_text) lines failure t).1
        × Read
            (t.total + length lines)
            (parse_stream on_entry (on_error error_text) lines failure t).1.total
            (parse_stream on_entry (on_error error_text) lines failure t).0
  unfolding parse_stream
  stream-Balanced [] none t h = (h, omega arith)
  stream-Balanced [] (some e) t h = (h, omega arith)
  stream-Balanced (l ∷ ls) failure t h = elim (Option-cases l.done) [
    | inr (c, e) ↦ rw e (h, omega arith)
    | inl e ↦
        let t' = parse_step on_entry (on_error error_text) l.line (parse_line l.line) t in
        let (h', one) = step-Balanced l.line (parse_line l.line) t h in
        let (kept, read) = stream-Balanced ls failure t' h' in
        let sum : t'.total + length ls ≡ t.total + suc (length ls) = omega (arith, one) in
        rw e (
          kept,
          subst
              (λ n.
                Read n (parse_stream on_entry (on_error error_text) ls failure t').1.total
                  (parse_stream on_entry (on_error error_text) ls failure t').0)
              sum read,
        )
  ]

  -- After the stream of an upload the total is the number of lines that were read: all of them
  -- unless the request was cancelled. Each is an entry to insert or skipped, so none is lost, and
  -- the response lists at most 20 errors and no more than there are skipped lines.
  pub upload_stream-Balanced :
      (lines : List ScannedLine) (failure : Option Bytes)
      → Balanced (upload_stream error_text lines failure).1
        × Read
            (length lines)
            (upload_stream error_text lines failure).1.total
            (upload_stream error_text lines failure).0
  unfolding upload_stream
  upload_stream-Balanced lines failure =
      let start : Balanced new_tally = record {
        counted = refl;
        bounded = omega arith;
        reported = omega arith;
      } in
      let (kept, read) = stream-Balanced lines failure new_tally start in
      let sum : 0 + length lines ≡ length lines = omega arith in
      (
        kept,
        subst
            (λ n.
              Read n (parse_stream on_entry (on_error error_text) lines failure new_tally).1.total
                (parse_stream on_entry (on_error error_text) lines failure new_tally).0)
            sum read,
      )
