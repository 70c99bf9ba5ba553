-- ===== src/Handlers/Upload/Outcome.antt =====
-- internal/http/handlers/sqllog_upload.go: what an upload answers and what it has stored then.
use anti_river_ten_demo.Prelude.{
  ℕ, suc, ◌+◌, ◌≤◌, ◌≡◌, refl, Option, none, List, [], ◌∷◌, arith, length, All, All-append,
  Bool-cases, inl, inr, ◌⊎◌,
}
use anti_river_ten_demo.Strings.{Bytes, text}
use anti_river_ten_demo.Exec.{Exec, Result, ok, err, pure, lift, catch, ◌>>=◌, continue, fail_with}
use anti_river_ten_demo.Db.{DbError}
use anti_river_ten_demo.Handlers.{Reply, plain_error, error_envelope, json, no_body, finish}
use anti_river_ten_demo.Handlers.Upload.{
  Tally, new_tally, on_entry, on_error, upload_stream, FormFile, Form, invalid_form, missing_file,
  form_file, UploadResp, bad_upload, bad_extension, bad_content_type, file_of, is_log_name,
  is_text_type, validate_upload, stream_result, upload_resp, insert_failed, insert_entries,
  upload_handler,
}
use anti_river_ten_demo.Handlers.Upload.Counts.{upload_stream-Balanced}
use anti_river_ten_demo.Sqllog.{SqlLog}
use anti_river_ten_demo.Sqllog.Parser.{
  StreamError, StreamEnd, finished, cancelled, scan_failed, canceled, deadline_exceeded,
  ScannedLine,
}
use anti_river_ten_demo.Sqllog.Parser.Sound.{IsFilled, parse_stream-keeps}
use anti_river_ten_demo.Sqllog.Repo.{LogStore, RepoError, missing_from, insert_batch}

-- The repository finds nothing missing in filled records.
missing_from-IsFilled : (i : ℕ) (xs : List SqlLog) → All IsFilled xs → missing_from i xs ≡ none
unfolding missing_from
missing_from-IsFilled i [] h = refl
missing_from-IsFilled i (x ∷ xs) (f, h) = rw (f.name, f.query, missing_from-IsFilled (suc i) xs h)

validate_upload-cases :
    (file : FormFile)
    → (validate_upload file ≡ ok tt) ⊎ ((m : Bytes) × (validate_upload file ≡ err (bad_upload m)))
unfolding validate_upload
validate_upload-cases file = elim (Bool-cases (is_log_name file.filename)) [
  | inr e ↦ inr (bad_extension file, rw e)
  | inl e ↦ elim (Bool-cases (is_text_type file.content_type)) [
    | inl f ↦ inl (rw (e, f))
    | inr f ↦ inr (bad_content_type file, rw (e, f))
  ]
]

stream_result-cases :
    (end : StreamEnd)
    → (stream_result end ≡ ok tt) ⊎ ((m : Bytes) × (stream_result end ≡ err (bad_upload m)))
unfolding stream_result
stream_result-cases finished = inl refl
stream_result-cases (cancelled canceled) = inl refl
stream_result-cases (cancelled deadline_exceeded) = inr (_, refl)
stream_result-cases (scan_failed e) = inr (_, refl)

module _ (b : LogStore) where
  open b use {World, create_in_batches}

  -- Nothing is written for no records; others are written at once.
  abbrev pub StoredBy : List SqlLog → World → World → Type 0
  StoredBy [] w w' = w' ≡ w
  StoredBy (e ∷ es) w w' = create_in_batches (e ∷ es) 500 w ≡ (ok tt, w')

  pub insert_batch-IsFilled :
      (e : SqlLog) (es : List SqlLog) (w : World)
      → All IsFilled (e ∷ es)
      → insert_batch b (e ∷ es) w ≡ catch RepoError.database (create_in_batches (e ∷ es) 500) w
  unfolding insert_batch
  insert_batch-IsFilled e es w h = rw (insert_batch, missing_from-IsFilled 0 (e ∷ es) h)

module _ (b : LogStore) (repo_text : RepoError → Bytes) (error_text : StreamError → Bytes) where
  open b use {World, create_in_batches}

  -- The answer to a form and the world behind it.
  unfoldable pub Uploaded : Form → World → Reply UploadResp → World → Type 0
  Uploaded form w (json code resp) w' =
      (code ≡ 200)
      × (file : FormFile) × (form ≡ form_file file)
      × StoredBy b (upload_stream error_text file.lines file.failure).1.entries w w'
      × (resp.inserted ≡ length (upload_stream error_text file.lines file.failure).1.entries)
      × (resp.total_lines ≡ resp.inserted + resp.skipped)
      × (length resp.errors ≤ 20)
  Uploaded form w (error_envelope code c m) w' =
      ((code ≡ 400) × (w' ≡ w))
      ⊎ ((code ≡ 500)
          × (xs : List SqlLog) × (e : DbError) × (create_in_batches xs 500 w ≡ (err e, w')))
  Uploaded form w (plain_error code m) w' = ⊥
  Uploaded form w (no_body code) w' = ⊥

  entries-IsFilled :
      (lines : List ScannedLine) (failure : Option Bytes)
      → All IsFilled (upload_stream error_text lines failure).1.entries
  unfolding upload_stream on_entry on_error
  entries-IsFilled lines failure =
      parse_stream-keeps on_entry (on_error error_text) (λ t. All IsFilled t.entries)
        (λ rec t f h. All-append IsFilled t.entries (rec ∷ []) h (f, tt)) (λ e t h. h) lines failure
        new_tally tt

  abbrev Inserted : List SqlLog → World → Result (Reply UploadResp) ℕ × World → Type 0
  Inserted xs w (ok n, w') = (n ≡ length xs) × StoredBy b xs w w'
  Inserted xs w (err r, w') =
      (m : Bytes) × (r ≡ error_envelope 500 (text "internal_error") m)
      × (e : DbError) × (create_in_batches xs 500 w ≡ (err e, w'))

  abbrev Batch : Type 0
  Batch = Result DbError (Unit {0}) × World

  batch-Inserted :
      (e : SqlLog) (es : List SqlLog) (w : World) (o : Batch)
      → create_in_batches (e ∷ es) 500 w ≡ o
      → Inserted (e ∷ es) w (
          continue
            (fail_with (insert_failed b repo_text) (fail_with RepoError.database o.0))
            (λ u. pure (length (e ∷ es)))
            o.1)
  unfolding pure
  batch-Inserted e es w (ok _, w') h = (refl, h)
  batch-Inserted e es w (err d, w') h = (_, refl, d, h)

  insert_entries-Inserted :
      (xs : List SqlLog) (w : World)
      → All IsFilled xs
      → Inserted xs w (insert_entries b repo_text xs w)
  unfolding insert_entries catch ◌>>=◌ pure
  insert_entries-Inserted [] w h = (refl, refl)
  insert_entries-Inserted (e ∷ es) w h =
      rw (Inserted, insert_batch-IsFilled b e es w h)
        (batch-Inserted e es w (create_in_batches (e ∷ es) 500 w) refl)

  abbrev answer :
      FormFile → Tally → Exec World (Reply UploadResp) ℕ → World → Reply UploadResp × World
  answer file t m = finish (m >>= λ n. pure (json 200 (upload_resp file t n)))

  answer-Uploaded :
      (file : FormFile) (w : World) (o : Result (Reply UploadResp) ℕ × World)
      → (let t = (upload_stream error_text file.lines file.failure).1 in
          Inserted t.entries w o
          → Uploaded (form_file file) w (answer file t (λ w. o) w).0 (answer file t (λ w. o) w).1)
  unfolding Uploaded finish ◌>>=◌ pure upload_resp
  answer-Uploaded file w (ok n, w') (e, s) =
      let (h, _) = upload_stream-Balanced error_text file.lines file.failure in
      (refl, file, refl, s, e, omega (arith, h.counted, e), h.bounded)
  answer-Uploaded file w (err r, w') (m, e, d, h) = rw e (inr (refl, _, d, h))

  -- An upload is answered 200 only for a file: then the records that the stream has read are
  -- stored at once (and nothing is written if there are none), `inserted` is their number, the
  -- total is the sum of `inserted` and `skipped`, and at most 20 errors are listed. An answer 400
  -- leaves the world as it was. An answer 500 comes only from an error of the database: the
  -- repository never refuses records that the parser has made. No other answer is given.
  pub upload_handler-Uploaded :
      (form : Form) (w : World)
      → Uploaded form w
          (upload_handler b repo_text error_text form w).0
          (upload_handler b repo_text error_text form w).1
  unfolding Uploaded upload_handler file_of finish ◌>>=◌ lift
  upload_handler-Uploaded invalid_form w = inl (refl, refl)
  upload_handler-Uploaded missing_file w = inl (refl, refl)
  upload_handler-Uploaded (form_file file) w =
      let s = upload_stream error_text file.lines file.failure in
      elim (validate_upload-cases file) [
        | inr (m, e) ↦ rw e (inl (refl, refl))
        | inl e ↦ elim (stream_result-cases s.0) [
          | inr (m, f) ↦ rw (e, f) (inl (refl, refl))
          | inl f ↦
              rw (e, f)
                (answer-Uploaded file w (insert_entries b repo_text s.1.entries w) (
                  insert_entries-Inserted s.1.entries w (entries-IsFilled file.lines file.failure)))
        ]
      ]
