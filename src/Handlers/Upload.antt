-- ===== src/Handlers/Upload.antt =====
-- internal/http/handlers/sqllog_upload.go: the callbacks of the upload, which count while ParseStream
-- runs, and the handler. The texts of errors (fmt's %w and %q) are parameters, and so is what
-- net/http makes of the multipart form.
pub mod Counts
pub mod Outcome
use anti_river_ten_demo.Prelude.{
  ℕ, suc, ◌+◌, Bool, true, false, not, ◌&&◌, ◌||◌, Option, none, some, List, [], ◌∷◌, ◌++◌, ltb,
  ◌==◌, length, if◌then◌else◌,
}
use anti_river_ten_demo.Strings.{Bytes, text, is_empty, str_eq, has_prefix, to_lower, ext}
use anti_river_ten_demo.Exec.{Exec, Result, ok, err, pure, lift, catch, ◌>>=◌, ◌>>◌}
use anti_river_ten_demo.Handlers.{Reply, error_envelope, json, finish}
use anti_river_ten_demo.Sqllog.{SqlLog}
use anti_river_ten_demo.Sqllog.Parser.{
  StreamError, StreamEnd, finished, cancelled, scan_failed, ContextError, canceled,
  deadline_exceeded, ScannedLine, parse_stream,
}
use anti_river_ten_demo.Sqllog.Repo.{LogStore, RepoError, insert_batch}

-- total, skipped, entries and errs of the handler.
pub record Tally : Type 0 where
  pub total : ℕ
  pub skipped : ℕ
  pub entries : List SqlLog
  pub errs : List Bytes

abbrev pub new_tally : Tally
new_tally = record { total = 0; skipped = 0; entries = []; errs = [] }

unfoldable pub on_entry : SqlLog → Tally → Option Bytes × Tally
on_entry rec t = (none, record t { total = suc t.total; entries = t.entries ++ rec ∷ [] })

module _ (error_text : StreamError → Bytes) where
  -- The list of errors in the response is bounded.
  unfoldable pub on_error : StreamError → Tally → Tally
  on_error e t = record {
    total = suc t.total;
    skipped = suc t.skipped;
    entries = t.entries;
    errs = if ltb (length t.errs) 20 then t.errs ++ error_text e ∷ [] else t.errs;
  }

  unfoldable pub upload_stream : List ScannedLine → Option Bytes → StreamEnd × Tally
  unfolding on_entry on_error
  upload_stream lines failure = parse_stream on_entry on_error lines failure new_tally

-- The part "file" of the form: its header, and the tokens and the error of a scanner over it.
pub record FormFile : Type 0 where
  pub filename : Bytes
  pub content_type : Bytes
  pub lines : List ScannedLine
  pub failure : Option Bytes

-- What ParseMultipartForm and FormFile make of the body.
pub data Form : Type 0 where
  invalid_form : Form
  missing_file : Form
  form_file : FormFile → Form

pub record UploadResp : Type 0 where
  pub message : Bytes
  pub total_lines : ℕ
  pub inserted : ℕ
  pub skipped : ℕ
  pub errors : List Bytes
  pub content_type : Bytes
  pub filename : Bytes

abbrev pub bad_upload : Bytes → Reply UploadResp
bad_upload m = error_envelope 400 (text "bad_request") m

unfoldable pub file_of : Form → Result (Reply UploadResp) FormFile
file_of invalid_form = err (bad_upload (text "invalid multipart form"))
file_of missing_file = err (bad_upload (text "missing file"))
file_of (form_file file) = ok file

-- The extension and the content type that validateUpload accepts.
unfoldable pub is_log_name : Bytes → Bool
is_log_name name =
    str_eq (to_lower (ext (to_lower name))) (text ".log")
    || str_eq (to_lower (ext (to_lower name))) (text ".txt")

unfoldable pub is_text_type : Bytes → Bool
is_text_type content_type =
    let ct = to_lower content_type in
    is_empty ct || has_prefix ct (text "text/plain") || str_eq ct (text "application/octet-stream")

abbrev pub bad_extension : FormFile → Bytes
bad_extension file =
    text "unsupported file extension: "
    ++ to_lower (ext (to_lower file.filename))
    ++ text " (allowed: .log, .txt)"

abbrev pub bad_content_type : FormFile → Bytes
bad_content_type file = text "unsupported content-type: " ++ to_lower file.content_type

unfoldable pub validate_upload : FormFile → Result (Reply UploadResp) (Unit {0})
validate_upload file =
    if not (is_log_name file.filename)
    then err (bad_upload (bad_extension file))
    else if not (is_text_type file.content_type)
    then err (bad_upload (bad_content_type file))
    else ok tt

-- err != nil && !errors.Is(err, context.Canceled)
unfoldable pub stream_result : StreamEnd → Result (Reply UploadResp) (Unit {0})
stream_result finished = ok tt
stream_result (cancelled canceled) = ok tt
stream_result (cancelled deadline_exceeded) =
    err (bad_upload (text "cannot parse file: context deadline exceeded"))
stream_result (scan_failed e) = err (bad_upload (text "cannot parse file: scan: " ++ e))

unfoldable pub upload_resp : FormFile → Tally → ℕ → UploadResp
upload_resp file t inserted = record {
  message =
      if t.total == 0 || inserted == 0 && ltb 0 t.skipped
      then text "no valid records found; nothing inserted"
      else text "upload processed";
  total_lines = t.total;
  inserted = inserted;
  skipped = t.skipped;
  errors = t.errs;
  content_type = file.content_type;
  filename = file.filename;
}

module _ (b : LogStore) (repo_text : RepoError → Bytes) where
  open b use {World}

  abbrev pub insert_failed : RepoError → Reply UploadResp
  insert_failed e =
      error_envelope 500 (text "internal_error") (text "insert failed: " ++ repo_text e)

  -- The insert, if there is at least one valid record: how many were inserted.
  unfoldable pub insert_entries : List SqlLog → Exec World (Reply UploadResp) ℕ
  insert_entries [] = pure 0
  insert_entries (e ∷ entries) = do
    catch insert_failed (insert_batch b (e ∷ entries))
    pure (length (e ∷ entries))

  unfoldable pub upload_handler : (StreamError → Bytes) → Form → World → Reply UploadResp × World
  upload_handler error_text form = finish (do
    file ← lift (file_of form)
    lift (validate_upload file)
    let outcome = upload_stream error_text file.lines file.failure
    lift (stream_result outcome.0)
    inserted ← insert_entries outcome.1.entries
    pure (json 200 (upload_resp file outcome.1 inserted)))
