-- ===== src/Tests/Web.antt =====
-- The properties of the middleware, the guards and the pages at concrete inputs.
use anti_river_ten_demo.Prelude.{◌≤◌, ◌≡◌, refl, false, some, List, [], ◌∷◌, take}
use anti_river_ten_demo.Prelude.Int.{pos}
use anti_river_ten_demo.Strings.{Bytes, text, str_eq, is_empty, equal_fold, trim_space, to_lower}
use anti_river_ten_demo.Handlers.{Request}
use anti_river_ten_demo.Handlers.Admin.{delete_user_handler, list_users_handler}
use anti_river_ten_demo.Router.{admin_middleware, role_middleware}
use anti_river_ten_demo.Router.Access.{
  Access, IsAdminUser, MayExport, admin_middleware-Access, role_middleware-Access,
}
use anti_river_ten_demo.Middleware.{
  capture_all, new_capture, body_cap, WriterCall, write_header, write, tee_all, CorsRequest,
  cors_headers, allowed_match, is_allowed_origin, Header, sanitize_headers,
}
use anti_river_ten_demo.Middleware.Capture.{
  capture_all_lem, tee_all_lem, written, returned, concat_reads,
}
use anti_river_ten_demo.Middleware.Cors.{
  allow_origin, header_value, Permitted, cors_headers-Permitted, Masked, sanitize_headers-Masked,
}
use anti_river_ten_demo.Tests.Memory.{memory, memory_lawful}
use anti_river_ten_demo.Tests.Data.{config, request, start}

abbrev delete_ann : Request
delete_ann = request (text "DELETE") (text "/v1/admin/users/ann") (text "Bearer secret:root")

admin_middleware-Access_example :
    Access memory memory_lawful config
      (IsAdminUser memory memory_lawful config)
      (delete_user_handler memory config)
      delete_ann
      start
      (admin_middleware memory config (delete_user_handler memory config) delete_ann start)
admin_middleware-Access_example =
    admin_middleware-Access memory memory_lawful config (delete_user_handler memory config)
      delete_ann start

role_middleware-Access_example :
    Access memory memory_lawful config
      (MayExport memory memory_lawful config)
      (list_users_handler memory config)
      delete_ann
      start
      (role_middleware memory config (list_users_handler memory config) delete_ann start)
role_middleware-Access_example =
    role_middleware-Access memory memory_lawful config (list_users_handler memory config) delete_ann
      start

abbrev writer_calls : List WriterCall
writer_calls = write (text "abc") 3 ∷ write_header 500 ∷ write (text "defg") 4 ∷ []

capture_all_example :
    ((capture_all writer_calls (new_capture (pos 5))).buf
      ≡ take (body_cap (pos 5)) (written writer_calls))
    × ((capture_all writer_calls (new_capture (pos 5))).size ≡ returned writer_calls)
    × (1 ≤ body_cap (pos 5))
capture_all_example = capture_all_lem (pos 5) writer_calls

abbrev two_reads : List Bytes
two_reads = text "abc" ∷ text "def" ∷ []

tee_all_example :
    (tee_all two_reads (record { buf = []; max = 4; cur = 0 })).buf
    ≡ take 4 (concat_reads two_reads)
tee_all_example = tee_all_lem 4 two_reads

abbrev origins : List Bytes
origins = text "o" ∷ []

abbrev cors_request : CorsRequest
cors_request = record { method = text "GET"; origin = text "o"; request_headers = [] }

origin_allowed :
    header_value allow_origin (cors_headers equal_fold origins cors_request) ≡ some (text "o")
unfolding cors_headers text str_eq allowed_match is_allowed_origin equal_fold trim_space to_lower
origin_allowed = refl

cors_headers-Permitted_example :
    (text "o" ≡ text "o") × (is_empty (text "o") ≡ false) × Permitted equal_fold origins (text "o")
cors_headers-Permitted_example =
    cors_headers-Permitted equal_fold origins cors_request (text "o") origin_allowed

abbrev headers : Header
headers = (text "Cookie", text "a=1" ∷ []) ∷ (text "Accept", text "x" ∷ text "y" ∷ []) ∷ []

sanitize_headers-Masked_example : Masked headers (sanitize_headers headers)
sanitize_headers-Masked_example = sanitize_headers-Masked headers
