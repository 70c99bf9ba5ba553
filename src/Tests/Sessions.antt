-- ===== src/Tests/Sessions.antt =====
-- The properties of Login and Refresh at concrete inputs.
use anti_river_ten_demo.Prelude.{◌≤◌, ◌≡◌, ◌≢◌, refl, true, [], count}
use anti_river_ten_demo.Strings.{text, str_eq}
use anti_river_ten_demo.Strings.Laws.{str_eq_iff}
use anti_river_ten_demo.Strconv.{decimal}
use anti_river_ten_demo.Exec.{Result, ok, err, pure, lift, total, catch, check, ◌>>=◌}
use anti_river_ten_demo.Db.{RefreshToken, token_before_create}
use anti_river_ten_demo.Db.Laws.{Elem}
use anti_river_ten_demo.Db.Memory.{memory_table, rows_of}
use anti_river_ten_demo.Auth.{Error, Session, wrap, wrap_first}
use anti_river_ten_demo.Auth.Tokens.{
  token_hash, hex, generate_token, create_token, generate_refresh_token,
}
use anti_river_ten_demo.Auth.Accounts.{
  login, refresh, rotate, named, hash_is, user_id_is, token_id_is,
}
use anti_river_ten_demo.Auth.Sessions.{login-Elem, refresh-Elem}
use anti_river_ten_demo.Auth.Rotation.Single.{refresh-single_use}
use anti_river_ten_demo.Tests.Memory.{memory, memory_lawful}
use anti_river_ten_demo.Tests.Data.{config, ann, start}

-- The session of a result, and one of the user's own for an error.
abbrev session_or : Result Error Session → Session
session_or (ok s) = s
session_or (err e) = record {
  user = ann;
  access = [];
  access_exp = 0;
  refresh = [];
  refresh_exp = 0;
}

unfoldable logged_in : Session
logged_in = session_or (login memory config (text "ann") (text "pw") start).0

unfoldable refreshed : Session
refreshed = session_or (refresh memory config (text "11") start).0

login_runs :
    login memory config (text "ann") (text "pw") start
    ≡ (ok logged_in, (login memory config (text "ann") (text "pw") start).1)
unfolding logged_in memory memory_table rows_of start login wrap_first wrap catch ◌>>=◌ check pure
    lift total named str_eq text generate_token generate_refresh_token create_token
    token_before_create hex decimal
login_runs = refl

refresh_runs :
    refresh memory config (text "11") start
    ≡ (ok refreshed, (refresh memory config (text "11") start).1)
unfolding refreshed memory memory_table rows_of start refresh rotate wrap_first wrap catch ◌>>=◌
    check pure lift total hash_is user_id_is token_id_is str_eq text generate_token
    generate_refresh_token create_token token_before_create hex token_hash
refresh_runs = refl

login-Elem_example :
    Elem logged_in.user (memory.users.rows start)
    × (named (text "ann") (text "ann") logged_in.user ≡ true)
    × (memory.compare_hash_and_password logged_in.user.password_hash (text "pw") ≡ true)
login-Elem_example =
    login-Elem memory memory_lawful config (text "ann") (text "pw") start
      (login memory config (text "ann") (text "pw") start).1 logged_in login_runs

refresh-Elem_example :
    (rt : RefreshToken) × Elem rt (memory.tokens.rows start)
    × (rt.token_hash ≡ token_hash memory config (text "11"))
    × ((memory.now (memory.tokens.first (hash_is (token_hash memory config (text "11"))) start).1).0
        ≤ rt.expires_at)
    × Elem refreshed.user (memory.users.rows start)
    × (refreshed.user.id ≡ rt.user_id)
refresh-Elem_example =
    refresh-Elem memory memory_lawful config (text "11") start
      (refresh memory config (text "11") start).1 refreshed refresh_runs

refreshed-differs :
    token_hash memory config refreshed.refresh ≢ token_hash memory config (text "11")
unfolding refreshed memory memory_table rows_of start refresh rotate wrap_first wrap catch ◌>>=◌
    check pure lift total hash_is user_id_is token_id_is str_eq text generate_token
    generate_refresh_token create_token token_before_create hex token_hash decimal
refreshed-differs e =
    let same : str_eq (token_hash memory config refreshed.refresh)
          (token_hash memory config (text "11"))
        ≡ true =
      (str_eq_iff _ _).1 e in
    cc same

refresh-single_use_example :
    (count
        (hash_is (token_hash memory config (text "11")))
        (memory.tokens.rows (refresh memory config (text "11") start).1)
      ≡ 0)
    × ((e : Error) × ((refresh memory config
            (text "11")
            (refresh memory config (text "11") start).1).0
          ≡ err e))
refresh-single_use_example =
    refresh-single_use memory memory_lawful config (text "11") start
      (refresh memory config (text "11") start).1 refreshed refreshed-differs refresh_runs
