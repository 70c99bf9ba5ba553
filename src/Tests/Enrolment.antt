-- ===== src/Tests/Enrolment.antt =====
-- The properties of Register and CreateUser at concrete inputs.
use anti_river_ten_demo.Prelude.{◌≡◌, refl, Bool, true, false, [], ◌∷◌, ◌++◌}
use anti_river_ten_demo.Strings.{Bytes, text, str_eq}
use anti_river_ten_demo.Strings.Laws.{str_eq_iff}
use anti_river_ten_demo.Strconv.{decimal}
use anti_river_ten_demo.Exec.{Result, ok, err, pure, lift, total, catch, check, ◌>>=◌}
use anti_river_ten_demo.Db.{Role, DbError, user_before_create}
use anti_river_ten_demo.Db.Memory.{memory_table, rows_of}
use anti_river_ten_demo.Auth.{Error, wrap}
use anti_river_ten_demo.Auth.Accounts.{
  register, create_user, add_user, insert_user, new_user, check_role, named, code_is,
}
use anti_river_ten_demo.Auth.Registration.{Accepts}
use anti_river_ten_demo.Auth.Registration.Outcomes.{
  Registered, Enrolled, register-Registered, create_user-Enrolled,
}
use anti_river_ten_demo.Tests.Memory.{memory, memory_lawful}
use anti_river_ten_demo.Tests.Data.{config, start}

memory-Accepts : Accepts memory
unfolding memory pure
memory-Accepts s hash w h =
    let made : Path (Result DbError Bytes) (ok (text "hash:" ++ s)) (ok hash) = h in
    (str_eq_iff hash (text "hash:" ++ s)).1 (cc made)

abbrev leader : Role
leader = record {
  code = text "TEAM_LEADER";
  name = text "Team Leader";
  description = [];
  created_by = [];
  updated_by = [];
  created_time = 0;
  updated_time = 0;
}

unfoldable with_leader : memory.World
unfolding memory start
with_leader = record start { role_rows = leader ∷ [] }

abbrev is_ok : {A : Type 0} → Result Error A → Bool
is_ok (ok a) = true
is_ok (err e) = false

register_runs :
    is_ok (register memory config (text "bob") (text "b@x") (text "pw") (text "self") start).0
    ≡ true
unfolding memory memory_table rows_of start register add_user insert_user new_user wrap catch ◌>>=◌
    check pure lift total named str_eq text user_before_create decimal
register_runs = refl

register-Registered_example :
    Registered memory
      (text "bob")
      (text "b@x")
      (text "pw")
      (text "self")
      start
      (register memory config (text "bob") (text "b@x") (text "pw") (text "self") start).0
      (register memory config (text "bob") (text "b@x") (text "pw") (text "self") start).1
register-Registered_example =
    register-Registered memory memory_lawful config memory-Accepts (text "bob") (text "b@x")
      (text "pw") (text "self") start

create_user_runs :
    is_ok
      (create_user memory config
        (text "bob")
        (text "b@x")
        (text "pw")
        (text "TEAM_LEADER")
        (text "root")
        with_leader).0
    ≡ true
unfolding with_leader memory memory_table rows_of start create_user check_role code_is add_user
    insert_user new_user wrap catch ◌>>=◌ check pure lift total named str_eq text user_before_create
    decimal
create_user_runs = refl

create_user-Enrolled_example :
    Enrolled memory
      (text "bob")
      (text "b@x")
      (text "pw")
      (text "TEAM_LEADER")
      (text "root")
      with_leader
      (create_user memory config
        (text "bob")
        (text "b@x")
        (text "pw")
        (text "TEAM_LEADER")
        (text "root")
        with_leader).0
      (create_user memory config
        (text "bob")
        (text "b@x")
        (text "pw")
        (text "TEAM_LEADER")
        (text "root")
        with_leader).1
create_user-Enrolled_example =
    create_user-Enrolled memory memory_lawful config memory-Accepts (text "bob") (text "b@x")
      (text "pw") (text "TEAM_LEADER") (text "root") with_leader
