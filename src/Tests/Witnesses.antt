-- ===== src/Tests/Witnesses.antt =====
-- The properties at concrete inputs.
use anti_river_ten_demo.Prelude.{◌≡◌, ◌≢◌, refl, true, false, some, []}
use anti_river_ten_demo.Strings.{Bytes, text, str_eq, has_prefix}
use anti_river_ten_demo.Db.Memory.{memory_table, rows_of}
use anti_river_ten_demo.Auth.Admin.{is_inactive_role, is_user_active, mark_role, status_role}
use anti_river_ten_demo.Auth.AdminRows.{admin_rows, admins, NoSleeper}
use anti_river_ten_demo.Auth.Roles.{status_role_round_trip}
use anti_river_ten_demo.Router.{serve_all}
use anti_river_ten_demo.Router.Admins.{serve_all-admins}
use anti_river_ten_demo.Tests.Memory.{memory, memory_lawful}
use anti_river_ten_demo.Tests.Data.{config, ann, start, calls}

pub start_awake : NoSleeper memory start
unfolding memory memory_table start rows_of admins has_prefix text str_eq
start_awake = (refl, tt)

serve_all-admins_example :
    admin_rows memory (serve_all memory config calls start) ≡ admin_rows memory start
serve_all-admins_example = serve_all-admins memory memory_lawful config calls start start_awake

abbrev user_role : Bytes
user_role = text "USER"

user_role_filled : user_role ≢ []
unfolding text
user_role_filled h = cc

user_role_active : is_inactive_role user_role ≡ false
unfolding is_inactive_role text
user_role_active = refl

status_role_round_trip_example :
    (is_user_active (some (mark_role (status_role false user_role) (text "root") ann)) ≡ false)
    × (status_role true (status_role false user_role) ≡ user_role)
status_role_round_trip_example =
    status_role_round_trip user_role (text "root") ann user_role_filled user_role_active
