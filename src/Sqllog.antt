-- ===== src/Sqllog.antt =====
-- internal/sqllog/model.go: a log record. The columns exec_time_ms and exec_count are int64.
pub mod Parser
pub mod Report
pub mod Repo
pub mod Stats
use anti_river_ten_demo.Prelude.{ℕ}
use anti_river_ten_demo.Prelude.Int.{ℤ}
use anti_river_ten_demo.Strings.{Bytes}

pub record SqlLog : Type 0 where
  pub id : ℕ
  pub db_name : Bytes
  pub sql_query : Bytes
  pub exec_time_ms : ℤ
  pub exec_count : ℤ
  pub created_at : ℕ
