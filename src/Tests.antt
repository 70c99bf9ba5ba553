-- ===== src/Tests.antt =====
-- Tests: a server with its tables in memory, and the properties at concrete inputs.
pub mod Memory
pub mod Data
pub mod Logs
pub mod Uploads
pub mod Reports
pub mod Pdf
pub mod Ai
pub mod Start
pub mod Sessions
pub mod Enrolment
pub mod Web
pub mod Server
pub mod Stack
pub mod Witnesses
