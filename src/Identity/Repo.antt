-- ===== src/Identity/Repo.antt =====
-- internal/modules/identity/infra/postgres: the repositories, statement by statement.
pub mod User
pub mod Credential
pub mod Device
pub mod Session
pub mod Address
pub mod Query
pub mod Rows
