-- ===== src/Identity.antt =====
-- internal/modules/identity: accounts, devices, sessions and addresses.
pub mod Status
pub mod Entity
pub mod Policy
pub mod Library
pub mod Repo
pub mod Cache
pub mod Publisher
pub mod Tokens
pub mod Keeps
pub mod Auth
pub mod Addresses
pub mod Profile
pub mod Blacklist
pub mod Http
