-- ===== src/Account.antt =====
-- The account store of backend/internal/account: users, sessions, passwords, roles and reviews.
pub mod Rows
pub mod Tables
pub mod Auth
pub mod Sessions
pub mod Profile
pub mod Vault
pub mod Security
pub mod Recovery
pub mod Provision
pub mod LegacyRows
pub mod Legacy
pub mod ReviewRows
pub mod Reviews
pub mod Admin
pub mod Moderation
mod Samples
mod Tests
