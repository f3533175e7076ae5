-- ===== src/Repositories.antt =====
-- app/repositories: rows of the database, and what the code makes of them.
pub mod Rows
pub mod Users
pub mod HttpSessions
pub mod ApiTokens
pub mod Credentials
pub mod Targets
