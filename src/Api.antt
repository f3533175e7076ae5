-- ===== src/Api.antt =====
-- app/api: the WebSocket fan-out.
pub mod Ws
pub mod Security
pub mod Targets
pub mod Accounts
mod Tests
