-- ===== src/Auth.antt =====
-- app/auth: the derived keys, the login rate limiter and the grants of the password reprompt.
pub mod KeyMaterial
pub mod RateLimit
pub mod Reprompts
pub mod Passwords
pub mod Sessions
pub mod ApiTokens
pub mod Deps
pub mod ClientIp
mod Tests
mod SessionsTests
mod ApiTokensTests
pub mod DepsTests
mod ClientIpTests
