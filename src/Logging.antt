-- ===== src/Logging.antt =====
-- app/logging_setup.py: the registry of secrets, and the processor that strips them from log events.
pub mod Registry
pub mod Redact
pub mod Replace
pub mod Removal
pub mod Values
mod Tests
