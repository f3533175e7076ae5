-- ===== src/Fanout.antt =====
-- app/fanout: the workers' plumbing.
pub mod Worker
pub mod EventBus
pub mod OutUrl
pub mod Backoff
pub mod Redaction
pub mod ProgressParser
pub mod FfmpegWorker
pub mod Retries
pub mod Supervisor
mod Tests
pub mod SupervisorTests
mod WorkerTests
mod ProgressTests
mod RedactionTests
