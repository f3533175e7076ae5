-- ===== src/Domain.antt =====
-- app/domain: the state machines and value objects.
pub mod RunState
pub mod CircuitBreaker
pub mod WorkerState
pub mod TargetTypes
pub mod Target
pub mod Health
pub mod Tile
mod Tests
mod TileTests
