-- ===== src/Runtime.antt =====
-- The runtime orchestrator of daemon/internal/runtimev2.
pub mod Types
pub mod Report
pub mod Errors
pub mod Phase
pub mod State
pub mod Engine
pub mod Commands
pub mod Tasks
pub mod Updates
pub mod System
pub mod Laws
pub mod Samples
mod Tests
