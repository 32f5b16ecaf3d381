-- ===== src/Reset.antt =====
-- The reset of the runtime (daemon/internal/resetcontroller).
pub mod Files
pub mod Controller
pub mod Lock
pub mod Steps
pub mod Laws
pub mod Locking
pub mod Blocking
pub mod Operation
mod Tests
