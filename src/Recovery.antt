-- ===== src/Recovery.antt =====
-- The automatic recovery: the health monitor and the rescue manager (daemon/internal/health,
-- daemon/internal/rescue).
pub mod Probes
pub mod Hosts
pub mod Health
pub mod Rescue
pub mod Watching
pub mod Attempts
mod Tests
