-- ===== src/Core.antt =====
-- The manager of the sing-box process and its Xray sidecar (daemon/internal/core/manager.go,
-- daemon/internal/core/xray_sidecar.go).
pub mod Report
pub mod State
pub mod Process
pub mod Launch
pub mod Stop
pub mod Restore
pub mod Swap
pub mod Quiet
pub mod Ends
pub mod Starting
pub mod Started
pub mod Restoring
pub mod Falling
pub mod Swapping
pub mod Stages
pub mod Stopping
pub mod Operations
mod Tests
