-- ===== src/Update.antt =====
-- The installation of a downloaded update (daemon/internal/updater/install_transaction.go and
-- install_state.go).
pub mod State
pub mod Install
pub mod Steps
pub mod Stages
pub mod Written
pub mod Outcome
pub mod Versions
pub mod Newer
pub mod Checks
pub mod Throttle
pub mod Checksums
pub mod Verified
pub mod Download
pub mod Kept
pub mod Downloaded
mod Tests
mod Samples
