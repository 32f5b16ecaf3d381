-- ===== src/Apply.antt =====
-- The transaction that changes the configuration (daemon/internal/apply).
pub mod Transaction
pub mod Runtime
pub mod Laws
pub mod Reloads
mod Tests
