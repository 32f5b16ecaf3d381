-- ===== src/Import.antt =====
-- The import of nodes in several batches (daemon/internal/control/import_batch_store.go).
pub mod Store
pub mod Bounds
pub mod Upload
pub mod Laws
mod Tests
