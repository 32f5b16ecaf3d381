-- ===== src/Runtime/Laws.antt =====
-- What each locked section does to the operation in flight and to the applied state.
pub mod Sections
pub mod Updates
pub mod Finish
pub mod Busy
pub mod Phases
pub mod Endings
pub mod Views
