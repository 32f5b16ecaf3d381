-- ===== src/Profile.antt =====
-- The profile: its nodes and subscriptions, how they are merged, edited and normalised
-- (daemon/internal/profile).
pub mod Types
pub mod Keys
pub mod Ids
pub mod Merge
pub mod Operations
pub mod Unique
pub mod Merging
pub mod Identity
pub mod Places
pub mod Taken
pub mod Counts
pub mod Active
pub mod Edits
pub mod Endpoint
pub mod Summary
pub mod Normalize
pub mod Numbers
pub mod Valid
pub mod Providers
pub mod Tallies
pub mod Checks
pub mod Accepted
pub mod Samples
mod Tests
