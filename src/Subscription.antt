-- ===== src/Subscription.antt =====
-- The nodes of a subscription in the profile, and the previews of its fetches
-- (daemon/internal/subscription/merge.go, daemon/internal/control/subscription_preview_cache.go).
pub mod Merge
pub mod Order
pub mod Gone
pub mod Laws
pub mod Previews
pub mod Taking
mod Tests
