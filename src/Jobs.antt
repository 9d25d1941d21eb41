-- ===== src/Jobs.antt =====
-- The background jobs: internal/jobs.
pub mod Batch
pub mod ProductEvents
pub mod CacheUpdates
pub mod Expiry
pub mod Expired
pub mod Loops
pub mod Monitor
pub mod Monitored
pub mod Kept
pub mod HandedOver
pub mod HandingOver
pub mod Drained
pub mod Retries
pub mod Failures
pub mod Refreshed
pub mod CacheTick
