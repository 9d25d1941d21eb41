-- ===== src/Cache.antt =====
-- The read cache: internal/infra/cache.
pub mod Redis
pub mod Repository
