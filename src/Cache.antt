-- ===== src/Cache.antt =====
-- internal/cache: the filter in front of the idempotency marks.
pub mod Bloom
