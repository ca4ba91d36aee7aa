-- ===== src/Store.antt =====
-- internal/store: where a conversation's rows lie.
pub mod Sharding
