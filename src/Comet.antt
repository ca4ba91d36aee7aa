-- ===== src/Comet.antt =====
-- internal/comet: the connection gateway.
pub mod Protocol
pub mod Bucket
