-- ===== src/Message.antt =====
-- internal/message: the numbers, SendMessage and the delivery of what was sent.
pub mod Ids
pub mod Send
pub mod LastSeq
pub mod Marks
pub mod Delivery
pub mod Conversations
pub mod ReadState
pub mod SyncSeq
pub mod Sync
pub mod Routes
