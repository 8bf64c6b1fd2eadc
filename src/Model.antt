-- ===== src/Model.antt =====
-- internal/model: the data of conversations, and peer ids.
pub mod PeerId
pub mod Conversation
pub mod Session
pub mod Run
