-- ===== src/Chat.antt =====
-- ChatSvr: backend/chatsvr/internal/store and backend/chatsvr/internal/service, messages and
-- conversations.
pub mod Data
pub mod Keys
pub mod Messages
pub mod Conversations
pub mod Service
pub mod Sync
pub mod Rules
pub mod Receiving
pub mod Deletion
