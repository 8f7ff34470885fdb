-- ===== src/Tests.antt =====
-- The theorems at concrete inputs: a database in memory and a JSON codec.
pub mod Chat
pub mod ChatService
pub mod Friend
pub mod Gate
pub mod Group
pub mod Logger
pub mod Online
pub mod Auth
pub mod Utils
pub mod Tokens
pub mod File
pub mod Resent
pub mod Zone
