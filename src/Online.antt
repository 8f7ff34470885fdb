-- ===== src/Online.antt =====
-- OnlineSvr: backend/onlinesvr/internal, the login sessions.
pub mod Store
pub mod Jwt
pub mod Service
pub mod Sessions
pub mod History
pub mod Tokens
