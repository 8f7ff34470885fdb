-- ===== src/Auth.antt =====
-- AuthSvr: backend/authsvr/internal, the accounts and their profiles.
pub mod Store
pub mod Service
pub mod Lookup
pub mod Accounts
pub mod Kept
