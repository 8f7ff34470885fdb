-- ===== src/Jwt.antt =====
-- Tokens: backend/common/include/swift/jwt_helper.h and backend/common/src/jwt_helper.cpp.
pub mod Base64
pub mod Token
pub mod Verify
