-- ===== src/Utils.antt =====
-- Common utilities: backend/common/include/swift/utils.h and backend/common/src/utils.cpp.
pub mod Codec
pub mod Strings
