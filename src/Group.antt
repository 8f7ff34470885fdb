-- ===== src/Group.antt =====
-- Groups of ChatSvr: backend/chatsvr/internal/store/group_store.h and group_store.cpp, and
-- backend/chatsvr/internal/service/group_service.cpp.
pub mod Data
pub mod Store
pub mod Members
pub mod Dissolve
pub mod Service
pub mod Roles
pub mod Rules
pub mod Transfer
