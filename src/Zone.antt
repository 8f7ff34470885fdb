-- ===== src/Zone.antt =====
-- ZoneSvr: backend/zonesvr/internal, where a user is and the way of a message to that gate.
pub mod Store
pub mod Memory
pub mod Gates
pub mod Service
pub mod Routing
