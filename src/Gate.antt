-- ===== src/Gate.antt =====
-- GateSvr: backend/gatesvr/internal, the service behind the WebSocket listener.
pub mod State
pub mod Zone
pub mod Connections
pub mod Sending
pub mod Messages
pub mod Takeover
pub mod Identity
pub mod Invariant
pub mod History
