-- ===== src/Logger.antt =====
-- The asynchronous logger: component/asynclogger/src.
pub mod Buffer
pub mod Thread
pub mod Delivery
