-- ===== src/StoreForward.antt =====
-- internal/storeforward: the bounded buffer between the normalizer and the uplink.
pub mod Ack
pub mod Buffer
pub mod Pump
pub mod Window
pub mod Schema
pub mod Open
