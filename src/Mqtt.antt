-- ===== src/Mqtt.antt =====
-- connector/mqtt: the MQTT connector's topics and subscriptions.
pub mod Topics
pub mod Matching
pub mod Index
pub mod Apply
pub mod Planned
pub mod Converges
pub mod Resolving
pub mod Commands
pub mod Limiter
