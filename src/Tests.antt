-- ===== src/Tests.antt =====
-- Concrete runs of the components, at which the theorems apply.
pub mod Commands
pub mod Mqtt
pub mod CommandDedup
pub mod Lifecycle
pub mod RunContext
pub mod StoreForward
pub mod Uplink
pub mod ClockSync
pub mod Control
pub mod Pipeline
