-- ===== src/ClockSync.antt =====
-- internal/clocksync/runtime.go and controller.go: the apply transaction over one connector. The
-- admission gate and the connector are other components, reached through `Plant`; what each context
-- reports is read from the world too.
pub mod Runtime
pub mod Controller
