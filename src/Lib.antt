-- ===== src/Lib.antt =====
-- The nexus gateway: a process that takes telemetry of building devices from connectors over a message
-- bus, keeps it in a local store and forwards it to the Building OS, and brings commands back.
--
-- How the parts work together. The normalizer (internal/normalizer) resolves each event's address by
-- the point list and hands the frame to the pump; the pump writes it to the buffer and only then
-- acknowledges the event; the forwarder reads the buffer, sends the frames, collects an ack for each
-- batch and moves the persisted cursor; on overflow the buffer drops its oldest rows. Commands come
-- down to the dispatcher, which resolves them by the same point list and asks a connector. The point
-- list is fetched by the sync loop, or, with a managed connector, by the clock controller, which
-- holds the traffic while it changes the connector's configuration and the point list together.
--
-- Which file models what:
-- - StoreForward/Buffer: internal/storeforward/buffer.go, type Buffer. `Db` is the two tables, the
--   rows in the order of their key; `write` is Write with a result for each of its statements,
--   `read_batch`, `advance`, `cursor_of` and `depth` are the methods of those names. Order, Eviction,
--   Accounts, Writes and Reading prove it.
-- - StoreForward/Open and StoreForward/Schema: Open, migrate and the steps of migrations in the
--   same file.
-- - StoreForward/Ack: internal/storeforward/ack.go, ApplyAck.
-- - StoreForward/Window and StoreForward/Pump: internal/storeforward/pump.go, seqWindow and Pump.
-- - Uplink: internal/uplink/forwarder.go. `Session` is forwardSession with the buffer that it
--   reads and the world of its sink; `checkpoint`, `drain`, `drain_once` and `run` are the methods.
-- - PointList: internal/pointlist/fixture.go and synced.go, the two resolvers.
-- - PointSync: internal/pointsync/loop.go, sync and applyDiff, over the client of
--   internal/provisioning/fallback.go.
-- - MqttSync: internal/mqttsync/derive.go, Derive.
-- - Dispatch: internal/dispatch/dispatcher.go, Execute and execute.
-- - ClockSync/Runtime and ClockSync/Controller: internal/clocksync/runtime.go and controller.go.
-- - RunContext: internal/runcontext/context.go, the ledger: Open and Initialize; Writing and Reading
--   have its other operations, History and Promises what holds over every sequence of them.
-- - Lifecycle: internal/lifecycle. The registry of registry.go; Managing is manager.go, Updating
--   update.go, Installing install.go, Owning exclusive.go; Catalog: internal/catalog/manifest.go.
-- - CommandDedup: connector/sdk/dedup.go. Mqtt: connector/mqtt; Topics is topicmatch.go, Index and
--   Apply are the topic index of connector.go and ApplySubscriptions, Commands its handleWrite,
--   Limiter its allowWildcard.
-- - Normalizer: internal/normalizer/normalizer.go, Normalize and consume, and the event of
--   internal/common.
-- - Health: internal/lifecycle/evaluate.go, Evaluate.
-- - Frame: the telemetry frame; Prelude: shared names, lists, signed integers and maps.
-- - Tests: concrete runs.
--
-- The run ledger's file is written whole or not at all, as the rename makes sure; what each write comes
-- to is an answer of the disk, and a rename that a power failure undoes is a write that failed. A
-- restart opens the file again. Docker, the signature check and the catalog answer as they like.
--
-- Conventions. A component's state is a record, an operation a function from the state to the new
-- state and its result. What a library or another process answers is a parameter: the codec of
-- protobuf and JSON, each statement's success in SQLite, the sink of the uplink, the message bus, the
-- admission gate and the lifecycle of a connector. Floating-point numbers are a type parameter.
-- Sequence numbers and counters are natural numbers without an upper bound; the signed count of an
-- ack is an integer, and the difference that ApplyAck takes of it wraps round as int64 does. An int has
-- 64 bits.
--
-- Fuel. `widen` doubles at most 58 times, which takes 64 past every int. `drain` makes one round for
-- each unit of fuel; a round that goes on has sent at least one frame, so one unit more than
-- frames wait is enough, and `drain_once` and `run` give one more than the buffer has rows.
--
-- Not modelled: the goroutines' interleaving inside one operation (each operation here runs alone, as
-- the locks, the single SQLite connection or the single goroutine of the source make sure, except
-- that no write falls within a drain and no two commands with one id run at once), tickers and
-- timeouts other than as calls that fail, log lines and metrics, file and network access, the
-- generated protocol code, the programs under cmd/, the test doubles, the admin API and its web
-- interface, the connectors in other languages; of the MQTT connector the publisher queue and the
-- freshness floor, of internal/clocksync the admission gate of gateway.go and
-- the sessions (what ConfigureSnapshot of gateway.go does before it calls Configure is a parameter,
-- `prepare`); a failed query of Cursor or Depth, for which the code answers 0, so that a
-- session would start again from the oldest row; and a COMMIT that reports an error although SQLite
-- has committed.
pub mod Prelude
pub mod Frame
pub mod StoreForward
pub mod PointList
pub mod ClockSync
pub mod Uplink
pub mod Dispatch
pub mod PointSync
pub mod Health
pub mod Normalizer
pub mod MqttSync
pub mod RunContext
pub mod Catalog
pub mod Lifecycle
pub mod CommandDedup
pub mod Mqtt
pub mod Tests
