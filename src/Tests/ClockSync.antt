-- ===== src/Tests/ClockSync.antt =====
-- internal/clocksync: a gate and a connector that do what they are asked.
use nexus_gateway.Prelude.{refl, String, Bool, true, false, Option, none, some, List, [], ◌∷◌}
use nexus_gateway.PointList.{new_synced}
use nexus_gateway.ClockSync.Runtime.{Snapshot, Plant, Runtime}
use nexus_gateway.ClockSync.Runtime.Safety.{PlantLaws}
use nexus_gateway.ClockSync.Controller.{Fetched, failed, fetched, new, run}
use nexus_gateway.ClockSync.Controller.Coherence.{IsSound, run-IsSound, new-IsSound}

record World : Type 0 where
  gate : Bool
  loaded : Option String

abbrev plant : Plant World
plant = record {
  hold = λ w. (record w { gate = false }, true);
  drain = λ w. (w, true);
  resume = λ w. (record w { gate = true }, true);
  stop = λ w. (w, true);
  prepare = some (λ s w. (w, true));
  configure = λ s w. (record w { loaded = some s.revision }, true);
  start = λ w. (w, true);
  revision = λ w. (w, w.loaded);
  expired = λ w. false;
}

abbrev gate_of : World → Bool
gate_of w = w.gate

abbrev loaded_of : World → Option String
loaded_of w = w.loaded

plant-PlantLaws : PlantLaws plant gate_of loaded_of
plant-PlantLaws = record {
  hold_closes = λ w. refl;
  drain_closed = λ w h. h;
  stop_closed = λ w h. h;
  configure_closed = λ s w h. h;
  start_closed = λ w h. h;
  resume_opens = λ w h. refl;
  resume_running = λ w. refl;
  revision_reads = λ w r h. h;
}

abbrev runtime : Runtime World
runtime = record {
  world = record { gate = false; loaded = none };
  resolver = new_synced;
  held = false;
  stopped = false;
  drained = false;
  configured_revision = "";
  verified = false;
}

-- The bytes of a snapshot are its revision.
abbrev stage : String → Option Snapshot
stage r = some (record { revision = r; entries = [] })

-- The source fails once, then serves two revisions.
abbrev sources : List (String → Fetched String)
sources = (λ known. failed) ∷ (λ known. fetched "r1") ∷ (λ known. fetched "r2") ∷ []

run-IsSound_example :
    IsSound plant gate_of loaded_of plant-PlantLaws (run plant stage sources (new runtime))
run-IsSound_example =
    run-IsSound plant gate_of loaded_of plant-PlantLaws stage sources (new runtime)
      (new-IsSound plant gate_of loaded_of plant-PlantLaws runtime refl)
