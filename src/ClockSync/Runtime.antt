-- ===== src/ClockSync/Runtime.antt =====
-- internal/clocksync/runtime.go: `ResolverRuntime` over an admission gate and a BACnet lifecycle.
pub mod Safety
use nexus_gateway.Prelude.{
  String, Bool, true, false, not, ◌&&◌, ◌||◌, Option, none, some, List, [], ◌∷◌, str_eq,
  if◌then◌else◌, ◌≡◌,
}
use nexus_gateway.PointList.{Entry, Index, update}

-- The part of a staged snapshot that the runtime reads: `Native().Revision` and `Entries()`.
pub record Snapshot : Type 0 where
  pub revision : String
  pub entries : List Entry

-- The interfaces Admission and BACnetLifecycle, what ConfigureSnapshot does before Configure where the
-- runtime has that method (the validation of the run and its record in gateway.go), and the error of the step's context. The Boolean is
-- true where the call returns no error.
pub record Plant (W : Type 0) : Type 0 where
  pub hold : W → W × Bool
  pub drain : W → W × Bool
  pub resume : W → W × Bool
  pub stop : W → W × Bool
  pub prepare : Option (Snapshot → W → W × Bool)
  pub configure : Snapshot → W → W × Bool
  pub start : W → W × Bool
  pub revision : W → W × Option String
  pub expired : W → Bool

pub record Runtime (W : Type 0) : Type 0 where
  pub world : W
  pub resolver : Index
  pub held : Bool
  pub stopped : Bool
  pub drained : Bool
  pub configured_revision : String
  pub verified : Bool

pub data Error : Type 0 where
  interface_error : Error
  stop_requires_held : Error
  drain_requires_stopped : Error
  configure_requires_barrier : Error
  start_requires_prepared : Error
  verify_requires_running : Error
  revision_mismatch : Error
  resume_requires_running : Error
  context_expired : Error

module _ {W : Type 0} (p : Plant W) where
  -- A call of an interface: the world goes on, and `k` is what success changes.
  abbrev pub after_call : Runtime W → W × Bool → (Runtime W → Runtime W) → Runtime W × Option Error
  after_call r (w, true) k = (k (record r { world = w }), none)
  after_call r (w, false) k = (record r { world = w }, some interface_error)

  unfoldable pub hold : Runtime W → Runtime W × Option Error
  hold r = after_call r (p.hold r.world) (λ s. record s { held = true })

  unfoldable pub stop : Runtime W → Runtime W × Option Error
  stop r =
      if not r.held
      then (r, some stop_requires_held)
      else after_call r (p.stop r.world)
          (λ s. record s { stopped = true; drained = false; verified = false })

  unfoldable pub drain : Runtime W → Runtime W × Option Error
  drain r =
      if not r.held || not r.stopped
      then (r, some drain_requires_stopped)
      else after_call r (p.drain r.world) (λ s. record s { drained = true })

  unfoldable pub configure : Snapshot → Runtime W → Runtime W × Option Error
  configure snapshot r =
      if not r.held || not r.stopped || not r.drained
      then (r, some configure_requires_barrier)
      else after_call r (p.configure snapshot r.world) (λ s. record s {
        resolver = update snapshot.entries;
        configured_revision = snapshot.revision;
        verified = false;
      })

  unfoldable pub start : Runtime W → Runtime W × Option Error
  start r =
      if not r.held || not r.stopped || not r.drained || str_eq r.configured_revision ""
      then (r, some start_requires_prepared)
      else after_call (record r { stopped = false; drained = false }) (p.start r.world) (λ s. s)

  -- The comparison of `Verify`, after the connector's answer.
  unfoldable pub compare_revision :
      Runtime W → String → W × Option String → Runtime W × Option Error
  compare_revision r revision (w, none) = (record r { world = w }, some interface_error)
  compare_revision r revision (w, some got) =
      if not (str_eq got revision) || not (str_eq revision r.configured_revision)
      then (record r { world = w }, some revision_mismatch)
      else (record r { world = w; verified = true }, none)

  unfoldable pub verify : String → Runtime W → Runtime W × Option Error
  unfolding compare_revision
  verify revision r =
      let s = record r { verified = false } in
      if not r.held || r.stopped
      then (s, some verify_requires_running)
      else compare_revision s revision (p.revision r.world)

  unfoldable pub resume : Runtime W → Runtime W × Option Error
  resume r =
      if not r.held || r.stopped || not r.verified
      then (r, some resume_requires_running)
      else after_call r (p.resume r.world) (λ s. record s { held = false })
