-- ===== src/ClockSync/Controller.antt =====
-- internal/clocksync/controller.go: `Controller`. One `Sync` at a time, as its lock makes sure. The
-- answer of the source and the validation of a snapshot (internal/provisioning) are arguments; an
-- error's text is left out of `last_error`. A runtime may have the method ConfigureSnapshot, as that of
-- gateway.go does: `prepare` is what the method does before it calls Configure.
pub mod Steps
pub mod Coherence
use nexus_gateway.Prelude.{
  String, Bool, true, false, not, Option, none, some, List, [], ◌∷◌, str_eq, if◌then◌else◌,
}
use nexus_gateway.ClockSync.Runtime.{
  Snapshot, Plant, Runtime, Error, interface_error, context_expired, hold, stop, drain, configure,
  start, verify, resume,
}

pub data Phase : Type 0 where
  uninitialized holding waiting_snapshot staged stopping draining configuring starting : Phase
  verifying resuming active rolling_back halted retry_pending : Phase

pub data SyncError : Type 0 where
  step_error : Phase → Error → SyncError
  fetch_error stage_error not_staged : SyncError
  rollback_error : Error → SyncError
  joined : SyncError → SyncError → SyncError

pub record Controller (W : Type 0) : Type 0 where
  pub runtime : Runtime W
  pub phase : Phase
  pub desired_revision : String
  pub applied_revision : String
  pub last_good_revision : String
  pub last_error : Option SyncError
  pub desired : Option Snapshot
  pub good : Option Snapshot
  pub initialized : Bool

-- Source.Fetch: an error, 304, or the bytes of a snapshot.
pub data Fetched (B : Type 0) : Type 0 where
  failed not_modified : Fetched B
  fetched : B → Fetched B

-- New
unfoldable pub new : {W : Type 0} → Runtime W → Controller W
new r = record {
  runtime = r;
  phase = uninitialized;
  desired_revision = "";
  applied_revision = "";
  last_good_revision = "";
  last_error = none;
  desired = none;
  good = none;
  initialized = false;
}

module _ {W : Type 0} (p : Plant W) where
  -- The operations of the interface Runtime that the controller calls.
  abbrev pub Operation : Type 0
  Operation = Runtime W → Runtime W × Option Error

  -- ConfigureSnapshot, after what it does first
  unfoldable pub after_prepare : Snapshot → Runtime W → W × Bool → Runtime W × Option Error
  after_prepare s r (w, false) = (record r { world = w }, some interface_error)
  after_prepare s r (w, true) = configure p s (record r { world = w })

  -- The controller's `configure`: ConfigureSnapshot where the runtime has it, else Configure.
  unfoldable pub configure_by : Option (Snapshot → W → W × Bool) → Snapshot → Operation
  unfolding after_prepare
  configure_by none s r = configure p s r
  configure_by (some f) s r = after_prepare s r (f s r.world)

  abbrev pub configure_snapshot : Snapshot → Operation
  configure_snapshot s r = configure_by p.prepare s r

  abbrev pub wrap : Phase → Option Error → Option SyncError
  wrap ph none = none
  wrap ph (some e) = some (step_error ph e)

  -- step: enter the phase, and call unless the context has expired.
  unfoldable pub step : Phase → Operation → Controller W → Controller W × Option SyncError
  step ph f c =
      let c' = record c { phase = ph } in
      if p.expired c.runtime.world
      then (c', some (step_error ph context_expired))
      else let (r, e) = f c.runtime in (record c' { runtime = r }, wrap ph e)

  -- The loop of `apply`: the first error ends it.
  unfoldable pub run_steps :
      List (Phase × Operation) → Controller W → Controller W × Option SyncError
  run_steps [] c = (c, none)
  run_steps ((ph, f) ∷ rest) c =
      let (c', e) = step ph f c in elim e [ none ↦ run_steps rest c' | some x ↦ (c', some x) ]

  abbrev pub transaction : Snapshot → List (Phase × Operation)
  transaction s =
      (holding, hold p)
      ∷ (stopping, stop p)
      ∷ (draining, drain p)
      ∷ (configuring, configure_snapshot s)
      ∷ (starting, start p)
      ∷ (verifying, verify p s.revision)
      ∷ (resuming, resume p)
      ∷ []

  unfoldable pub apply : Snapshot → Controller W → Controller W × Option SyncError
  unfolding run_steps step
  apply s c = run_steps (transaction s) (record c { applied_revision = "" })

  -- The closure `fail` of rollback: hold and stop, whatever they answer.
  unfoldable pub fail : Error → Controller W → Controller W × Option SyncError
  fail e c =
      let r = (stop p (hold p c.runtime).0).0 in
      (record c { runtime = r; phase = halted; applied_revision = "" }, some (rollback_error e))

  -- The two loops of rollback: calls in turn, the first error goes to `fail`.
  unfoldable pub calls : List Operation → Controller W → Controller W × Option Error
  calls [] c = (c, none)
  calls (f ∷ rest) c =
      let (r, e) = f c.runtime in
      let c' = record c { runtime = r } in elim e [ none ↦ calls rest c' | some x ↦ (c', some x) ]

  unfoldable pub restore : Snapshot → Controller W → Controller W × Option SyncError
  unfolding calls fail
  restore good c =
      let (c', e) =
        calls (configure_snapshot good ∷ start p ∷ verify p good.revision ∷ resume p ∷ []) c in
      elim e [
        | some x ↦ fail x c'
        | none ↦ (record c' { phase = retry_pending; applied_revision = good.revision }, none)
      ]

  unfoldable pub rollback : Controller W → Controller W × Option SyncError
  unfolding restore
  rollback c =
      let (c', e) = calls (hold p ∷ stop p ∷ drain p ∷ []) (record c { phase = rolling_back }) in
      elim e [
        | some x ↦ fail x c'
        | none ↦ elim c'.good [
          | none ↦ (record c' { phase = halted }, none)
          | some good ↦ restore good c'
        ]
      ]

  abbrev pub join : SyncError → Option SyncError → SyncError
  join e none = e
  join e (some x) = joined e x

  -- Sync from `c.phase("staged")` on.
  unfoldable pub apply_or_rollback : Snapshot → Controller W → Controller W × Option SyncError
  unfolding apply rollback
  apply_or_rollback s c =
      let (c', e) = apply s (record c { phase = staged }) in
      elim e [
        | none ↦ (
          record c' {
            phase = active;
            applied_revision = s.revision;
            last_good_revision = s.revision;
            last_error = none;
            good = some s;
          },
          none,
        )
        | some x ↦
            let (c'', y) = rollback c' in
            (record c'' { last_error = some (join x y) }, some (join x y))
      ]

  -- Sync once the desired snapshot is known.
  unfoldable pub converge : Controller W → Controller W × Option SyncError
  unfolding apply_or_rollback
  converge c = elim c.desired [
    | none ↦ (record c { last_error = some not_staged }, some not_staged)
    | some s ↦
        if str_eq c.applied_revision s.revision
        then (record c { last_error = none }, none)
        else apply_or_rollback s c
  ]

  -- Sync after the fetch; `stage` is StageClock at the controller's scope.
  unfoldable pub receive :
      {B : Type 0}
      → (B → Option Snapshot)
      → Fetched B
      → Controller W
      → Controller W × Option SyncError
  unfolding converge
  receive stage failed c = (record c { last_error = some fetch_error }, some fetch_error)
  receive stage not_modified c = converge c
  receive stage (fetched bytes) c = elim (stage bytes) [
    | none ↦ (record c { last_error = some stage_error }, some stage_error)
    | some s ↦ converge (record c { desired = some s; desired_revision = s.revision })
  ]

  -- The revision that Sync sends as known to the source.
  unfoldable pub known : Controller W → String
  known c = elim c.desired [ none ↦ "" | some s ↦ s.revision ]

  -- The first Sync, once the gate was asked to hold.
  unfoldable pub after_first_hold :
      {B : Type 0}
      → (B → Option Snapshot)
      → (String → Fetched B)
      → Controller W × Option SyncError
      → Controller W × Option SyncError
  unfolding receive known
  after_first_hold stage source (c, some x) =
      (record c { phase = halted; last_error = some x }, some x)
  after_first_hold stage source (c, none) =
      let c' = record c { phase = waiting_snapshot; initialized = true } in
      receive stage (source (known c')) c'

  -- Sync: the first one holds the gate before anything else; the source answers the known revision.
  unfoldable pub sync :
      {B : Type 0}
      → (B → Option Snapshot)
      → (String → Fetched B)
      → Controller W
      → Controller W × Option SyncError
  unfolding after_first_hold
  sync stage source c =
      if c.initialized
      then receive stage (source (known c)) c
      else after_first_hold stage source (step holding (hold p) c)

  -- RestoreLastGood: only before the first Sync.
  unfoldable pub restore_last_good :
      {B : Type 0} → (B → Option Snapshot) → Option B → Controller W → Controller W × Bool
  restore_last_good stage bytes c = if c.initialized then (c, false) else elim bytes [
    | none ↦ (c, true)
    | some b ↦ elim (stage b) [
      | none ↦ (c, false)
      | some s ↦ (record c { good = some s; last_good_revision = s.revision }, true)
    ]
  ]

  -- Run: one Sync for each tick, with the source's answers.
  unfoldable pub run :
      {B : Type 0} → (B → Option Snapshot) → List (String → Fetched B) → Controller W → Controller W
  run stage [] c = c
  run stage (source ∷ rest) c = run stage rest (sync stage source c).0
