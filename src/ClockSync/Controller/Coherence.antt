-- ===== src/ClockSync/Controller/Coherence.antt =====
-- What the controller claims, against what runs behind the gate.
use nexus_gateway.Prelude.{
  String, Bool, true, false, Option, none, some, List, [], ◌∷◌, str_eq, if◌then◌else◌, ◌≡◌, ◌⊎◌,
  refl, sym, ap, subst, ◌∙◌, arith, Bool-cases, Option-cases, inl, inr,
}
use nexus_gateway.ClockSync.Runtime.{Snapshot, Plant, Runtime, Error, hold, stop, drain}
use nexus_gateway.ClockSync.Runtime.Safety.{PlantLaws, hold-closed, stop-closed, drain-closed}
use nexus_gateway.ClockSync.Controller.{
  Controller, Phase, SyncError, Operation, Fetched, failed, not_modified, fetched, step, run_steps,
  transaction, calls, apply, fail, restore, rollback, apply_or_rollback, converge, receive, known,
  sync, run, new, after_first_hold, holding,
}
use nexus_gateway.ClockSync.Controller.Steps.{
  Runs, run_steps-keeps, calls-keeps, calls_ok, calls_run, steps_run, tail_of,
}

module _ {W : Type 0} (p : Plant W) (is_open : W → Bool) (running : W → Option String)
    (laws : PlantLaws p is_open running) where
  -- Either the gate is closed and no revision is claimed as applied, or it is open and the claimed
  -- revision is that of the last good snapshot, which the running connector has loaded and the
  -- resolver maps by.
  abbrev pub Coherent : Controller W → Type 0
  Coherent c =
      ((is_open c.runtime.world ≡ false) × (c.applied_revision ≡ ""))
      ⊎ ((s : Snapshot) × (c.good ≡ some s)
          × (c.applied_revision ≡ s.revision)
          × Runs is_open running s c.runtime)

  fail-Coherent : (e : Error) (c : Controller W) → Coherent (fail p e c).0
  unfolding fail
  fail-Coherent e c = inl (
    stop-closed p is_open running laws (hold p c.runtime).0
        (hold-closed p is_open running laws c.runtime),
    refl,
  )

  restore-Coherent :
      (s : Snapshot) (c : Controller W) → c.good ≡ some s → Coherent (restore p s c).0
  unfolding restore
  restore-Coherent s c g =
      let (_, same, _) = calls-keeps p (tail_of p is_open running laws s) c in
      elim (Option-cases (calls p (tail_of p is_open running laws s) c).1) [
        | inl e ↦ rw (e, restore) (inr (s, same ∙ g, refl, calls_run p is_open running laws s c e))
        | inr (x, e) ↦
            rw (e, restore) (fail-Coherent x (calls p (tail_of p is_open running laws s) c).0)
      ]

  barrier : List (Operation p)
  barrier = hold p ∷ stop p ∷ drain p ∷ []

  -- Hold, stop and drain without error leave the gate closed.
  barrier-closed :
      (c : Controller W)
      → (calls p barrier c).1 ≡ none
      → is_open (calls p barrier c).0.runtime.world ≡ false
  unfolding barrier
  barrier-closed c h =
      let (_, e₁) = calls_ok p (hold p) _ c h in
      let (_, e₂) = calls_ok p (stop p) _ _ (rw e₁ at h) in
      let (_, e₃) = calls_ok p (drain p) _ _ (rw (e₁, e₂) at h) in
      rw (e₁, e₂, e₃)
        (unfold calls in
          drain-closed p is_open running laws _
            (stop-closed p is_open running laws _ (hold-closed p is_open running laws c.runtime)))

  rollback-Coherent : (c : Controller W) → c.applied_revision ≡ "" → Coherent (rollback p c).0
  unfolding rollback barrier
  rollback-Coherent c empty =
      let c₀ = record c { phase = Phase.rolling_back } in
      let (unclaimed, same, _) = calls-keeps p barrier c₀ in
      elim (Option-cases (calls p barrier c₀).1) [
        | inr (x, e) ↦ rw (e, rollback) (fail-Coherent x (calls p barrier c₀).0)
        | inl e ↦
            rw (e, rollback)
              (elim (Option-cases (calls p barrier c₀).0.good) [
                | inl g ↦ rw g (inl (barrier-closed c₀ e, unclaimed ∙ empty))
                | inr (s, g) ↦ rw g (restore-Coherent s (calls p barrier c₀).0 g)
              ])
      ]

  apply_or_rollback-Coherent :
      (s : Snapshot) (c : Controller W) → Coherent (apply_or_rollback p s c).0
  unfolding apply_or_rollback apply
  apply_or_rollback-Coherent s c =
      let c₀ = record c { phase = Phase.staged; applied_revision = "" } in
      let (unclaimed, _, _) = run_steps-keeps p (transaction p s) c₀ in
      elim (Option-cases (run_steps p (transaction p s) c₀).1) [
        | inl e ↦
            rw (e, apply_or_rollback) (inr (s, refl, refl, steps_run p is_open running laws s c₀ e))
        | inr (x, e) ↦
            rw (e, apply_or_rollback)
              (rollback-Coherent (run_steps p (transaction p s) c₀).0 unclaimed)
      ]

  converge-Coherent : (c : Controller W) → Coherent c → Coherent (converge p c).0
  unfolding converge
  converge-Coherent c h = elim (Option-cases c.desired) [
    | inl e ↦ rw (e, converge) h
    | inr (s, e) ↦
        rw (e, converge)
          (elim (Bool-cases (str_eq c.applied_revision s.revision)) [
            | inl same ↦ rw same h
            | inr new' ↦ rw new' (apply_or_rollback-Coherent s c)
          ])
  ]

  receive-Coherent :
      {B : Type 0} (stage : B → Option Snapshot) (answer : Fetched B) (c : Controller W)
      → Coherent c
      → Coherent (receive p stage answer c).0
  unfolding receive
  receive-Coherent stage failed c h = h
  receive-Coherent stage not_modified c h = converge-Coherent c h
  receive-Coherent stage (fetched bytes) c h = elim (Option-cases (stage bytes)) [
    | inl e ↦ rw (e, receive) h
    | inr (s, e) ↦
        rw (e, receive)
          (converge-Coherent (record c { desired = some s; desired_revision = s.revision }) h)
  ]

  -- A step that holds leaves a coherent controller coherent, if nothing was claimed before.
  hold_step-Coherent :
      (c : Controller W)
      → (is_open c.runtime.world ≡ false) × (c.applied_revision ≡ "")
      → let c' = (step p holding (hold p) c).0 in
        (is_open c'.runtime.world ≡ false) × (c'.applied_revision ≡ "")
  unfolding step
  hold_step-Coherent c h = ground (arith, hold-closed p is_open running laws c.runtime)

  restore-initialized :
      (s : Snapshot) (c : Controller W) → (restore p s c).0.initialized ≡ c.initialized
  unfolding restore fail
  restore-initialized s c = ground (arith, calls-keeps p (tail_of p is_open running laws s) c)

  rollback-initialized : (c : Controller W) → (rollback p c).0.initialized ≡ c.initialized
  unfolding rollback fail barrier
  rollback-initialized c =
      let c₀ = record c { phase = Phase.rolling_back } in
      let (_, _, same) = calls-keeps p barrier c₀ in
      elim (Option-cases (calls p barrier c₀).1) [
        | inr (x, e) ↦ rw (e, rollback) same
        | inl e ↦
            rw (e, rollback)
              (elim (Option-cases (calls p barrier c₀).0.good) [
                | inl g ↦ rw g same
                | inr (s, g) ↦ rw g (restore-initialized s (calls p barrier c₀).0 ∙ same)
              ])
      ]

  apply_or_rollback-initialized :
      (s : Snapshot) (c : Controller W) → (apply_or_rollback p s c).0.initialized ≡ c.initialized
  unfolding apply_or_rollback apply
  apply_or_rollback-initialized s c =
      let c₀ = record c { phase = Phase.staged; applied_revision = "" } in
      let (_, _, same) = run_steps-keeps p (transaction p s) c₀ in
      elim (Option-cases (run_steps p (transaction p s) c₀).1) [
        | inl e ↦ rw (e, apply_or_rollback) same
        | inr (x, e) ↦
            rw (e, apply_or_rollback)
              (rollback-initialized (run_steps p (transaction p s) c₀).0 ∙ same)
      ]

  converge-initialized : (c : Controller W) → (converge p c).0.initialized ≡ c.initialized
  unfolding converge
  converge-initialized c = elim (Option-cases c.desired) [
    | inl e ↦ ground arith
    | inr (s, e) ↦ ground (arith, apply_or_rollback-initialized s c)
  ]

  receive-initialized :
      {B : Type 0} (stage : B → Option Snapshot) (answer : Fetched B) (c : Controller W)
      → (receive p stage answer c).0.initialized ≡ c.initialized
  unfolding receive
  receive-initialized stage failed c = refl
  receive-initialized stage not_modified c = converge-initialized c
  receive-initialized stage (fetched bytes) c = elim (Option-cases (stage bytes)) [
    | inl e ↦ rw (e, receive) refl
    | inr (s, e) ↦
        rw (e, receive)
          (converge-initialized (record c { desired = some s; desired_revision = s.revision }))
  ]

  -- Before the first Sync step that succeeds, the gate is still closed.
  pub record IsSound (c : Controller W) : Type 0 where
    pub coherent : Coherent c
    pub waiting :
        (c.initialized ≡ true) ⊎ ((is_open c.runtime.world ≡ false) × (c.applied_revision ≡ ""))

  after_first_hold-IsSound :
      {B : Type 0} (stage : B → Option Snapshot) (source : String → Fetched B)
      (q : Controller W × Option SyncError)
      → (is_open q.0.runtime.world ≡ false) × (q.0.applied_revision ≡ "")
      → IsSound (after_first_hold p stage source q).0
  unfolding after_first_hold
  after_first_hold-IsSound stage source (c, some x) h = record { coherent = inl h; waiting = inr h }
  after_first_hold-IsSound stage source (c, none) h =
      let c' = record c { phase = Phase.waiting_snapshot; initialized = true } in
      let answer = source (known p c') in
      record {
        coherent = receive-Coherent stage answer c' (inl h);
        waiting = inl (receive-initialized stage answer c');
      }

  -- A Sync, whatever the source answers, whichever call of the gate or of the connector fails and
  -- whichever context expires, keeps the controller sound.
  pub sync-IsSound :
      {B : Type 0} (stage : B → Option Snapshot) (source : String → Fetched B) (c : Controller W)
      → IsSound c
      → IsSound (sync p stage source c).0
  unfolding sync
  sync-IsSound stage source c h =
      let answer = source (known p c) in
      elim (Bool-cases c.initialized) [
        | inl e ↦
            subst (λ (q : Controller W × Option SyncError). IsSound q.0)
              (sym (
                ap
                  (λ b.
                    if b
                    then receive p stage answer c
                    else after_first_hold p stage source (step p holding (hold p) c))
                  e))
              (record {
                coherent = receive-Coherent stage answer c h.coherent;
                waiting = inl (receive-initialized stage answer c ∙ e);
              })
        | inr e ↦
            subst (λ (q : Controller W × Option SyncError). IsSound q.0)
              (sym (
                ap
                  (λ b.
                    if b
                    then receive p stage answer c
                    else after_first_hold p stage source (step p holding (hold p) c))
                  e))
              (after_first_hold-IsSound stage source (step p holding (hold p) c) (
                hold_step-Coherent c
                  (elim h.waiting [ inl done ↦ absurd (ground (arith, done, e)) | inr w ↦ w ])))
      ]

  -- Over any sequence of syncs, whatever the source answers and whichever call fails or runs out of
  -- time, a sound controller stays sound: where the gate admits traffic, the revision that the
  -- controller claims as applied is that of its last good snapshot, the running connector has loaded
  -- it and the resolver maps by its entries; where no revision is claimed, the gate is closed.
  pub run-IsSound :
      {B : Type 0} (stage : B → Option Snapshot) (sources : List (String → Fetched B))
      (c : Controller W)
      → IsSound c
      → IsSound (run p stage sources c)
  unfolding run
  run-IsSound stage [] c h = h
  run-IsSound stage (source ∷ rest) c h =
      run-IsSound stage rest (sync p stage source c).0 (sync-IsSound stage source c h)

  -- A new controller is sound where the gate is closed.
  pub new-IsSound : (r : Runtime W) → is_open r.world ≡ false → IsSound (new r)
  unfolding new
  new-IsSound r h = record { coherent = inl (h, refl); waiting = inr (h, refl) }
