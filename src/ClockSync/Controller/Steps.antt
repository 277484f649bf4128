-- ===== src/ClockSync/Controller/Steps.antt =====
-- Sequences of runtime calls: what their success means, and what they leave alone.
use nexus_gateway.Prelude.{
  true, false, String, Bool, true, Option, none, some, List, [], ◌∷◌, ◌≡◌, ◌≢◌, refl, ap, ◌∙◌,
  arith, Bool-cases, Option-cases, inl, inr,
}
use nexus_gateway.PointList.{update}
use nexus_gateway.ClockSync.Runtime.{
  Snapshot, Plant, Runtime, hold, stop, drain, start, verify, resume,
}
use nexus_gateway.ClockSync.Runtime.Safety.{PlantLaws, configure_ok, start_ok, verify_ok, resume_ok}
use nexus_gateway.ClockSync.Controller.{
  Controller, Phase, SyncError, Operation, step, run_steps, transaction, calls, holding, stopping,
  draining, configuring, starting, verifying, resuming, after_prepare, configure_by,
  configure_snapshot,
}

-- The gate is open, and the connector that runs has loaded the snapshot that the resolver maps by.
pub record Runs {W : Type 0} (is_open : W → Bool) (running : W → Option String) (s : Snapshot)
    (r : Runtime W) : Type 0 where
  pub admits : is_open r.world ≡ true
  pub loaded : running r.world ≡ some s.revision
  pub mapped : r.resolver ≡ update s.entries
  pub named : s.revision ≢ ""

module _ {W : Type 0} (p : Plant W) where
  pub run_steps-keeps :
      (l : List (Phase × Operation p)) (c : Controller W)
      → let c' = (run_steps p l c).0 in
        (c'.applied_revision ≡ c.applied_revision)
        × (c'.good ≡ c.good)
        × (c'.initialized ≡ c.initialized)
  unfolding run_steps step
  run_steps-keeps [] c = (refl, refl, refl)
  run_steps-keeps ((ph, f) ∷ rest) c =
      let (c', e) = step p ph f c in ground (arith, run_steps-keeps rest c')

  pub calls-keeps :
      (l : List (Operation p)) (c : Controller W)
      → let c' = (calls p l c).0 in
        (c'.applied_revision ≡ c.applied_revision)
        × (c'.good ≡ c.good)
        × (c'.initialized ≡ c.initialized)
  unfolding calls
  calls-keeps [] c = (refl, refl, refl)
  calls-keeps (f ∷ rest) c =
      ground (arith, calls-keeps rest (record c { runtime = (f c.runtime).0 }))

  -- A sequence of calls that succeeds is its first call, which succeeds, and the others after it.
  pub calls_ok :
      (f : Operation p) (rest : List (Operation p)) (c : Controller W)
      → (calls p (f ∷ rest) c).1 ≡ none
      → ((f c.runtime).1 ≡ none)
        × (calls p (f ∷ rest) c ≡ calls p rest (record c { runtime = (f c.runtime).0 }))
  unfolding calls
  calls_ok f rest c h = elim (Option-cases (f c.runtime).1) [
    | inl e ↦ (e, rw e)
    | inr (x, e) ↦ absurd (ground arith)
  ]

  step_ok :
      (ph : Phase) (f : Operation p) (c : Controller W)
      → (step p ph f c).1 ≡ none
      → ((f c.runtime).1 ≡ none)
        × (step p ph f c ≡ (record c { phase = ph; runtime = (f c.runtime).0 }, none))
  unfolding step
  step_ok ph f c h = elim (Bool-cases (p.expired c.runtime.world)) [
    | inl x ↦ absurd (ground arith)
    | inr x ↦ elim (Option-cases (f c.runtime).1) [
      | inl e ↦ (e, rw (x, e))
      | inr (y, e) ↦ absurd (ground arith)
    ]
  ]

  first_ok :
      (ph : Phase) (f : Operation p) (rest : List (Phase × Operation p)) (c : Controller W)
      → (run_steps p ((ph, f) ∷ rest) c).1 ≡ none
      → (step p ph f c).1 ≡ none
  unfolding run_steps
  first_ok ph f rest c h = ground arith

  pub steps_ok :
      (ph : Phase) (f : Operation p) (rest : List (Phase × Operation p)) (c : Controller W)
      → (run_steps p ((ph, f) ∷ rest) c).1 ≡ none
      → ((f c.runtime).1 ≡ none)
        × (run_steps p ((ph, f) ∷ rest) c
            ≡ run_steps p rest (record c { phase = ph; runtime = (f c.runtime).0 }))
  unfolding run_steps
  steps_ok ph f rest c h =
      let (called, stepped) = step_ok ph f c (first_ok ph f rest c h) in
      (
        called,
        rw (stepped, run_steps)
            (ap (λ (q : Controller W × Option SyncError). run_steps p rest q.0) stepped),
      )

  module _ (is_open : W → Bool) (running : W → Option String)
      (laws : PlantLaws p is_open running) where
    after_prepare_ok :
        (s : Snapshot) (r : Runtime W) (q : W × Bool)
        → (after_prepare p s r q).1 ≡ none
        → let r' = (after_prepare p s r q).0 in
          (r'.configured_revision ≡ s.revision) × (r'.resolver ≡ update s.entries)
    unfolding after_prepare
    after_prepare_ok s r (w, false) h = cc h
    after_prepare_ok s r (w, true) h =
        configure_ok p is_open running laws s (record r { world = w }) h

    -- A configuration by either method that succeeds is the one that the resolver answers from.
    configure_by_ok :
        (o : Option (Snapshot → W → W × Bool)) (s : Snapshot) (r : Runtime W)
        → (configure_by p o s r).1 ≡ none
        → let r' = (configure_by p o s r).0 in
          (r'.configured_revision ≡ s.revision) × (r'.resolver ≡ update s.entries)
    unfolding configure_by
    configure_by_ok none s r h = configure_ok p is_open running laws s r h
    configure_by_ok (some f) s r h = after_prepare_ok s r (f s r.world) h

    -- Configure, start, verify and resume, all without error.
    pub chain-Runs :
        (s : Snapshot) (r : Runtime W)
        → let r₁ = (configure_snapshot p s r).0 in
          let r₂ = (start p r₁).0 in
          let r₃ = (verify p s.revision r₂).0 in
          (configure_snapshot p s r).1 ≡ none
          → (start p r₁).1 ≡ none
          → (verify p s.revision r₂).1 ≡ none
          → (resume p r₃).1 ≡ none
          → Runs is_open running s (resume p r₃).0
    chain-Runs s r a b c d =
        let r₁ = (configure_snapshot p s r).0 in
        let r₂ = (start p r₁).0 in
        let r₃ = (verify p s.revision r₂).0 in
        let (rev, res) = configure_by_ok p.prepare s r a in
        let (rev', res', named) = start_ok p is_open running laws r₁ b in
        let (loaded, same, res'') = verify_ok p is_open running laws s.revision r₂ c in
        let (loaded', res''', held, opened) = resume_ok p is_open running laws r₃ d in
        record {
          admits = opened;
          loaded = loaded' ∙ loaded;
          mapped = res''' ∙ (res'' ∙ (res' ∙ res));
          named = λ e. named (rev ∙ e);
        }

    abbrev pub tail_of : Snapshot → List (Operation p)
    tail_of s = configure_snapshot p s ∷ start p ∷ verify p s.revision ∷ resume p ∷ []

    pub calls_run :
        (s : Snapshot) (c : Controller W)
        → (calls p (tail_of s) c).1 ≡ none
        → Runs is_open running s (calls p (tail_of s) c).0.runtime
    calls_run s c h =
        let (a, e) = calls_ok (configure_snapshot p s) _ c h in
        let (b, e₁) = calls_ok (start p) _ _ (rw e at h) in
        let (d, e₂) = calls_ok (verify p s.revision) _ _ (rw (e, e₁) at h) in
        let (g, e₃) = calls_ok (resume p) _ _ (rw (e, e₁, e₂) at h) in
        rw (e, e₁, e₂, e₃) (unfold calls in chain-Runs s c.runtime a b d g)

    pub steps_run :
        (s : Snapshot) (c : Controller W)
        → (run_steps p (transaction p s) c).1 ≡ none
        → Runs is_open running s (run_steps p (transaction p s) c).0.runtime
    steps_run s c h =
        let (_, e₁) = steps_ok holding (hold p) _ c h in
        let (_, e₂) = steps_ok stopping (stop p) _ _ (rw e₁ at h) in
        let (_, e₃) = steps_ok draining (drain p) _ _ (rw (e₁, e₂) at h) in
        let (a, e₄) = steps_ok configuring (configure_snapshot p s) _ _ (rw (e₁, e₂, e₃) at h) in
        let (b, e₅) = steps_ok starting (start p) _ _ (rw (e₁, e₂, e₃, e₄) at h) in
        let (d, e₆) = steps_ok verifying (verify p s.revision) _ _ (rw (e₁, e₂, e₃, e₄, e₅) at h) in
        let (g, e₇) = steps_ok resuming (resume p) _ _ (rw (e₁, e₂, e₃, e₄, e₅, e₆) at h) in
        rw (e₁, e₂, e₃, e₄, e₅, e₆, e₇) (unfold run_steps in chain-Runs s _ a b d g)
