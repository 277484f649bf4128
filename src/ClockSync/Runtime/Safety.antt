-- ===== src/ClockSync/Runtime/Safety.antt =====
-- What the runtime's operations do to the gate and to the running connector.
use nexus_gateway.Prelude.{
  String, Bool, true, false, Option, none, some, eq_iff, ◌≡◌, ◌≢◌, arith, Option-cases, inl, inr,
}
use nexus_gateway.PointList.{update}
use nexus_gateway.ClockSync.Runtime.{
  Snapshot, Plant, Runtime, hold, stop, drain, configure, start, verify, resume,
}

-- What internal/clocksync documents of the two interfaces, over an observation of the gate and one of
-- the connector: `Hold` closes and stays closed on error; only `Resume` opens, and not on error;
-- `Revision` reports the loaded revision of the running connector.
pub record PlantLaws {W : Type 0} (p : Plant W) (is_open : W → Bool) (running : W → Option String)
    : Type 0 where
  pub hold_closes : (w : W) → is_open (p.hold w).0 ≡ false
  pub drain_closed : (w : W) → is_open w ≡ false → is_open (p.drain w).0 ≡ false
  pub stop_closed : (w : W) → is_open w ≡ false → is_open (p.stop w).0 ≡ false
  pub configure_closed :
      (s : Snapshot) (w : W) → is_open w ≡ false → is_open (p.configure s w).0 ≡ false
  pub start_closed : (w : W) → is_open w ≡ false → is_open (p.start w).0 ≡ false
  pub resume_opens : (w : W) → (p.resume w).1 ≡ true → is_open (p.resume w).0 ≡ true
  pub resume_running : (w : W) → running (p.resume w).0 ≡ running w
  pub revision_reads :
      (w : W) (r : String) → (p.revision w).1 ≡ some r → running (p.revision w).0 ≡ some r

module _ {W : Type 0} (p : Plant W) (is_open : W → Bool) (running : W → Option String)
    (laws : PlantLaws p is_open running) where
  pub hold-closed : (r : Runtime W) → is_open (hold p r).0.world ≡ false
  unfolding hold
  hold-closed r = ground (arith, laws.hold_closes r.world)

  pub stop-closed : (r : Runtime W) → is_open r.world ≡ false → is_open (stop p r).0.world ≡ false
  unfolding stop
  stop-closed r h = ground (arith, laws.stop_closed r.world h)

  pub drain-closed : (r : Runtime W) → is_open r.world ≡ false → is_open (drain p r).0.world ≡ false
  unfolding drain
  drain-closed r h = ground (arith, laws.drain_closed r.world h)

  -- A configuration that succeeds is the one that the resolver answers from.
  pub configure_ok :
      (s : Snapshot) (r : Runtime W)
      → (configure p s r).1 ≡ none
      → let r' = (configure p s r).0 in
        (r'.configured_revision ≡ s.revision) × (r'.resolver ≡ update s.entries)
  unfolding configure
  configure_ok s r h = ground arith

  pub start_ok :
      (r : Runtime W)
      → (start p r).1 ≡ none
      → let r' = (start p r).0 in
        (r'.configured_revision ≡ r.configured_revision)
        × (r'.resolver ≡ r.resolver)
        × (r.configured_revision ≢ "")
  unfolding start
  start_ok r h = ground (arith, eq_iff r.configured_revision "")

  -- Verification succeeds only where the connector that runs reports the configured revision.
  pub verify_ok :
      (revision : String) (r : Runtime W)
      → (verify p revision r).1 ≡ none
      → let r' = (verify p revision r).0 in
        (running r'.world ≡ some revision)
        × (r.configured_revision ≡ revision)
        × (r'.resolver ≡ r.resolver)
  unfolding verify
  verify_ok revision r h = elim (Option-cases (p.revision r.world).1) [
    | inl e ↦ absurd (ground arith)
    | inr (got, e) ↦ ground (
      arith,
      eq_iff revision r.configured_revision,
      eq_iff got revision,
      laws.revision_reads r.world got e,
    )
  ]

  pub resume_ok :
      (r : Runtime W)
      → (resume p r).1 ≡ none
      → let r' = (resume p r).0 in
        (running r'.world ≡ running r.world)
        × (r'.resolver ≡ r.resolver)
        × (r'.held ≡ false)
        × (is_open r'.world ≡ true)
  unfolding resume
  resume_ok r h = ground (arith, laws.resume_running r.world, laws.resume_opens r.world)
