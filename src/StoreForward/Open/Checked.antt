-- ===== src/StoreForward/Open/Checked.antt =====
-- internal/storeforward/buffer.go: what an opened buffer has been checked for.
use nexus_gateway.Prelude.{
  ℕ, zero, suc, ◌≤◌, ◌<◌, ◌≡◌, ◌≢◌, ◌⊎◌, refl, Bool, false, Option, none, some, [], inl, inr, arith,
  Option-cases,
}
use nexus_gateway.Prelude.Int.{ℤ, pos, negsuc, ◌≤ℤ◌}
use nexus_gateway.StoreForward.Buffer.{Db, Buffer}
use nexus_gateway.StoreForward.Schema.{Schema, MigrateError, Statement, migrate}
use nexus_gateway.StoreForward.Schema.Resume.{IsStamped, IsCurrent, migrate_ok}
use nexus_gateway.StoreForward.Open.{
  File, OpenStep, OpenError, capacity_not_positive, Opened, opened, not_opened, first_refused,
  new_buffer, after_migrate, open_positive, open_buffer,
}

module _ {F : Type 0} where
  -- The tables of the file, the capacity, and nothing counted yet; the checkpoint clock starts now.
  pub record StartsEmpty (db : Db F) (capacity now : ℕ) (b : Buffer F) : Type 0 where
    pub tables : b.db ≡ db
    pub room : b.capacity ≡ capacity
    pub no_drifts : b.drifts ≡ []
    pub writes : (b.written ≡ 0) × (b.write_errors ≡ 0) × (b.duplicates ≡ 0)
    pub evictions : (b.evicted_sent ≡ 0) × (b.lost_unsent ≡ 0)
    pub uplink : (b.sent ≡ 0) × (b.accepted ≡ pos 0) × (b.send_errors ≡ 0) × (b.drift_total ≡ 0)
    pub clock : (b.checkpoints ≡ 0) × (b.last_checkpoint_unix ≡ now)
    pub silent : b.notify ≡ false

  -- An error, or a buffer that starts empty under the current schema.
  abbrev pub Migrated : File F → ℕ → ℕ → File F × Opened F → Type 0
  Migrated file capacity now (file', o) =
      (file'.db ≡ file.db)
      × (((e : OpenError) × (o ≡ not_opened e) × (e ≢ capacity_not_positive))
          ⊎ ((b : Buffer F) × (o ≡ opened b)
              × StartsEmpty file.db capacity now b
              × IsCurrent file'.schema))

  -- A capacity of zero or less is refused with the file as it is; with a positive one, the above.
  abbrev pub Checked : File F → ℤ → ℕ → File F × Opened F → Type 0
  Checked file capacity now (file', o) =
      ((capacity ≤ℤ pos 0) × (file' ≡ file) × (o ≡ not_opened capacity_not_positive))
      ⊎ ((n : ℕ) × (0 < n) × (capacity ≡ pos n) × Migrated file n now (file', o))

  after_migrate-Migrated :
      (file : File F) (capacity now : ℕ) (q : Schema × Option MigrateError)
      → (q.1 ≡ none → IsCurrent q.0)
      → Migrated file capacity now (after_migrate file capacity now q)
  unfolding after_migrate new_buffer
  after_migrate-Migrated file capacity now (schema, some e) h =
      (refl, inl (_, refl, λ same. cc same))
  after_migrate-Migrated file capacity now (schema, none) h = (
    refl,
    inr (
      _,
      refl,
      record {
        tables = refl;
        room = refl;
        no_drifts = refl;
        writes = (refl, refl, refl);
        evictions = (refl, refl);
        uplink = (refl, refl, refl, refl);
        clock = (refl, refl);
        silent = refl;
      },
      h refl,
    ),
  )

  open_positive-Migrated :
      (fails : OpenStep → Bool) (refuses : ℕ → Statement → Bool) (n now : ℕ) (file : File F)
      → IsStamped file.schema
      → file.schema.user_version ≤ 3
      → Migrated file n now (open_positive fails refuses n now file)
  unfolding open_positive
  open_positive-Migrated fails refuses n now file h v = elim (Option-cases (first_refused fails)) [
    | inr (step, e) ↦ rw (e, open_positive) (refl, inl (_, refl, λ same. cc same))
    | inl e ↦
        rw (e, open_positive)
          (after_migrate-Migrated file n now (migrate refuses file.schema)
            (migrate_ok refuses file.schema h v))
  ]

  -- Opening a stamped file that is not newer than the program, whatever SQLite refuses: a capacity of
  -- zero or less is refused with that error and the file stays as it is; with a positive one the
  -- tables stay as they are, and either another error is reported or the buffer has that capacity,
  -- the file's tables, every counter at zero, no drifts and no signal, its checkpoint clock at the
  -- time of opening, and the current schema under it.
  pub open_buffer-Checked :
      (fails : OpenStep → Bool) (refuses : ℕ → Statement → Bool) (capacity : ℤ) (now : ℕ)
      (file : File F)
      → IsStamped file.schema
      → file.schema.user_version ≤ 3
      → Checked file capacity now (open_buffer fails refuses capacity now file)
  unfolding open_buffer
  open_buffer-Checked fails refuses (pos zero) now file h v = inl (omega arith, refl, refl)
  open_buffer-Checked fails refuses (pos (suc n)) now file h v =
      inr (suc n, omega arith, refl, open_positive-Migrated fails refuses (suc n) now file h v)
  open_buffer-Checked fails refuses (negsuc n) now file h v = inl (omega arith, refl, refl)
