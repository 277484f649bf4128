-- ===== src/StoreForward/Open.antt =====
-- internal/storeforward/buffer.go: `Open`. The file holds the two tables and the schema's stamp;
-- `fails` and `refuses` tell which call SQLite refuses.
pub mod Checked
use nexus_gateway.Prelude.{ℕ, zero, suc, Bool, true, false, Option, none, some, [], if◌then◌else◌}
use nexus_gateway.Prelude.Int.{ℤ, pos}
use nexus_gateway.StoreForward.Buffer.{Db, Buffer}
use nexus_gateway.StoreForward.Schema.{Schema, MigrateError, Statement, migrate}

pub record File (F : Type 0) : Type 0 where
  pub db : Db F
  pub schema : Schema

-- sql.Open and the three pragmas
pub data OpenStep : Type 0 where
  open_database journal_mode synchronous busy_timeout : OpenStep

pub data OpenError : Type 0 where
  capacity_not_positive : OpenError
  refused_step : OpenStep → OpenError
  migration_error : MigrateError → OpenError

pub data Opened (F : Type 0) : Type 0 where
  not_opened : OpenError → Opened F
  opened : Buffer F → Opened F

-- The loop over the pragmas, after sql.Open.
unfoldable pub first_refused : (OpenStep → Bool) → Option OpenStep
first_refused fails =
    if fails open_database
    then some open_database
    else if fails journal_mode
    then some journal_mode
    else if fails synchronous
    then some synchronous
    else if fails busy_timeout
    then some busy_timeout
    else none

module _ {F : Type 0} where
  unfoldable pub new_buffer : Db F → ℕ → ℕ → Buffer F
  new_buffer db capacity now = record {
    db = db;
    capacity = capacity;
    drifts = [];
    written = 0;
    evicted_sent = 0;
    lost_unsent = 0;
    write_errors = 0;
    duplicates = 0;
    sent = 0;
    accepted = pos 0;
    checkpoints = 0;
    send_errors = 0;
    drift_total = 0;
    last_checkpoint_unix = now;
    notify = false;
  }

  -- Open, after the migration
  unfoldable pub after_migrate : File F → ℕ → ℕ → Schema × Option MigrateError → File F × Opened F
  unfolding new_buffer
  after_migrate file capacity now (schema, some e) =
      (record file { schema = schema }, not_opened (migration_error e))
  after_migrate file capacity now (schema, none) =
      (record file { schema = schema }, opened (new_buffer file.db capacity now))

  unfoldable pub open_positive :
      (OpenStep → Bool) → (ℕ → Statement → Bool) → ℕ → ℕ → File F → File F × Opened F
  unfolding first_refused after_migrate
  open_positive fails refuses capacity now file = elim (first_refused fails) [
    | some step ↦ (file, not_opened (refused_step step))
    | none ↦ after_migrate file capacity now (migrate refuses file.schema)
  ]

  -- Open
  unfoldable pub open_buffer :
      (OpenStep → Bool) → (ℕ → Statement → Bool) → ℤ → ℕ → File F → File F × Opened F
  unfolding open_positive
  open_buffer fails refuses (pos (suc n)) now file = open_positive fails refuses (suc n) now file
  open_buffer fails refuses _ now file = (file, not_opened capacity_not_positive)
