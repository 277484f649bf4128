-- ===== src/StoreForward/Schema.antt =====
-- internal/storeforward/buffer.go: `migrate` and the steps of `migrations`. The schema of the file is
-- what the steps look at and change; `fails` tells which statement of which step SQLite refuses, the
-- reading of the stamp, for which no step is known yet, as one of step 0.
pub mod Resume
use nexus_gateway.Prelude.{
  ℕ, zero, suc, ◌+◌, ◌-◌, Bool, true, false, Option, none, some, ltb, if◌then◌else◌, not, ◌&&◌,
}

pub record Schema : Type 0 where
  pub user_version : ℕ
  pub frames_table : Bool
  pub cursor_table : Bool
  pub attributes_column : Bool
  pub frame_column : Bool

abbrev pub schema_version : ℕ
schema_version = 3

pub data MigrateError : Type 0 where
  newer : ℕ → MigrateError
  unreadable : MigrateError
  step_failed stamp_failed : ℕ → MigrateError

-- A step's first statement and, where it has one, its second: the other CREATE of the first step, the
-- ALTER after the probe of the others.
pub data Statement : Type 0 where
  read_version apply_step second_statement stamp : Statement

-- 0 -> 1: CREATE TABLE IF NOT EXISTS, twice
abbrev pub create_tables : Schema → Option Schema
create_tables s = some (record s { frames_table = true; cursor_table = true })

-- 1 -> 2: probe, then ALTER TABLE, which fails where the table is missing
abbrev pub add_attributes : Schema → Option Schema
add_attributes s =
    if s.attributes_column
    then some s
    else if s.frames_table
    then some (record s { attributes_column = true })
    else none

-- 2 -> 3
abbrev pub add_frame : Schema → Option Schema
add_frame s =
    if s.frame_column
    then some s
    else if s.frames_table
    then some (record s { frame_column = true })
    else none

-- migrations[v]; past the last step the index would panic.
unfoldable pub migration : ℕ → Schema → Option Schema
migration zero s = create_tables s
migration (suc zero) s = add_attributes s
migration (suc (suc zero)) s = add_frame s
migration (suc (suc (suc v))) s = none

-- What a step leaves whose second statement fails: the first step has created one table, the probe of
-- the others has changed nothing.
unfoldable pub half_done : ℕ → Schema → Schema
half_done zero s = record s { frames_table = true }
half_done (suc v) s = s

-- Whether a step has a second statement: the first always, the others where the column is missing.
unfoldable pub has_second : ℕ → Schema → Bool
has_second zero s = true
has_second (suc zero) s = not s.attributes_column
has_second (suc (suc v)) s = not s.frame_column

-- for v := current; v < schemaVersion; v++, by the steps left
unfoldable pub migrate_from : (ℕ → Statement → Bool) → ℕ → ℕ → Schema → Schema × Option MigrateError
unfolding half_done has_second
migrate_from fails zero v s = (s, none)
migrate_from fails (suc k) v s =
    if fails v apply_step
    then (s, some (step_failed v))
    else if fails v second_statement && has_second v s
    then (half_done v s, some (step_failed v))
    else elim (migration v s) [
      | none ↦ (s, some (step_failed v))
      | some t ↦
          if fails v stamp
          then (t, some (stamp_failed v))
          else migrate_from fails k (v + 1) (record t { user_version = v + 1 })
    ]

unfoldable pub migrate : (ℕ → Statement → Bool) → Schema → Schema × Option MigrateError
unfolding migrate_from
migrate fails s =
    if fails 0 read_version
    then (s, some unreadable)
    else if ltb schema_version s.user_version
    then (s, some (newer s.user_version))
    else migrate_from fails (schema_version - s.user_version) s.user_version s
