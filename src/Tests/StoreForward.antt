-- ===== src/Tests/StoreForward.antt =====
-- internal/storeforward: a buffer of two rows at work.
use nexus_gateway.Prelude.{
  ℕ, ◌+◌, ◌-◌, ◌≡◌, refl, String, Bool, true, false, none, some, List, [], ◌∷◌, length, arith,
  member, All, leb, ◌&&◌, ◌==◌,
}
use nexus_gateway.Prelude.Int.{ℤ, pos, negsuc, ◌-ℤ◌}
use nexus_gateway.Prelude.Dict.{lookup}
use nexus_gateway.Frame.{TelemetryFrame, value_num}
use nexus_gateway.StoreForward.Ack.{
  SentFrame, apply_ack, drifts_of, wrapping_difference, apply_ack-drifts, last_seq, or_zero,
  sent_by, unaccepted, total,
}
use nexus_gateway.StoreForward.Buffer.{
  Row, Buffer, Codec, WriteStep, exec_delete, write, attributes_column, statements, dropped,
  record_write_error, read_batch, depth, record_duplicate,
}
use nexus_gateway.StoreForward.Buffer.Accounts.{IsValid, acked_rows}
use nexus_gateway.StoreForward.Buffer.Writes.{
  write_accounts, Call, writes, advances, run, Balances, run-Balances,
}
use nexus_gateway.StoreForward.Buffer.Reading.{RoundTrips, read_batch-write}
use nexus_gateway.StoreForward.Open.{File, OpenStep, open_buffer}
use nexus_gateway.StoreForward.Open.Checked.{Checked, open_buffer-Checked}
use nexus_gateway.StoreForward.Window.{contains, add, new_window}
use nexus_gateway.StoreForward.Window.Refinement.{adds, bound, contains-adds}
use nexus_gateway.StoreForward.Pump.{FrameMsg, pump, pump_step, settle, start, ack}
use nexus_gateway.StoreForward.Pump.Safety.{commits, acked, pump-commits, pump_step-duplicate}
use nexus_gateway.StoreForward.Schema.{Schema, Statement, stamp, migrate}
use nexus_gateway.StoreForward.Schema.Resume.{IsStamped, IsCurrent, never, migrate_resumes}

abbrev pub reading : TelemetryFrame ℕ
reading = record {
  gateway_id = "gw";
  point_id = "room/temperature";
  timestamp = "2026-01-01T00:00:00Z";
  attributes = [];
  value = some (value_num 21);
}

-- An encoding that writes one byte for this frame.
abbrev pub codec : Codec ℕ
codec = record {
  marshal = λ f. some (7 ∷ []);
  unmarshal = λ bytes. some reading;
  encode_attributes = λ m. none;
  decode_attributes = λ s. ([], false);
  zero_num = 0;
}

abbrev pub serves : WriteStep → Bool
serves s = false

-- The DELETE is refused.
abbrev delete_fails : WriteStep → Bool
delete_fails exec_delete = true
delete_fails _ = false

abbrev pub row : ℕ → Row ℕ
row seq = record {
  seq = seq;
  gateway_id = "gw";
  point_id = "room/temperature";
  value = 21;
  timestamp = "2026-01-01T00:00:00Z";
  attributes = none;
  frame = some (7 ∷ []);
}

-- Two rows, the first of which is acked, in a buffer of that capacity.
abbrev pub full : Buffer ℕ
full = record {
  db = record { rows = row 1 ∷ row 2 ∷ []; last_seq = 2; cursor = some 1 };
  capacity = 2;
  drifts = [];
  written = 2;
  evicted_sent = 0;
  lost_unsent = 0;
  write_errors = 0;
  duplicates = 0;
  sent = 0;
  accepted = pos 0;
  checkpoints = 0;
  send_errors = 0;
  drift_total = 0;
  last_checkpoint_unix = 0;
  notify = false;
}

full-IsValid : IsValid full
full-IsValid = record {
  ordered = record {
    ascending = (omega arith, (omega arith, tt));
    up_to = (omega arith, (omega arith, tt));
    behind = omega arith;
  };
  bounded = omega arith;
  positive = omega arith;
}

write_ok : (write codec serves reading full).1 ≡ none
unfolding write attributes_column statements
write_ok = refl

write_accounts_example :
    let b' = (write codec serves reading full).0 in
    (depth b' + b'.lost_unsent ≡ depth full + full.lost_unsent + 1)
    × (acked_rows b' + b'.evicted_sent ≡ acked_rows full + full.evicted_sent)
    × (b'.written ≡ full.written + 1)
write_accounts_example = write_accounts codec serves reading full full-IsValid write_ok

-- A write, an ack of row 2, a refused write and another write.
abbrev history : List (Call codec)
history =
    writes serves reading ∷ advances 2 ∷ writes delete_fails reading ∷ writes serves reading ∷ []

full-Balances : Balances codec full
unfolding dropped
full-Balances = record { valid = full-IsValid; balanced = refl }

run-Balances_example : Balances codec (run codec full history)
run-Balances_example = run-Balances codec full history full-Balances

reading-RoundTrips : RoundTrips codec reading
reading-RoundTrips = record { decodes = λ wire e. refl; nonempty = λ wire e n. cc (e, n) }

read_batch-write_example :
    read_batch codec false 2 32 (write codec serves reading full).0 ≡ some ((3, reading) ∷ [])
read_batch-write_example =
    read_batch-write codec serves reading full 31 full-IsValid reading-RoundTrips write_ok

abbrev sent : List SentFrame
sent =
    record { seq = 1; point_id = "a" }
    ∷ record { seq = 2; point_id = "b" }
    ∷ record { seq = 3; point_id = "b" }
    ∷ []

-- The server answers -2.
apply_ack-drifts_example :
    let (cursor, drifts) = apply_ack sent (negsuc 1) in
    (cursor ≡ last_seq sent)
    × ((k : String) → or_zero (lookup k drifts) ≡ sent_by k (unaccepted sent (negsuc 1)))
    × (total drifts ≡ length (unaccepted sent (negsuc 1)))
apply_ack-drifts_example = apply_ack-drifts sent (negsuc 1) (omega arith, omega arith, omega arith)

-- Of the least int64 the code records no drift.
abbrev least : ℤ
least = negsuc 9223372036854775807

least_count : (apply_ack sent least).1 ≡ []
unfolding apply_ack drifts_of wrapping_difference ◌-ℤ◌
least_count = refl

contains-adds_example :
    let w = adds (new_window 64) (65 ∷ 1 ∷ []) in
    contains w 1 ≡ (leb (bound (65 ∷ 1 ∷ []) - w.n) 1 && member 1 (65 ∷ 1 ∷ []))
contains-adds_example = contains-adds 64 (65 ∷ 1 ∷ []) 1

abbrev message : ℕ → FrameMsg ℕ
message seq = record { frame = reading; has_msg = true; seq = seq }

-- Message 5, delivered twice.
abbrev delivered : List ((WriteStep → Bool) × FrameMsg ℕ)
delivered = (delete_fails, message 5) ∷ (serves, message 5) ∷ []

pump-commits_example :
    let (s, replies) = pump codec (start full) delivered in
    let cs = commits codec (start full) [] delivered in
    All (λ x. member x cs ≡ true) (acked codec replies) × (s.buffer.written ≡ 2 + length cs)
pump-commits_example = pump-commits codec full delivered

committed_five : commits codec (start full) [] delivered ≡ 5 ∷ []
unfolding commits pump_step settle start new_window contains add write attributes_column statements
    record_write_error
committed_five = refl

pump_step-duplicate_example :
    let s = (pump codec (start full) delivered).0 in
    pump_step codec s (serves, message 5)
    ≡ (record s { buffer = record_duplicate s.buffer }, some ack)
pump_step-duplicate_example =
    pump_step-duplicate codec full delivered serves (message 5) (λ e. cc e) (rw committed_five refl)
      (rw committed_five (unfold bound in omega arith))

-- A file of the first schema; the stamp of the second step is refused.
abbrev first_schema : Schema
first_schema = record {
  user_version = 1;
  frames_table = true;
  cursor_table = true;
  attributes_column = false;
  frame_column = false;
}

abbrev interrupted : ℕ → Statement → Bool
interrupted v stamp = v == 2
interrupted v _ = false

first_schema-IsStamped : IsStamped first_schema
first_schema-IsStamped = record {
  frames = λ h. refl;
  cursor = λ h. refl;
  attributes = λ h. absurd (omega (arith, h));
  frame = λ h. absurd (omega (arith, h));
}

migrate_resumes_example :
    let t = (migrate interrupted first_schema).0 in
    ((migrate never t).1 ≡ none) × IsCurrent (migrate never t).0
migrate_resumes_example =
    migrate_resumes interrupted first_schema first_schema-IsStamped (omega arith)

abbrev accepting : OpenStep → Bool
accepting step = false

-- The file of `full`, still under the first schema.
abbrev old_file : File ℕ
old_file = record { db = full.db; schema = first_schema }

open_buffer-Checked_example :
    Checked old_file (pos 2) 100 (open_buffer accepting never (pos 2) 100 old_file)
open_buffer-Checked_example =
    open_buffer-Checked accepting never (pos 2) 100 old_file first_schema-IsStamped (omega arith)
