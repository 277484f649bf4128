-- ===== src/StoreForward/Buffer.antt =====
-- internal/storeforward/buffer.go: the SQLite ring buffer. A table is the list of its rows in the
-- order of its primary key `seq`; a transaction that stops early is rolled back. What SQLite and
-- the encoders answer is an argument (`fails`, `Codec`). Counters are unbounded. A COMMIT that reports
-- an error is taken to have left the tables as they were, as SQLite rolls back what it cannot commit.
-- The queries of Cursor and Depth are taken to succeed; where one fails the code answers 0.
pub mod Order
pub mod Eviction
pub mod Accounts
pub mod Writes
pub mod Reading
use nexus_gateway.Prelude.{
  ℕ, zero, suc, ◌+◌, ◌-◌, min, String, Bool, true, false, not, Option, none, some, List, [], ◌∷◌,
  ◌++◌, map, length, take, filter, member, count_if, ltb, leb, ◌==◌, ◌||◌, if◌then◌else◌, str_eq,
  ◌<◌, ◌≤◌, All,
}
use nexus_gateway.Prelude.Int.{ℤ, pos, ◌+ℤ◌, ltb_ℤ}
use nexus_gateway.Prelude.Dict.{Dict, lookup, insert}
use nexus_gateway.Frame.{TelemetryFrame, Scalar, value_num}

-- protobuf and encoding/json. `none` is an error of the encoder or decoder; a failed decoding of
-- the attributes (`false`) may leave a part of the map.
pub record Codec (F : Type 0) : Type 0 where
  pub marshal : TelemetryFrame F → Option (List ℕ)
  pub unmarshal : List ℕ → Option (TelemetryFrame F)
  pub encode_attributes : Dict String → Option String
  pub decode_attributes : String → Dict String × Bool
  pub zero_num : F

-- A row of `frames`. The last two columns are nullable.
pub record Row (F : Type 0) : Type 0 where
  pub seq : ℕ
  pub gateway_id : String
  pub point_id : String
  pub value : F
  pub timestamp : String
  pub attributes : Option String
  pub frame : Option (List ℕ)

-- The tables `frames` and `cursor` (one row, or none), and the AUTOINCREMENT counter.
pub record Db (F : Type 0) : Type 0 where
  pub rows : List (Row F)
  pub last_seq : ℕ
  pub cursor : Option ℕ

pub record Buffer (F : Type 0) : Type 0 where
  pub db : Db F
  pub capacity : ℕ
  pub drifts : Dict ℕ
  pub written : ℕ
  pub evicted_sent : ℕ
  pub lost_unsent : ℕ
  pub write_errors : ℕ
  pub duplicates : ℕ
  pub sent : ℕ
  pub accepted : ℤ
  pub checkpoints : ℕ
  pub send_errors : ℕ
  pub drift_total : ℕ
  pub last_checkpoint_unix : ℕ
  pub notify : Bool  -- a signal is pending in the channel of one slot

pub data WriteStep : Type 0 where
  begin exec_insert count_rows exec_delete commit : WriteStep

pub data WriteError : Type 0 where
  marshal_frame encode_attrs : WriteError
  sqlite : WriteStep → WriteError

pub data TxResult (F : Type 0) : Type 0 where
  aborted : WriteError → TxResult F
  committed : Db F → ℕ → ℕ → TxResult F

-- COALESCE((SELECT seq FROM cursor WHERE id = 1), 0)
abbrev pub cursor_or_zero : Option ℕ → ℕ
cursor_or_zero none = 0
cursor_or_zero (some c) = c

-- A NULL `frame` scans as no bytes.
abbrev pub bytes_of : Option (List ℕ) → List ℕ
bytes_of none = []
bytes_of (some w) = w

module _ {F : Type 0} where
  abbrev pub is_acked : ℕ → Row F → Bool
  is_acked c r = leb r.seq c

  abbrev pub is_beyond : ℕ → Row F → Bool
  is_beyond c r = ltb c r.seq

  abbrev pub seqs : List (Row F) → List ℕ
  seqs [] = []
  seqs (r ∷ rs) = r.seq ∷ seqs rs

  -- GetValueNum: the zero of float64 when the oneof holds another case.
  unfoldable pub value_num_or : F → Option (Scalar F) → F
  value_num_or z (some (value_num x)) = x
  value_num_or z _ = z

  -- The `attributes` column: NULL for an empty map.
  unfoldable pub attributes_column : Codec F → Dict String → Option (Option String)
  attributes_column c [] = some none
  attributes_column c (a ∷ as') = elim (c.encode_attributes (a ∷ as')) [
    | none ↦ none
    | some s ↦ some (some s)
  ]

  -- The attributes of a row that holds no encoded frame.
  unfoldable pub legacy_attributes : Codec F → Option String → Dict String
  legacy_attributes c none = []
  legacy_attributes c (some s) = if str_eq s "" then [] else (c.decode_attributes s).0

  -- The values of the INSERT, under the key that SQLite gives.
  abbrev pub new_row : Codec F → TelemetryFrame F → List ℕ → Option String → ℕ → Row F
  new_row c f wire attrs seq = record {
    seq = seq;
    gateway_id = f.gateway_id;
    point_id = f.point_id;
    value = value_num_or c.zero_num f.value;
    timestamp = f.timestamp;
    attributes = attrs;
    frame = some wire;
  }

  -- INSERT INTO frames
  unfoldable pub insert_row : Codec F → TelemetryFrame F → List ℕ → Option String → Db F → Db F
  insert_row c f wire attrs db = record db {
    rows = db.rows ++ new_row c f wire attrs (suc db.last_seq) ∷ [];
    last_seq = suc db.last_seq;
  }

  -- DELETE FROM frames WHERE seq IN (the first COUNT(*) - capacity by seq)
  unfoldable pub delete_oldest : ℕ → List (Row F) → List (Row F)
  delete_oldest cap rs =
      let victims = take (length rs - cap) (seqs rs) in
      filter (λ (r : Row F). not (member r.seq victims)) rs

  -- The rows over capacity, and those of them at or below the cursor: the acked rows are counted,
  -- not sought, since they are the oldest.
  unfoldable pub evicted_count : ℕ → Db F → ℕ
  evicted_count cap db =
      let victims = length db.rows - cap in
      let acked = count_if (is_acked (cursor_or_zero db.cursor)) db.rows in
      if ltb 0 victims then min victims acked else 0

  unfoldable pub lost_count : ℕ → Db F → ℕ
  unfolding evicted_count
  lost_count cap db =
      let victims = length db.rows - cap in
      if ltb 0 victims then victims - evicted_count cap db else 0

  -- The statements of `Write` from INSERT to COMMIT, on the tables after the INSERT.
  unfoldable pub statements : (WriteStep → Bool) → ℕ → Db F → TxResult F
  statements fails cap db =
      if fails exec_insert
      then aborted (sqlite exec_insert)
      else if fails count_rows
      then aborted (sqlite count_rows)
      else if fails exec_delete
      then aborted (sqlite exec_delete)
      else if fails commit
      then aborted (sqlite commit)
      else committed (record db { rows = delete_oldest cap db.rows }) (evicted_count cap db)
          (lost_count cap db)

  unfoldable pub transact : Codec F → (WriteStep → Bool) → TelemetryFrame F → ℕ → Db F → TxResult F
  transact c fails f cap db = elim (c.marshal f) [
    | none ↦ aborted marshal_frame
    | some wire ↦
        if fails begin then aborted (sqlite begin) else elim (attributes_column c f.attributes) [
          | none ↦ aborted encode_attrs
          | some attrs ↦ statements fails cap (insert_row c f wire attrs db)
        ]
  ]

  -- Write, after the transaction; a failed COMMIT is one that was rolled back.
  unfoldable pub finish_write : Buffer F → TxResult F → Buffer F × Option WriteError
  finish_write b (aborted e) = (b, some e)
  finish_write b (committed db evicted lost) = (
    record b {
      db = db;
      written = b.written + 1;
      evicted_sent = b.evicted_sent + evicted;
      lost_unsent = b.lost_unsent + lost;
      notify = true;
    },
    none,
  )

  unfoldable pub write :
      Codec F → (WriteStep → Bool) → TelemetryFrame F → Buffer F → Buffer F × Option WriteError
  unfolding transact finish_write
  write c fails f b = finish_write b (transact c fails f b.capacity b.db)

  -- The frame that `ReadBatch` builds from a row; `none` is a decoding error.
  unfoldable pub decode_row : Codec F → Row F → Option (ℕ × TelemetryFrame F)
  decode_row c r = elim (bytes_of r.frame) [
    | [] ↦ some (
      r.seq,
      record {
        gateway_id = r.gateway_id;
        point_id = r.point_id;
        timestamp = r.timestamp;
        attributes = legacy_attributes c r.attributes;
        value = some (value_num r.value);
      },
    )
    | byte ∷ bytes ↦ elim (c.unmarshal (byte ∷ bytes)) [ none ↦ none | some f ↦ some (r.seq, f) ]
  ]

  -- The loop over the rows of the query's result.
  unfoldable pub decode_rows : Codec F → List (Row F) → Option (List (ℕ × TelemetryFrame F))
  decode_rows c [] = some []
  decode_rows c (r ∷ rs) =
      let rest = decode_rows c rs in
      elim (decode_row c r) [
        | none ↦ none
        | some sf ↦ elim rest [ none ↦ none | some sfs ↦ some (sf ∷ sfs) ]
      ]

  -- SELECT … FROM frames WHERE seq > ? ORDER BY seq ASC LIMIT ?
  unfoldable pub select_beyond : ℕ → ℕ → List (Row F) → List (Row F)
  select_beyond after limit rs = take limit (filter (is_beyond after) rs)

  -- ReadBatch; `fails` is an error of the query.
  unfoldable pub read_batch :
      Codec F → Bool → ℕ → ℕ → Buffer F → Option (List (ℕ × TelemetryFrame F))
  unfolding decode_rows select_beyond
  read_batch c fails after limit b =
      if fails then none else decode_rows c (select_beyond after limit b.db.rows)

  -- Advance
  unfoldable pub advance : ℕ → Buffer F → Buffer F
  advance seq b = record b { db = record (b.db) { cursor = some seq } }

  -- Cursor, whose query succeeds
  unfoldable pub cursor_of : Buffer F → ℕ
  cursor_of b = cursor_or_zero b.db.cursor

  -- Depth, whose query succeeds
  unfoldable pub depth : Buffer F → ℕ
  depth b = count_if (is_beyond (cursor_or_zero b.db.cursor)) b.db.rows

  -- Dropped
  unfoldable pub dropped : Buffer F → ℕ
  dropped b = b.evicted_sent + b.lost_unsent

  -- RecordSent, RecordAccepted, RecordCheckpoint, RecordSendError, RecordWriteError, RecordDuplicate
  unfoldable pub record_sent : ℕ → Buffer F → Buffer F
  record_sent n b = record b { sent = b.sent + n }

  unfoldable pub record_accepted : ℤ → Buffer F → Buffer F
  record_accepted n b = record b { accepted = b.accepted +ℤ n }

  unfoldable pub record_checkpoint : ℕ → Buffer F → Buffer F
  record_checkpoint now b = record b { checkpoints = b.checkpoints + 1; last_checkpoint_unix = now }

  unfoldable pub record_send_error : Buffer F → Buffer F
  record_send_error b = record b { send_errors = b.send_errors + 1 }

  unfoldable pub record_write_error : Buffer F → Buffer F
  record_write_error b = record b { write_errors = b.write_errors + 1 }

  unfoldable pub record_duplicate : Buffer F → Buffer F
  record_duplicate b = record b { duplicates = b.duplicates + 1 }

  -- `m[k] += delta` on Go's map: a missing key counts as 0.
  unfoldable pub record_drift : String → ℕ → Buffer F → Buffer F
  record_drift point delta b = record b {
    drifts = insert point (cursor_or_zero (lookup point b.drifts) + delta) b.drifts;
    drift_total = b.drift_total + delta;
  }
