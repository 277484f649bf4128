-- ===== src/Uplink.antt =====
-- internal/uplink/forwarder.go: `Forwarder` and its session, over the buffer and a `FrameSink`. No
-- write to the buffer falls within a drain; the text of the errors is left out.
pub mod Checkpoint
pub mod Delivery
pub mod Flush
use nexus_gateway.Prelude.{
  ℕ, zero, suc, ◌+◌, String, Bool, true, false, not, Option, none, some, List, [], ◌∷◌, ◌++◌,
  length, leb, if◌then◌else◌,
}
use nexus_gateway.Prelude.Int.{ℤ, pos}
use nexus_gateway.Prelude.Dict.{Dict}
use nexus_gateway.Frame.{TelemetryFrame}
use nexus_gateway.StoreForward.Ack.{SentFrame, apply_ack}
use nexus_gateway.StoreForward.Buffer.{
  Buffer, Codec, read_batch, advance, cursor_of, record_sent, record_accepted, record_checkpoint,
  record_send_error, record_drift,
}

-- FrameSink, and whether SQLite serves the reads and the checkpoints. The Boolean is true where the
-- call returns no error.
pub record Environment (F W : Type 0) : Type 0 where
  pub send : TelemetryFrame F → W → W × Bool
  pub checkpoint : W → W × Option ℤ
  pub read : W → W × Bool
  pub persist : W → W × Bool
  pub now : W → ℕ

-- Config, as far as a session reads it. The age is a ticker's.
pub record Config : Type 0 where
  pub checkpoint_size : ℕ

-- NewForwarder: a size that is not positive becomes the default.
unfoldable pub new_config : ℤ → Config
new_config (pos (suc n)) = record { checkpoint_size = suc n }
new_config _ = record { checkpoint_size = 1000 }

-- forwardSession, with the buffer, the world and the gauge of the uplink.
pub record Session (F W : Type 0) : Type 0 where
  pub buffer : Buffer F
  pub world : W
  pub connected : Bool
  pub cursor : ℕ
  pub batch : List SentFrame

pub data UplinkError : Type 0 where
  checkpoint_failed advance_failed send_failed : UplinkError

-- How a drain ends. `idle`: nothing is beyond the cursor; `unread`: the buffer could not be read;
-- both return nil.
pub data Ended : Type 0 where
  idle unread out_of_fuel : Ended
  failed : UplinkError → Ended

-- A case of the select in Run: the ticker of the age, or a signal that frames wait.
pub data Wake : Type 0 where
  aged signalled : Wake

module _ {F : Type 0} where
  -- The loop over the drifts of an ack; in which order is not told.
  unfoldable pub record_drifts : Dict ℕ → Buffer F → Buffer F
  record_drifts [] b = b
  record_drifts ((point, delta) ∷ rest) b = record_drifts rest (record_drift point delta b)

module _ {F W : Type 0} where
  -- newSession
  unfoldable pub new_session : Buffer F → W → Bool → Session F W
  new_session b w connected = record {
    buffer = b;
    world = w;
    connected = connected;
    cursor = cursor_of b;
    batch = [];
  }

  -- checkpoint, after Advance
  unfoldable pub after_advance : Session F W → W × Bool → Session F W × Option UplinkError
  after_advance s (w, false) = (record s { world = w }, some advance_failed)
  after_advance s (w, true) =
      (record s { world = w; buffer = advance s.cursor s.buffer; batch = [] }, none)

module _ {F W : Type 0} (env : Environment F W) where
  -- The session once its batch is acknowledged.
  unfoldable pub acknowledge : Session F W → W → ℤ → Session F W
  acknowledge s w accepted =
      let (cursor, drifts) = apply_ack s.batch accepted in
      let b = record_accepted accepted (record_sent (length s.batch) s.buffer) in
      record s {
        world = w;
        connected = true;
        cursor = cursor;
        buffer = record_drifts drifts (record_checkpoint (env.now w) b);
      }

  -- checkpoint, after the sink's Checkpoint
  unfoldable pub after_ack : Session F W → W × Option ℤ → Session F W × Option UplinkError
  unfolding after_advance
  after_ack s (w, none) = (
    record s { world = w; buffer = record_send_error s.buffer; connected = false },
    some checkpoint_failed,
  )
  after_ack s (w, some accepted) = after_advance (acknowledge s w accepted) (env.persist w)

  unfoldable pub checkpoint : Session F W → Session F W × Option UplinkError
  unfolding after_ack
  checkpoint s = elim s.batch [ [] ↦ (s, none) | x ∷ xs ↦ after_ack s (env.checkpoint s.world) ]

  -- DrainOnce, after its drain
  unfoldable pub finish_drain : Session F W × Ended → Session F W × Option UplinkError
  unfolding checkpoint
  finish_drain (s, failed x) = (s, some x)
  finish_drain (s, idle) = checkpoint s
  finish_drain (s, unread) = checkpoint s
  finish_drain (s, out_of_fuel) = (s, none)

module _ {F W : Type 0} (env : Environment F W) (cfg : Config) where
  -- The body of drain's loop over the frames, after Send
  unfoldable pub after_send :
      ℕ → TelemetryFrame F → Session F W → W × Bool → Session F W × Option UplinkError
  unfolding checkpoint
  after_send seq f s (w, false) = (
    record s { world = w; buffer = record_send_error s.buffer; connected = false },
    some send_failed,
  )
  after_send seq f s (w, true) =
      let s' = record s {
        world = w;
        batch = s.batch ++ record { seq = seq; point_id = f.point_id } ∷ [];
        cursor = seq;
      } in
      if leb cfg.checkpoint_size (length s'.batch) then checkpoint env s' else (s', none)

  unfoldable pub send_all :
      List (ℕ × TelemetryFrame F) → Session F W → Session F W × Option UplinkError
  unfolding after_send
  send_all [] s = (s, none)
  send_all ((seq, f) ∷ rest) s =
      let (s', e) = after_send seq f s (env.send f s.world) in
      elim e [ none ↦ send_all rest s' | some x ↦ (s', some x) ]

  -- A round of drain once its batch is read: `again` is the next round.
  unfoldable pub after_frames :
      (Session F W → Session F W × Ended) → Session F W × Option UplinkError → Session F W × Ended
  after_frames again (s, none) = again s
  after_frames again (s, some x) = (s, failed x)

  unfoldable pub after_read :
      (Session F W → Session F W × Ended)
      → Session F W
      → Option (List (ℕ × TelemetryFrame F))
      → Session F W × Ended
  unfolding send_all after_frames
  after_read again s none = (s, unread)
  after_read again s (some []) = (s, idle)
  after_read again s (some (sf ∷ rest)) = after_frames again (send_all (sf ∷ rest) s)

module _ {F W : Type 0} (c : Codec F) (env : Environment F W) (cfg : Config) where
  -- drain: each round reads at most 32 frames beyond the cursor.
  unfoldable pub drain : ℕ → Session F W → Session F W × Ended
  unfolding after_read
  drain zero s = (s, out_of_fuel)
  drain (suc fuel) s =
      let (w, ok) = env.read s.world in
      after_read env cfg (drain fuel) (record s { world = w })
        (read_batch c (not ok) s.cursor 32 s.buffer)

  -- DrainOnce. A drain passes each row at most once, so one round more than rows is enough.
  unfoldable pub drain_once : Buffer F → W → Bool → Session F W × Option UplinkError
  unfolding finish_drain drain new_session
  drain_once b w connected =
      finish_drain env (drain (suc (length b.db.rows)) (new_session b w connected))

  -- Run, over the cases that its select takes until the context is done; each drain has one round
  -- more than the buffer has rows.
  unfoldable pub run : List Wake → Session F W → Session F W × Option UplinkError
  unfolding checkpoint drain
  run [] s = (s, none)
  run (aged ∷ rest) s =
      let (s', e) = checkpoint env s in elim e [ none ↦ run rest s' | some x ↦ (s', some x) ]
  run (signalled ∷ rest) s =
      let (s', e) = drain (suc (length s.buffer.db.rows)) s in
      elim e [
        | failed x ↦ (s', some x)
        | idle ↦ run rest s'
        | unread ↦ run rest s'
        | out_of_fuel ↦ (s', none)
      ]
