-- ===== src/StoreForward/Pump.antt =====
-- internal/storeforward/pump.go: `Pump`. The messages received from the channel are a list, each
-- with the answers of SQLite to its write; the list ends where the channel closes or the context is
-- done.
pub mod Safety
use nexus_gateway.Prelude.{
  ℕ, zero, suc, ◌+◌, Bool, true, false, not, ◌&&◌, Option, none, some, List, [], ◌∷◌, ◌==◌, ◌^◌,
  if◌then◌else◌,
}
use nexus_gateway.Frame.{TelemetryFrame}
use nexus_gateway.StoreForward.Buffer.{
  Buffer, Codec, WriteStep, WriteError, write, record_duplicate, record_write_error,
}
use nexus_gateway.StoreForward.Window.{SeqWindow, contains, add, new_window}

abbrev pub dedup_window_seqs : ℕ
dedup_window_seqs = 2 ^ 21

-- `has_msg` is false where the acknowledgement controls are nil.
pub record FrameMsg (F : Type 0) : Type 0 where
  pub frame : TelemetryFrame F
  pub has_msg : Bool
  pub seq : ℕ

pub data Reply : Type 0 where
  ack nak_with_delay : Reply

pub record PumpState (F : Type 0) : Type 0 where
  pub buffer : Buffer F
  pub written : SeqWindow

-- `written.add`, unless the sequence is unknown.
abbrev pub note : ℕ → SeqWindow → SeqWindow
note seq w = if seq == 0 then w else add w seq

module _ {F : Type 0} where
  abbrev pub answer : FrameMsg F → Reply → Option Reply
  answer fm r = if fm.has_msg then some r else none

  -- The branch after `buf.Write`.
  unfoldable pub settle :
      FrameMsg F → SeqWindow → Buffer F × Option WriteError → PumpState F × Option Reply
  settle fm w (b, some e) =
      (record { buffer = record_write_error b; written = w }, answer fm nak_with_delay)
  settle fm w (b, none) = (record { buffer = b; written = note fm.seq w }, answer fm ack)

  -- One message of the loop.
  unfoldable pub pump_step :
      Codec F → PumpState F → (WriteStep → Bool) × FrameMsg F → PumpState F × Option Reply
  pump_step c s (fails, fm) =
      if not (fm.seq == 0) && contains s.written fm.seq
      then (record s { buffer = record_duplicate s.buffer }, answer fm ack)
      else settle fm s.written (write c fails fm.frame s.buffer)

  -- The loop, with the replies it sent.
  unfoldable pub pump :
      Codec F
      → PumpState F
      → List ((WriteStep → Bool) × FrameMsg F)
      → PumpState F × List (ℕ × Option Reply)
  pump c s [] = (s, [])
  pump c s (m ∷ ms) =
      let (s', r) = pump_step c s m in
      let (s'', replies) = pump c s' ms in (s'', (m.1.seq, r) ∷ replies)

  unfoldable pub start : Buffer F → PumpState F
  start b = record { buffer = b; written = new_window dedup_window_seqs }
