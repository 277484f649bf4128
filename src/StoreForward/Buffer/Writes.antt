-- ===== src/StoreForward/Buffer/Writes.antt =====
-- `Write` on every branch, and the books over a history of writes and checkpoints.
use nexus_gateway.Prelude.{
  ℕ, ◌+◌, ◌≤◌, ◌≡◌, ◌⊎◌, refl, Bool, List, [], ◌∷◌, Option, none, some, arith, length, inl, inr,
  if◌then◌else◌, leb, ap, Bool-cases,
}
use nexus_gateway.Frame.{TelemetryFrame}
use nexus_gateway.StoreForward.Buffer.{
  Buffer, Codec, WriteStep, WriteError, write, finish_write, advance, depth, dropped,
  cursor_or_zero,
}
use nexus_gateway.StoreForward.Buffer.Eviction.{acked_or_beyond}
use nexus_gateway.StoreForward.Buffer.Accounts.{
  IsValid, acked_rows, write_cases, after_write, after_write-IsValid, after_write_accounts,
}

module _ {F : Type 0} (c : Codec F) where
  -- A successful write on a valid buffer adds one frame to the backlog or to the frames counted
  -- as lost unsent, never neither, and counts as evicted-sent exactly the acked rows it removes.
  pub write_accounts :
      (fails : WriteStep → Bool) (f : TelemetryFrame F) (b : Buffer F)
      → IsValid b
      → (write c fails f b).1 ≡ none
      → let b' = (write c fails f b).0 in
        (depth b' + b'.lost_unsent ≡ depth b + b.lost_unsent + 1)
        × (acked_rows b' + b'.evicted_sent ≡ acked_rows b + b.evicted_sent)
        × (b'.written ≡ b.written + 1)
  write_accounts fails f b v h = elim (write_cases c fails f b) [
    | inl (x, k) ↦ cc (ap (λ (r : Buffer F × Option WriteError). r.1) k)
    | inr (wire, attrs, _, _, k) ↦ rw k (after_write_accounts c fails f b wire attrs v)
  ]

  -- The counter of written frames tells success from failure, on any buffer.
  pub write-written :
      (fails : WriteStep → Bool) (f : TelemetryFrame F) (b : Buffer F)
      → ((b' : Buffer F) × (write c fails f b ≡ (b', none)) × (b'.written ≡ b.written + 1))
        ⊎ ((e : WriteError) × (write c fails f b ≡ (b, some e)))
  unfolding after_write finish_write
  write-written fails f b = elim (write_cases c fails f b) [
    | inl (e, h) ↦ inr (e, h)
    | inr (wire, attrs, _, _, h) ↦ inl (_, h, refl)
  ]

  -- What the pump and the forwarder do to the buffer, in any order. The forwarder advances to the
  -- seq of a frame that it has read.
  pub data Call : Type 0 where
    writes : (WriteStep → Bool) → TelemetryFrame F → Call
    advances : ℕ → Call

  pub step : Buffer F → Call → Buffer F
  step b (writes fails f) = (write c fails f b).0
  step b (advances seq) = if leb seq b.db.last_seq then advance seq b else b

  pub run : Buffer F → List Call → Buffer F
  run b [] = b
  run b (x ∷ xs) = run (step b x) xs

  advance-IsValid :
      (seq : ℕ) (b : Buffer F) → seq ≤ b.db.last_seq → IsValid b → IsValid (advance seq b)
  unfolding advance
  advance-IsValid seq b h v = record {
    ordered = record { ascending = v.ordered.ascending; up_to = v.ordered.up_to; behind = h };
    bounded = v.bounded;
    positive = v.positive;
  }

  -- The books: what was written is kept or was counted when it was dropped.
  pub record Balances (b : Buffer F) : Type 0 where
    pub valid : IsValid b
    pub balanced : length b.db.rows + dropped b ≡ b.written

  write-Balances :
      (fails : WriteStep → Bool) (f : TelemetryFrame F) (b : Buffer F)
      → Balances b
      → Balances (write c fails f b).0
  unfolding dropped
  write-Balances fails f b v = elim (write_cases c fails f b) [
    | inl (e, h) ↦ rw h v
    | inr (wire, attrs, _, _, h) ↦ rw h (
        let b' = after_write c fails f b wire attrs in
        record {
          valid = after_write-IsValid c fails f b wire attrs v.valid;
          balanced =
              unfold depth acked_rows in
              omega (
                arith,
                v.balanced,
                after_write_accounts c fails f b wire attrs v.valid,
                acked_or_beyond (cursor_or_zero b.db.cursor) b.db.rows,
                acked_or_beyond (cursor_or_zero b'.db.cursor) b'.db.rows,
              );
        })
  ]

  step-Balances : (b : Buffer F) (x : Call) → Balances b → Balances (step b x)
  unfolding step dropped advance
  step-Balances b (writes fails f) v = write-Balances fails f b v
  step-Balances b (advances seq) v = elim (Bool-cases (leb seq b.db.last_seq)) [
    | inl e ↦
        rw e
          (record { valid = advance-IsValid seq b (ground arith) v.valid; balanced = v.balanced })
    | inr e ↦ rw e v
  ]

  -- Over any history of writes, failing or not, and checkpoints: the buffer stays valid and
  -- within its capacity, and every frame written is still held or counted as evicted-sent or lost.
  pub run-Balances : (b : Buffer F) (xs : List Call) → Balances b → Balances (run b xs)
  unfolding run
  run-Balances b [] v = v
  run-Balances b (x ∷ xs) v = run-Balances (step b x) xs (step-Balances b x v)
