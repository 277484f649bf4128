-- ===== src/StoreForward/Pump/Safety.antt =====
-- Which messages the pump acknowledges, and which it writes.
use nexus_gateway.Prelude.{
  ℕ, ◌+◌, ◌≤◌, ◌≡◌, ◌≢◌, refl, Bool, true, not, ◌&&◌, Option, none, some, List, [], ◌∷◌, ◌==◌,
  if◌then◌else◌, member, All, filter, arith, length, inl, inr, Bool-cases, ◌⊎◌,
}
use nexus_gateway.StoreForward.Buffer.{
  Buffer, Codec, WriteStep, record_duplicate, record_write_error,
}
use nexus_gateway.StoreForward.Buffer.Writes.{write-written}
use nexus_gateway.StoreForward.Window.{contains, new_window}
use nexus_gateway.StoreForward.Window.Refinement.{adds, bound, adds-n, contains-adds}
use nexus_gateway.StoreForward.Pump.{
  FrameMsg, Reply, ack, nak_with_delay, PumpState, answer, note, settle, pump_step, pump, start,
  dedup_window_seqs,
}

module _ {F : Type 0} (c : Codec F) where
  -- The sequences whose frame a step wrote: the written counter tells.
  abbrev pub commit_of : PumpState F → PumpState F → ℕ → List ℕ → List ℕ
  commit_of s s' seq commits =
      if s'.buffer.written == s.buffer.written then commits else seq ∷ commits

  unfoldable pub commits : PumpState F → List ℕ → List ((WriteStep → Bool) × FrameMsg F) → List ℕ
  commits s cs [] = cs
  commits s cs (m ∷ ms) = let s' = (pump_step c s m).0 in commits s' (commit_of s s' m.1.seq cs) ms

  -- The sequences that were acknowledged.
  unfoldable pub acked : List (ℕ × Option Reply) → List ℕ
  acked [] = []
  acked ((seq, some ack) ∷ rest) = seq ∷ acked rest
  acked (_ ∷ rest) = acked rest

  -- The window holds the known sequences among the committed ones.
  abbrev pub known : List ℕ → List ℕ
  known = filter (λ s. not (s == 0))

  Remembers : PumpState F → List ℕ → Type 0
  Remembers s cs = s.written ≡ adds (new_window dedup_window_seqs) (known cs)

  member-known : (s : ℕ) (cs : List ℕ) → member s (known cs) ≡ true → member s cs ≡ true
  member-known s [] h = h
  member-known s (x ∷ cs) h = ground (arith, member-known s cs)

  recall :
      (s : PumpState F) (seq : ℕ) (cs : List ℕ)
      → Remembers s cs
      → contains s.written seq ≡ true
      → member seq cs ≡ true
  unfolding Remembers
  recall s seq cs h e =
      let window = contains-adds dedup_window_seqs (known cs) seq in
      ground (arith, h, window, member-known seq cs)

  -- A step commits, or acknowledges a sequence that was committed, or does not acknowledge.
  pump_step_cases :
      (s : PumpState F) (m : (WriteStep → Bool) × FrameMsg F) (cs : List ℕ)
      → Remembers s cs
      → let (s', r) = pump_step c s m in
        ((s'.buffer.written ≡ s.buffer.written + 1) × (s'.written ≡ note m.1.seq s.written))
        ⊎ ((s'.buffer.written ≡ s.buffer.written)
            × (s'.written ≡ s.written)
            × ((member m.1.seq cs ≡ true) ⊎ (r ≢ some ack)))
  unfolding pump_step record_duplicate record_write_error
  pump_step_cases s (fails, fm) cs h =
      elim (Bool-cases (not (fm.seq == 0) && contains s.written fm.seq)) [
        | inl dup ↦ rw dup (inr (refl, refl, inl (recall s fm.seq cs h (ground arith))))
        | inr fresh ↦ rw fresh (elim (write-written c fails fm.frame s.buffer) [
          | inl (b', ok, more) ↦ rw ok (unfold settle in inl (more, refl))
          | inr (e, failed) ↦ rw failed (unfold settle in inr (refl, refl, inr (λ a. ground arith)))
        ])
      ]

  step-Remembers :
      (s : PumpState F) (m : (WriteStep → Bool) × FrameMsg F) (cs : List ℕ)
      → Remembers s cs
      → let s' = (pump_step c s m).0 in Remembers s' (commit_of s s' m.1.seq cs)
  unfolding Remembers adds
  step-Remembers s m cs h = elim (pump_step_cases s m cs h) [
    | inl (more, noted) ↦ ground (arith, h)
    | inr (same, kept, _) ↦ ground (arith, h)
  ]

  member-commits :
      (x : ℕ) (s : PumpState F) (cs : List ℕ) (ms : List ((WriteStep → Bool) × FrameMsg F))
      → member x cs ≡ true
      → member x (commits s cs ms) ≡ true
  unfolding commits
  member-commits x s cs [] h = h
  member-commits x s cs (m ∷ ms) h =
      let s' = (pump_step c s m).0 in
      member-commits x s' (commit_of s s' m.1.seq cs) ms (ground arith)

  acked_cons :
      (seq : ℕ) (r : Option Reply) (cs : List ℕ) (replies : List (ℕ × Option Reply))
      → All (λ x. member x cs ≡ true) (acked replies)
      → (member seq cs ≡ true) ⊎ (r ≢ some ack)
      → All (λ x. member x cs ≡ true) (acked ((seq, r) ∷ replies))
  unfolding acked
  acked_cons seq (some ack) cs replies rest (inl e) = (e, rest)
  acked_cons seq (some ack) cs replies rest (inr e) = absurd (e refl)
  acked_cons seq (some nak_with_delay) cs replies rest _ = rest
  acked_cons seq none cs replies rest _ = rest

  pump-acked :
      (s : PumpState F) (cs : List ℕ) (ms : List ((WriteStep → Bool) × FrameMsg F))
      → Remembers s cs
      → All (λ x. member x (commits s cs ms) ≡ true) (acked (pump c s ms).1)
  unfolding pump acked commits
  pump-acked s cs [] h = tt
  pump-acked s cs (m ∷ ms) h =
      let (s', r) = pump_step c s m in
      let cs' = commit_of s s' m.1.seq cs in
      let rest = pump-acked s' cs' ms (step-Remembers s m cs h) in
      acked_cons m.1.seq r (commits s' cs' ms) (pump c s' ms).1 rest
        (elim (pump_step_cases s m cs h) [
          | inl (more, _) ↦ inl (member-commits m.1.seq s' cs' ms (ground arith))
          | inr (same, _, inl old) ↦ inl (member-commits m.1.seq s' cs' ms (ground arith))
          | inr (same, _, inr e) ↦ inr e
        ])

  pump-Remembers :
      (s : PumpState F) (cs : List ℕ) (ms : List ((WriteStep → Bool) × FrameMsg F))
      → Remembers s cs
      → Remembers (pump c s ms).0 (commits s cs ms)
        × ((pump c s ms).0.buffer.written + length cs ≡ s.buffer.written + length (commits s cs ms))
  unfolding pump commits
  pump-Remembers s cs [] h = (h, refl)
  pump-Remembers s cs (m ∷ ms) h =
      let (s', r) = pump_step c s m in
      let cs' = commit_of s s' m.1.seq cs in
      let (kept, count) = pump-Remembers s' cs' ms (step-Remembers s m cs h) in
      (kept, ground (arith, count, pump_step_cases s m cs h))

  known-member : (s : ℕ) (cs : List ℕ) → s ≢ 0 → member s cs ≡ true → member s (known cs) ≡ true
  known-member s [] z h = h
  known-member s (x ∷ cs) z h = ground (arith, known-member s cs)

  seen_again :
      (s : PumpState F) (seq : ℕ) (cs : List ℕ)
      → Remembers s cs
      → seq ≢ 0
      → member seq cs ≡ true
      → bound (known cs) ≤ seq + dedup_window_seqs
      → contains s.written seq ≡ true
  unfolding Remembers
  seen_again s seq cs h z old recent =
      let span : (adds (new_window dedup_window_seqs) (known cs)).n ≡ dedup_window_seqs =
        unfold new_window in adds-n (new_window dedup_window_seqs) (known cs) in
      rw (h, contains-adds dedup_window_seqs (known cs) seq, span, known-member seq cs z old)
        (ground arith)

  start-Remembers : (b : Buffer F) → Remembers (start b) []
  unfolding Remembers start adds
  start-Remembers b = refl

  -- In any run of the pump over any messages and any failures of SQLite: each message that is
  -- acknowledged has a sequence whose frame was committed to the buffer in this run, and the buffer
  -- counts as many frames written as were committed.
  pub pump-commits :
      (b : Buffer F) (ms : List ((WriteStep → Bool) × FrameMsg F))
      → let (s, replies) = pump c (start b) ms in
        let cs = commits (start b) [] ms in
        All (λ x. member x cs ≡ true) (acked replies) × (s.buffer.written ≡ b.written + length cs)
  unfolding start
  pump-commits b ms =
      let (_, count) = pump-Remembers (start b) [] ms (start-Remembers b) in
      (pump-acked (start b) [] ms (start-Remembers b), omega (arith, count))

  -- After any run, a redelivered message whose known sequence was committed, and that is less than
  -- a window behind the newest, is acknowledged and counted as a duplicate, and the buffer is
  -- otherwise as it was.
  pub pump_step-duplicate :
      (b : Buffer F) (ms : List ((WriteStep → Bool) × FrameMsg F)) (fails : WriteStep → Bool)
      (fm : FrameMsg F)
      → fm.seq ≢ 0
      → member fm.seq (commits (start b) [] ms) ≡ true
      → bound (known (commits (start b) [] ms)) ≤ fm.seq + dedup_window_seqs
      → let s = (pump c (start b) ms).0 in
        pump_step c s (fails, fm) ≡ (record s { buffer = record_duplicate s.buffer }, answer fm ack)
  unfolding pump_step
  pump_step-duplicate b ms fails fm nonzero old recent =
      let s = (pump c (start b) ms).0 in
      let cs = commits (start b) [] ms in
      let (kept, _) = pump-Remembers (start b) [] ms (start-Remembers b) in
      rw (seen_again s fm.seq cs kept nonzero old recent) (ground arith)
