-- ===== src/Uplink/Checkpoint.antt =====
-- internal/uplink/forwarder.go: what a checkpoint of the session keeps, and what it counts.
pub mod Serving
use nexus_gateway.Prelude.{
  ℕ, ◌+◌, ◌≤◌, ◌≡◌, ◌⊎◌, refl, ap, sym, subst, ◌∙◌, Bool, true, false, Option, none, some, List, [],
  ◌∷◌, ◌++◌, length, arith, inl, inr,
}
use nexus_gateway.Prelude.Int.{ℤ, ◌+ℤ◌}
use nexus_gateway.Prelude.Dict.{Dict}
use nexus_gateway.Frame.{TelemetryFrame}
use nexus_gateway.StoreForward.Ack.{
  SentFrame, apply_ack, last_seq, total, unaccepted, apply_ack-cursor,
}
use nexus_gateway.StoreForward.Buffer.{
  Buffer, advance, cursor_of, record_sent, record_accepted, record_checkpoint, record_send_error,
  record_drift,
}
use nexus_gateway.Uplink.{
  Environment, Session, UplinkError, record_drifts, after_advance, acknowledge, after_ack,
  checkpoint, checkpoint_failed, advance_failed,
}

module _ {F : Type 0} where
  pub record_drifts-db : (d : Dict ℕ) (b : Buffer F) → (record_drifts d b).db ≡ b.db
  unfolding record_drifts record_drift
  record_drifts-db [] b = refl
  record_drifts-db ((k, n) ∷ d) b = record_drifts-db d (record_drift k n b)

  -- All drifts of an ack enter the counter, and no other counter moves.
  pub record_drifts-total :
      (d : Dict ℕ) (b : Buffer F)
      → ((record_drifts d b).drift_total ≡ b.drift_total + total d)
        × ((record_drifts d b).sent ≡ b.sent)
        × ((record_drifts d b).accepted ≡ b.accepted)
        × ((record_drifts d b).checkpoints ≡ b.checkpoints)
  unfolding record_drifts record_drift total
  record_drifts-total [] b = (omega arith, refl, refl, refl)
  record_drifts-total ((k, n) ∷ d) b =
      let (t, x, y, z) = record_drifts-total d (record_drift k n b) in (omega (arith, t), x, y, z)

-- What the documents of FrameSink say of the frames that it has taken: `Send` takes its frame where
-- it returns no error, and nothing else takes or drops one.
pub record DeliveryLaws {F W : Type 0} (env : Environment F W)
    (delivered : W → List (TelemetryFrame F)) : Type 0 where
  pub takes :
      (f : TelemetryFrame F) (w : W)
      → (env.send f w).1 ≡ true
      → delivered (env.send f w).0 ≡ delivered w ++ f ∷ []
  pub refuses :
      (f : TelemetryFrame F) (w : W)
      → (env.send f w).1 ≡ false
      → delivered (env.send f w).0 ≡ delivered w
  pub checkpoints : (w : W) → delivered (env.checkpoint w).0 ≡ delivered w
  pub reads : (w : W) → delivered (env.read w).0 ≡ delivered w
  pub persists : (w : W) → delivered (env.persist w).0 ≡ delivered w

module _ {F W : Type 0} where
  -- The persisted cursor is not past the session's, which is at the last frame of the batch, or
  -- persisted where the batch is empty.
  pub record IsAligned (s : Session F W) : Type 0 where
    pub behind : cursor_of s.buffer ≤ s.cursor
    pub at_last : ((s.batch ≡ []) × (cursor_of s.buffer ≡ s.cursor)) ⊎ (last_seq s.batch ≡ s.cursor)

  -- What a session that goes on from `s` to `t` without sending keeps.
  pub record Keeps (delivered : W → List (TelemetryFrame F)) (s t : Session F W) : Type 0 where
    pub same_cursor : t.cursor ≡ s.cursor
    pub same_rows : t.buffer.db.rows ≡ s.buffer.db.rows
    pub same_delivered : delivered t.world ≡ delivered s.world
    pub aligned : IsAligned t

module _ {F W : Type 0} (env : Environment F W) where
  acknowledge_cursor :
      (s : Session F W) (w : W) (accepted : ℤ)
      → (acknowledge env s w accepted).cursor ≡ last_seq s.batch
  unfolding acknowledge
  acknowledge_cursor s w accepted = apply_ack-cursor s.batch accepted

  checkpoint_none : (s : Session F W) → s.batch ≡ [] → checkpoint env s ≡ (s, none)
  unfolding checkpoint
  checkpoint_none s e =
      ap
        (λ (l : List SentFrame). elim l [
          | [] ↦ (s, none)
          | x ∷ xs ↦ after_ack env s (env.checkpoint s.world)
        ])
        e

  checkpoint_some :
      (s : Session F W) (x : SentFrame) (xs : List SentFrame)
      → s.batch ≡ x ∷ xs
      → checkpoint env s ≡ after_ack env s (env.checkpoint s.world)
  unfolding checkpoint
  checkpoint_some s x xs e =
      ap
        (λ (l : List SentFrame). elim l [
          | [] ↦ (s, none)
          | x ∷ xs ↦ after_ack env s (env.checkpoint s.world)
        ])
        e

module _ {F W : Type 0} (env : Environment F W) (delivered : W → List (TelemetryFrame F))
    (laws : DeliveryLaws env delivered) where
  acknowledge_db :
      (s : Session F W) (w : W) (accepted : ℤ)
      → (acknowledge env s w accepted).buffer.db ≡ s.buffer.db
  unfolding acknowledge record_sent record_accepted record_checkpoint
  acknowledge_db s w accepted = record_drifts-db (apply_ack s.batch accepted).1 _

  after_advance-Keeps :
      (s t : Session F W) (q : W × Bool)
      → t.cursor ≡ s.cursor
      → t.buffer.db ≡ s.buffer.db
      → delivered q.0 ≡ delivered s.world
      → cursor_of s.buffer ≤ s.cursor
      → last_seq t.batch ≡ s.cursor
      → Keeps delivered s (after_advance t q).0
  unfolding after_advance advance cursor_of
  after_advance-Keeps s t (w, false) h d o b l = record {
    same_cursor = h;
    same_rows = ap (λ d. d.rows) d;
    same_delivered = o;
    aligned = record { behind = rw (h, d) b; at_last = inr (l ∙ sym h) };
  }
  after_advance-Keeps s t (w, true) h d o b l = record {
    same_cursor = h;
    same_rows = ap (λ d. d.rows) d;
    same_delivered = o;
    aligned = record { behind = omega arith; at_last = inl (refl, refl) };
  }

  after_ack-Keeps :
      (s : Session F W) (q : W × Option ℤ)
      → delivered q.0 ≡ delivered s.world
      → cursor_of s.buffer ≤ s.cursor
      → last_seq s.batch ≡ s.cursor
      → Keeps delivered s (after_ack env s q).0
  unfolding after_ack record_send_error cursor_of
  after_ack-Keeps s (w, none) o b l = record {
    same_cursor = refl;
    same_rows = refl;
    same_delivered = o;
    aligned = record { behind = b; at_last = inr l };
  }
  after_ack-Keeps s (w, some accepted) o b l =
      after_advance-Keeps s (acknowledge env s w accepted) (env.persist w)
        (acknowledge_cursor env s w accepted ∙ l) (acknowledge_db s w accepted)
        (laws.persists w ∙ o) b (unfold acknowledge in l)

  batch-Keeps :
      (s : Session F W) (l : List SentFrame)
      → s.batch ≡ l
      → IsAligned s
      → Keeps delivered s (checkpoint env s).0
  batch-Keeps s [] e h =
      subst (λ (q : Session F W × Option UplinkError). Keeps delivered s q.0)
        (sym (checkpoint_none env s e))
        (record { same_cursor = refl; same_rows = refl; same_delivered = refl; aligned = h })
  batch-Keeps s (x ∷ xs) e h =
      subst (λ (q : Session F W × Option UplinkError). Keeps delivered s q.0)
        (sym (checkpoint_some env s x xs e))
        (after_ack-Keeps s (env.checkpoint s.world) (laws.checkpoints s.world) h.behind
          (elim h.at_last [ inl (e', _) ↦ cc (e', e) | inr l ↦ l ]))

  -- A checkpoint, whether the sink or the buffer fails or not, moves neither the session's cursor
  -- nor the rows.
  pub checkpoint-Keeps : (s : Session F W) → IsAligned s → Keeps delivered s (checkpoint env s).0
  checkpoint-Keeps s h = batch-Keeps s s.batch refl h

module _ {F W : Type 0} (env : Environment F W) where
  -- What an acknowledged batch adds to the counters.
  pub record Counts (accepted : ℤ) (s t : Session F W) : Type 0 where
    pub sent : t.buffer.sent ≡ s.buffer.sent + length s.batch
    pub acked : t.buffer.accepted ≡ s.buffer.accepted +ℤ accepted
    pub once : t.buffer.checkpoints ≡ s.buffer.checkpoints + 1
    pub drifted : t.buffer.drift_total ≡ s.buffer.drift_total + length (unaccepted s.batch accepted)

  after_advance_cases :
      (t : Session F W) (q : W × Bool)
      → let (t', e) = after_advance t q in
        (e ≡ some advance_failed)
        ⊎ ((e ≡ none) × (t'.batch ≡ []) × (cursor_of t'.buffer ≡ t.cursor))
  unfolding after_advance advance cursor_of
  after_advance_cases t (w, false) = inl refl
  after_advance_cases t (w, true) = inr (refl, refl, refl)

  pub after_ack_persists :
      (s : Session F W) (q : W × Option ℤ)
      → (after_ack env s q).1 ≡ none
      → cursor_of (after_ack env s q).0.buffer ≡ last_seq s.batch
  unfolding after_ack
  after_ack_persists s (w, none) h = cc h
  after_ack_persists s (w, some accepted) h =
      elim (after_advance_cases (acknowledge env s w accepted) (env.persist w)) [
        | inl e ↦ cc (h, e)
        | inr (_, _, at) ↦ at ∙ acknowledge_cursor env s w accepted
      ]

  -- A batch that waits for an ack: what its checkpoint does on either answer of the sink.
  abbrev pub Accounts : Session F W → Option ℤ → Session F W × Option UplinkError → Type 0
  Accounts s answer (t, e) =
      ((answer ≡ none)
        × (e ≡ some checkpoint_failed)
        × (t.buffer ≡ record_send_error s.buffer)
        × (t.batch ≡ s.batch))
      ⊎ ((accepted : ℤ) × (answer ≡ some accepted)
          × Counts accepted s t
          × ((e ≡ some advance_failed)
              ⊎ ((e ≡ none) × (t.batch ≡ []) × (cursor_of t.buffer ≡ last_seq s.batch))))
