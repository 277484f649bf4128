-- ===== src/Uplink/Checkpoint/Serving.antt =====
-- internal/uplink/forwarder.go: checkpoints that report no error.
use nexus_gateway.Prelude.{
  ◌≡◌, refl, ap, sym, ◌∙◌, Bool, true, false, Option, none, some, List, [], ◌∷◌, arith, inl, inr,
}
use nexus_gateway.Prelude.Int.{ℤ}
use nexus_gateway.Frame.{TelemetryFrame}
use nexus_gateway.StoreForward.Ack.{SentFrame, last_seq}
use nexus_gateway.StoreForward.Buffer.{cursor_of}
use nexus_gateway.Uplink.{
  Environment, Session, UplinkError, after_advance, acknowledge, after_ack, checkpoint,
}
use nexus_gateway.Uplink.Checkpoint.{
  IsAligned, checkpoint_none, checkpoint_some, after_ack_persists,
}

module _ {F W : Type 0} (env : Environment F W) where
  -- The sink and the buffer never fail.
  pub record Serves : Type 0 where
    pub sends : (f : TelemetryFrame F) (w : W) → (env.send f w).1 ≡ true
    pub acks : (w : W) → (accepted : ℤ) × ((env.checkpoint w).1 ≡ some accepted)
    pub reads : (w : W) → (env.read w).1 ≡ true
    pub persists : (w : W) → (env.persist w).1 ≡ true

  after_advance_served :
      (t : Session F W) (q : W × Bool) → q.1 ≡ true → (after_advance t q).1 ≡ none
  unfolding after_advance
  after_advance_served t (w, false) h = cc h
  after_advance_served t (w, true) h = refl

  after_ack_served :
      (s : Session F W) (q : W × Option ℤ) (accepted : ℤ)
      → Serves
      → q.1 ≡ some accepted
      → (after_ack env s q).1 ≡ none
  unfolding after_ack
  after_ack_served s (w, none) accepted h e = cc e
  after_ack_served s (w, some a) accepted h e =
      after_advance_served (acknowledge env s w a) (env.persist w) (h.persists w)

  batch_served :
      (s : Session F W) (l : List SentFrame) → s.batch ≡ l → Serves → (checkpoint env s).1 ≡ none
  batch_served s [] e h = ap (λ q. q.1) (checkpoint_none env s e)
  batch_served s (x ∷ xs) e h =
      let (accepted, ok) = h.acks s.world in
      ap (λ q. q.1) (checkpoint_some env s x xs e)
      ∙ after_ack_served s (env.checkpoint s.world) accepted h ok

  -- Where nothing fails, a checkpoint reports no error.
  pub checkpoint_served : (s : Session F W) → Serves → (checkpoint env s).1 ≡ none
  checkpoint_served s h = batch_served s s.batch refl h

  batch_persists :
      (s : Session F W) (l : List SentFrame)
      → s.batch ≡ l
      → IsAligned s
      → (checkpoint env s).1 ≡ none
      → cursor_of (checkpoint env s).0.buffer ≡ s.cursor
  unfolding last_seq
  batch_persists s [] e a h =
      ap (λ (q : Session F W × Option UplinkError). cursor_of q.0.buffer) (checkpoint_none env s e)
      ∙ (elim a.at_last [ inl (_, x) ↦ x | inr x ↦ omega (arith, ap last_seq e, x, a.behind) ])
  batch_persists s (x ∷ xs) e a h =
      let same = checkpoint_some env s x xs e in
      ap (λ (q : Session F W × Option UplinkError). cursor_of q.0.buffer) same
      ∙ after_ack_persists env s (env.checkpoint s.world) (sym (ap (λ q. q.1) same) ∙ h)
      ∙ (elim a.at_last [ inl (e', _) ↦ cc (e', e) | inr l ↦ l ])

  -- A checkpoint without error leaves the session's cursor persisted.
  pub checkpoint_persists :
      (s : Session F W)
      → IsAligned s
      → (checkpoint env s).1 ≡ none
      → cursor_of (checkpoint env s).0.buffer ≡ s.cursor
  checkpoint_persists s a h = batch_persists s s.batch refl a h
