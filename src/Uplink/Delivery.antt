-- ===== src/Uplink/Delivery.antt =====
-- internal/uplink/forwarder.go: what a drain of the session hands to the sink.
pub mod Pending
use nexus_gateway.Prelude.{
  ℕ, zero, suc, ◌+◌, ◌≤◌, ◌<◌, ◌≡◌, ◌≢◌, ◌⊎◌, refl, ap, sym, subst, ◌∙◌, Bool, true, false, not,
  Option, none, some, List, [], ◌∷◌, ◌++◌, map, length, take, drop, arith, inl, inr, leb,
  if◌then◌else◌, Bool-cases, Option-cases, take-append-drop, length-drop, append-nil, append_assoc,
}
use nexus_gateway.Frame.{TelemetryFrame}
use nexus_gateway.StoreForward.Ack.{SentFrame, last_seq}
use nexus_gateway.StoreForward.Buffer.{Row, Buffer, Codec, cursor_of, record_send_error, read_batch}
use nexus_gateway.StoreForward.Buffer.Order.{Ascends}
use nexus_gateway.Uplink.{
  Environment, Config, Session, UplinkError, Ended, idle, unread, out_of_fuel, failed, checkpoint,
  after_send, send_all, after_frames, after_read, drain, send_failed,
}
use nexus_gateway.Uplink.Checkpoint.{DeliveryLaws, IsAligned, Keeps, checkpoint-Keeps}
use nexus_gateway.Uplink.Checkpoint.Serving.{Serves, checkpoint_served}
use nexus_gateway.Uplink.Delivery.Pending.{
  pending, last_of, Rising, pending-Rising, pending-append, read_batch-pending,
}

module _ {F : Type 0} where
  abbrev pub frames : List (ℕ × TelemetryFrame F) → List (TelemetryFrame F)
  frames [] = []
  frames ((n, f) ∷ l) = f ∷ frames l

  frames-append : (k l : List (ℕ × TelemetryFrame F)) → frames (k ++ l) ≡ frames k ++ frames l
  frames-append [] l = refl
  frames-append ((n, f) ∷ k) l = ap (◌∷◌ f) (frames-append k l)

  last_of-append :
      (lo : ℕ) (k l : List (ℕ × TelemetryFrame F)) → last_of lo (k ++ l) ≡ last_of (last_of lo k) l
  last_of-append lo [] l = refl
  last_of-append lo ((n, f) ∷ k) l = last_of-append n k l

last_seq-append : (l : List SentFrame) (x : SentFrame) → last_seq (l ++ x ∷ []) ≡ x.seq
unfolding last_seq
last_seq-append [] x = refl
last_seq-append (y ∷ []) x = refl
last_seq-append (y ∷ z ∷ l) x = last_seq-append (z ∷ l) x

module _ {F W : Type 0} where
  -- The session went from `s` to `t` by sending the frames `sent`, in order.
  pub record Delivers (delivered : W → List (TelemetryFrame F)) (s t : Session F W)
      (sent : List (ℕ × TelemetryFrame F)) : Type 0 where
    pub at : t.cursor ≡ last_of s.cursor sent
    pub same_rows : t.buffer.db.rows ≡ s.buffer.db.rows
    pub handed : delivered t.world ≡ delivered s.world ++ frames sent
    pub aligned : IsAligned t

  module _ (delivered : W → List (TelemetryFrame F)) where
    pub Delivers-trans :
        (s t u : Session F W) (k l : List (ℕ × TelemetryFrame F))
        → Delivers delivered s t k
        → Delivers delivered t u l
        → Delivers delivered s u (k ++ l)
    Delivers-trans s t u k l h h' = record {
      at = rw (last_of-append, ← h.at) h'.at;
      same_rows = h'.same_rows ∙ h.same_rows;
      handed =
          rw (h'.handed, h.handed, frames-append)
            (append_assoc (delivered s.world) (frames k) (frames l));
      aligned = h'.aligned;
    }

    -- Of the frames `l`, the first `sent` went out and `rest` did not.
    pub record Progress (l : List (ℕ × TelemetryFrame F)) (s t : Session F W) : Type 0 where
      pub sent : List (ℕ × TelemetryFrame F)
      pub rest : List (ℕ × TelemetryFrame F)
      pub split : l ≡ sent ++ rest
      pub delivery : Delivers delivered s t sent

    abbrev none_sent :
        (s : Session F W) (l : List (ℕ × TelemetryFrame F)) → IsAligned s → Progress l s s
    none_sent s l h = record {
      sent = [];
      rest = l;
      split = refl;
      delivery = record {
        at = refl;
        same_rows = refl;
        handed = sym (append-nil (delivered s.world));
        aligned = h;
      };
    }

    -- After the frames `k`, a first part of the frames `l`.
    abbrev pub more_sent :
        (s t u : Session F W) (k l : List (ℕ × TelemetryFrame F))
        → Delivers delivered s t k
        → Progress l t u
        → Progress (k ++ l) s u
    more_sent s t u k l d p = record {
      sent = k ++ p.sent;
      rest = p.rest;
      split = ap (λ m. k ++ m) p.split ∙ sym (append_assoc k p.sent p.rest);
      delivery = Delivers-trans s t u k p.sent d p.delivery;
    }

module _ {F W : Type 0} (env : Environment F W) (cfg : Config)
    (delivered : W → List (TelemetryFrame F)) (laws : DeliveryLaws env delivered) where
  -- The session that has sent one more frame and not yet checkpointed.
  abbrev sent_one : ℕ → TelemetryFrame F → Session F W → W → Session F W
  sent_one seq f s w = record s {
    world = w;
    batch = s.batch ++ record { seq = seq; point_id = f.point_id } ∷ [];
    cursor = seq;
  }

  sent_one-IsAligned :
      (seq : ℕ) (f : TelemetryFrame F) (s : Session F W) (w : W)
      → IsAligned s
      → s.cursor < seq
      → IsAligned (sent_one seq f s w)
  sent_one-IsAligned seq f s w h a = record {
    behind = omega (arith, h.behind, a);
    at_last = inr (last_seq-append s.batch _);
  }

  -- One frame: it went out, or the session ended before it.
  after_send-Progress :
      (seq : ℕ) (f : TelemetryFrame F) (s : Session F W) (q : W × Bool)
      → IsAligned s
      → s.cursor < seq
      → (q.1 ≡ true → delivered q.0 ≡ delivered s.world ++ f ∷ [])
      → (q.1 ≡ false → delivered q.0 ≡ delivered s.world)
      → let (t, e) = after_send env cfg seq f s q in
        Delivers delivered s t ((seq, f) ∷ [])
        ⊎ (Delivers delivered s t [] × (e ≡ some send_failed))
  unfolding after_send record_send_error cursor_of
  after_send-Progress seq f s (w, false) h a took kept = inr (
    record {
      at = refl;
      same_rows = refl;
      handed = kept refl ∙ sym (append-nil (delivered s.world));
      aligned = record { behind = h.behind; at_last = h.at_last };
    },
    refl,
  )
  after_send-Progress seq f s (w, true) h a took kept =
      let s' = sent_one seq f s w in
      let h' = sent_one-IsAligned seq f s w h a in
      let k = checkpoint-Keeps env delivered laws s' h' in
      elim (Bool-cases (leb cfg.checkpoint_size (length s'.batch))) [
        | inl e ↦ inl (
            rw e (record {
              at = k.same_cursor;
              same_rows = k.same_rows;
              handed = k.same_delivered ∙ took refl;
              aligned = k.aligned;
            }))
        | inr e ↦
            inl (rw e (record { at = refl; same_rows = refl; handed = took refl; aligned = h' }))
      ]

  -- The frames of a read, in rising order: those that went out are a first part of them, and all
  -- of them where no error ends the loop.
  send_all-Progress :
      (l : List (ℕ × TelemetryFrame F)) (s : Session F W)
      → IsAligned s
      → Rising s.cursor l
      → let (t, e) = send_all env cfg l s in
        (p : Progress delivered l s t) × (e ≡ none → p.rest ≡ [])
  unfolding send_all
  send_all-Progress [] s h r = (none_sent delivered s [] h, λ _. refl)
  send_all-Progress ((seq, f) ∷ l) s h r =
      let one =
        after_send-Progress seq f s (env.send f s.world) h r.0 (laws.takes f s.world)
          (laws.refuses f s.world) in
      let q = after_send env cfg seq f s (env.send f s.world) in
      elim one [
        | inr (d, x) ↦
            rw (x, send_all)
              (record { sent = []; rest = (seq, f) ∷ l; split = refl; delivery = d }, λ e. cc e)
        | inl d ↦ elim (Option-cases q.1) [
          | inr (x, e) ↦
              rw (e, send_all)
                (record { sent = (seq, f) ∷ []; rest = l; split = refl; delivery = d }, λ e. cc e)
          | inl e ↦
              let (p, all) = send_all-Progress l q.0 d.aligned (rw d.at r.1) in
              rw (e, send_all) (more_sent delivered s q.0 _ ((seq, f) ∷ []) l d p, all)
        ]
      ]

  after_send_served :
      (seq : ℕ) (f : TelemetryFrame F) (s : Session F W) (q : W × Bool)
      → Serves env
      → q.1 ≡ true
      → (after_send env cfg seq f s q).1 ≡ none
  unfolding after_send
  after_send_served seq f s (w, false) v h = cc h
  after_send_served seq f s (w, true) v h =
      ground (arith, checkpoint_served env (sent_one seq f s w) v)

  -- Where nothing fails, every frame of a read goes out.
  send_all_served :
      (l : List (ℕ × TelemetryFrame F)) (s : Session F W)
      → Serves env
      → (send_all env cfg l s).1 ≡ none
  unfolding send_all
  send_all_served [] s v = refl
  send_all_served ((seq, f) ∷ l) s v =
      let q = env.send f s.world in
      rw (after_send_served seq f s q v (v.sends f s.world), send_all)
        (send_all_served l (after_send env cfg seq f s q).0 v)

  -- What a drain of the frames `l` from `s` comes to.
  abbrev pub Drained : List (ℕ × TelemetryFrame F) → Session F W → Session F W × Ended → Type 0
  Drained l s (t, e) =
      (p : Progress delivered l s t) × (e ≡ idle → p.rest ≡ [])
      × (e ≢ out_of_fuel)
      × (Serves env → e ≡ idle)

  -- The world of a read: nothing is sent.
  pub read-Delivers :
      (s : Session F W) (w : W)
      → delivered w ≡ delivered s.world
      → IsAligned s
      → Delivers delivered s (record s { world = w }) []
  read-Delivers s w o h = record {
    at = refl;
    same_rows = refl;
    handed = o ∙ sym (append-nil (delivered s.world));
    aligned = record { behind = h.behind; at_last = h.at_last };
  }

  pub after_read-Drained :
      (again : Session F W → Session F W × Ended) (s : Session F W)
      (frames' : List (ℕ × TelemetryFrame F)) (l : List (ℕ × TelemetryFrame F))
      → IsAligned s
      → Rising s.cursor frames'
      → ((frames' ≡ []) → l ≡ [])
      → ((t : Session F W) → Delivers delivered s t frames' → frames' ≢ [] → Drained l t (again t))
      → Drained (frames' ++ l) s (after_read env cfg again s (some frames'))
  unfolding after_read
  after_read-Drained again s [] l h r last next =
      (none_sent delivered s l h, λ _. last refl, λ e. cc e, λ _. refl)
  after_read-Drained again s (sf ∷ k) l h r last next =
      let (p, all) = send_all-Progress (sf ∷ k) s h r in
      let q = send_all env cfg (sf ∷ k) s in
      elim (Option-cases q.1) [
        | inr (x, e) ↦
            rw (e, after_frames)
              (
                record {
                  sent = p.sent;
                  rest = p.rest ++ l;
                  split = ap (λ m. m ++ l) p.split ∙ append_assoc p.sent p.rest l;
                  delivery = p.delivery;
                },
                λ e. cc e,
                λ e. cc e,
                λ v. cc (e, send_all_served (sf ∷ k) s v),
              )
        | inl e ↦
            let whole : sf ∷ k ≡ p.sent =
              p.split ∙ (ap (λ m. p.sent ++ m) (all e) ∙ append-nil p.sent) in
            let d : Delivers delivered s q.0 (sf ∷ k) =
              subst (Delivers delivered s q.0) (sym whole) p.delivery in
            let (p', done, fuelled, served) = next q.0 d (λ e. cc e) in
            rw (e, after_frames)
              (more_sent delivered s q.0 _ (sf ∷ k) l d p', done, fuelled, served)
      ]
