-- ===== src/Uplink/Flush.antt =====
-- internal/uplink/forwarder.go: the drain of a session and the flush at shutdown.
use nexus_gateway.Prelude.{
  ℕ, zero, suc, ◌<◌, ◌≡◌, ◌≢◌, ◌⊎◌, refl, ap, sym, subst, ◌∙◌, Bool, none, some, List, [], ◌∷◌,
  ◌++◌, length, take, drop, arith, inl, inr, Bool-cases, take-append-drop, length-drop, append-nil,
}
use nexus_gateway.Frame.{TelemetryFrame}
use nexus_gateway.StoreForward.Buffer.{Buffer, Codec, cursor_of, depth, read_batch}
use nexus_gateway.StoreForward.Buffer.Order.{Ascends}
use nexus_gateway.Uplink.{
  Environment, Config, Session, UplinkError, Ended, idle, unread, out_of_fuel, failed, new_session,
  finish_drain, drain_once, after_read, drain,
}
use nexus_gateway.Uplink.Checkpoint.{DeliveryLaws, IsAligned, checkpoint-Keeps}
use nexus_gateway.Uplink.Checkpoint.Serving.{Serves, checkpoint_served, checkpoint_persists}
use nexus_gateway.Uplink.Delivery.{
  Drained, Progress, Delivers, frames, read-Delivers, after_read-Drained, more_sent,
}
use nexus_gateway.Uplink.Delivery.Pending.{
  pending, last_of, Rising-take, pending-Rising, pending-append, read_batch-pending, pending-nil,
  length-pending,
}

module _ {A : Type 0} where
  -- A round that reads a frame leaves fewer than there were.
  drop_fewer : (n : ℕ) (l : List A) → take (suc n) l ≢ [] → length (drop (suc n) l) < length l
  drop_fewer n [] h = absurd (h refl)
  drop_fewer n (x ∷ l) h = omega (arith, length-drop n l)

  drop_none : (n : ℕ) (l : List A) → take (suc n) l ≡ [] → drop (suc n) l ≡ []
  drop_none n [] h = refl
  drop_none n (x ∷ l) h = cc h

module _ {F W : Type 0} (c : Codec F) (env : Environment F W) (cfg : Config)
    (delivered : W → List (TelemetryFrame F)) (laws : DeliveryLaws env delivered) where
  read_more :
      (l : List (ℕ × TelemetryFrame F)) (s : Session F W) (w : W) (q : Session F W × Ended)
      → delivered w ≡ delivered s.world
      → IsAligned s
      → Drained env cfg delivered laws l (record s { world = w }) q
      → Drained env cfg delivered laws l s q
  read_more l s w (t, e) o h (p, a, b, d) = (
    more_sent delivered s (record s { world = w }) t [] l
        (read-Delivers env cfg delivered laws s w o h) p,
    a,
    b,
    d,
  )

  unread-Drained :
      (s : Session F W) (l : List (ℕ × TelemetryFrame F))
      → IsAligned s
      → (Serves env → ⊥)
      → Drained env cfg delivered laws l s (s, unread)
  unread-Drained s l h v = (
    record {
      sent = [];
      rest = l;
      split = refl;
      delivery = record {
        at = refl;
        same_rows = refl;
        handed = sym (append-nil (delivered s.world));
        aligned = h;
      };
    },
    λ e. cc e,
    λ e. cc e,
    λ x. absurd (v x),
  )

  -- What a drain comes to, with more fuel than frames wait.
  drain-Drained :
      (fuel : ℕ) (s : Session F W) (l : List (ℕ × TelemetryFrame F))
      → IsAligned s
      → Ascends 0 s.buffer.db.rows
      → pending c s.cursor s.buffer.db.rows ≡ some l
      → length l < fuel
      → Drained env cfg delivered laws l s (drain c env cfg fuel s)
  unfolding drain read_batch
  drain-Drained zero s l h a e n = absurd (omega arith)
  drain-Drained (suc fuel) s l h a e n =
      let w = (env.read s.world).0 in
      let s' = record s { world = w } in
      let h' : IsAligned s' = record { behind = h.behind; at_last = h.at_last } in
      read_more l s w _ (laws.reads s.world) h (elim (Bool-cases (env.read s.world).1) [
        | inr x ↦
            rw (x, read_batch, after_read) (unread-Drained s' l h' (λ v. cc (v.reads s.world, x)))
        | inl x ↦
            let split = take-append-drop 32 l in
            let next =
              λ (t : Session F W) (d : Delivers delivered s' t (take 32 l))
                  (some' : take 32 l ≢ []).
                drain-Drained fuel t (drop 32 l) d.aligned (rw d.same_rows a)
                  (rw (d.at, d.same_rows)
                    (pending-append c s.cursor s.buffer.db.rows (take 32 l) (drop 32 l) a
                      (rw split e)))
                  (omega (arith, drop_fewer 31 l some')) in
            rw (x, read_batch-pending c s.cursor 32 s.buffer l e)
              (subst
                (λ k.
                  Drained env cfg delivered laws k s'
                    (after_read env cfg (drain c env cfg fuel) s' (some (take 32 l))))
                split
                (after_read-Drained env cfg delivered laws (drain c env cfg fuel) s' (take 32 l)
                  (drop 32 l) h'
                  (Rising-take c 32 s.cursor l (pending-Rising c s.cursor s.buffer.db.rows l a e))
                  (drop_none 31 l) next))
      ])

  -- A first part of the frames `l` went out: all of them, or the buffer was not read, or an error
  -- was met.
  unfoldable pub Delivered :
      List (ℕ × TelemetryFrame F) → Session F W → Session F W × Ended → Type 0
  Delivered l s (t, e) =
      (p : Progress delivered l s t) × (((e ≡ idle) × (p.rest ≡ []))
        ⊎ ((e ≡ unread) ⊎ ((x : UplinkError) × (e ≡ failed x))))

  delivered_of :
      (l : List (ℕ × TelemetryFrame F)) (s t : Session F W) (e : Ended)
      → Drained env cfg delivered laws l s (t, e)
      → Delivered l s (t, e)
  unfolding Delivered
  delivered_of l s t idle (p, all, _, _) = (p, inl (refl, all refl))
  delivered_of l s t unread (p, all, _, _) = (p, inr (inl refl))
  delivered_of l s t (failed x) (p, all, _, _) = (p, inr (inr (x, refl)))
  delivered_of l s t out_of_fuel (p, all, fuelled, _) = absurd (fuelled refl)

  -- A drain over ascending rows that all decode, with more fuel than frames wait: whichever send,
  -- ack, read or advance fails, it ends before the fuel does; the frames that the sink took are a
  -- first part of those that waited, each once and in order; the session's cursor is at the last of
  -- them, and the persisted cursor is not past it; all of them were taken, unless the read failed
  -- or an error is reported.
  pub drain-Delivered :
      (fuel : ℕ) (s : Session F W) (l : List (ℕ × TelemetryFrame F))
      → IsAligned s
      → Ascends 0 s.buffer.db.rows
      → pending c s.cursor s.buffer.db.rows ≡ some l
      → length l < fuel
      → Delivered l s (drain c env cfg fuel s)
  drain-Delivered fuel s l h a e n =
      let q = drain c env cfg fuel s in delivered_of l s q.0 q.1 (drain-Drained fuel s l h a e n)

  new_session-IsAligned : (b : Buffer F) (w : W) (conn : Bool) → IsAligned (new_session b w conn)
  unfolding new_session
  new_session-IsAligned b w conn = record { behind = omega arith; at_last = inl (refl, refl) }

  pending_fits :
      (b : Buffer F) (l : List (ℕ × TelemetryFrame F))
      → pending c (cursor_of b) b.db.rows ≡ some l
      → length l < suc (length b.db.rows)
  pending_fits b l e = omega (arith, length-pending c (cursor_of b) b.db.rows l e)

  flushed :
      (s t : Session F W) (e : Ended) (l : List (ℕ × TelemetryFrame F))
      → Ascends 0 s.buffer.db.rows
      → pending c s.cursor s.buffer.db.rows ≡ some l
      → Drained env cfg delivered laws l s (t, e)
      → Serves env
      → let (u, x) = finish_drain env (t, e) in
        (x ≡ none) × (delivered u.world ≡ delivered s.world ++ frames l) × (depth u.buffer ≡ 0)
  unfolding finish_drain depth cursor_of
  flushed s t idle l a e (p, done, fuelled, served) v =
      let k = checkpoint-Keeps env delivered laws t p.delivery.aligned in
      let whole : p.sent ≡ l =
        sym (append-nil p.sent) ∙ (ap (λ m. p.sent ++ m) (sym (done refl)) ∙ sym p.split) in
      let ok = checkpoint_served env t v in
      let rows = k.same_rows ∙ p.delivery.same_rows in
      let at =
        checkpoint_persists env t p.delivery.aligned ok
        ∙ (p.delivery.at ∙ ap (last_of s.cursor) whole) in
      (
        ok,
        k.same_delivered ∙ (p.delivery.handed ∙ ap (λ m. delivered s.world ++ frames m) whole),
        rw (rows, at)
            (pending-nil c s.buffer.db.rows (last_of s.cursor l)
              (pending-append c s.cursor s.buffer.db.rows l [] a (rw append-nil e))),
      )
  flushed s t unread l a e (p, done, fuelled, served) v = cc (served v)
  flushed s t out_of_fuel l a e (p, done, fuelled, served) v = cc (served v)
  flushed s t (failed x) l a e (p, done, fuelled, served) v = cc (served v)

  -- The flush at shutdown, where the rows are in order, all that wait decode and nothing fails:
  -- DrainOnce reports no error, the sink has taken every frame that waited, once and in order,
  -- and the backlog is empty.
  pub drain_once-empties :
      (b : Buffer F) (w : W) (conn : Bool) (l : List (ℕ × TelemetryFrame F))
      → Ascends 0 b.db.rows
      → pending c (cursor_of b) b.db.rows ≡ some l
      → Serves env
      → let (t, e) = drain_once c env cfg b w conn in
        (e ≡ none) × (delivered t.world ≡ delivered w ++ frames l) × (depth t.buffer ≡ 0)
  unfolding drain_once new_session
  drain_once-empties b w conn l a e v =
      let s = new_session b w conn in
      let q = drain c env cfg (suc (length b.db.rows)) s in
      flushed s q.0 q.1 l a e
        (drain-Drained (suc (length b.db.rows)) s l (new_session-IsAligned b w conn) a e
          (pending_fits b l e))
        v
