-- ===== src/Mqtt/Commands/OnceWritten.antt =====
-- connector/mqtt/connector.go: a command that is sent again is not written to the broker again.
use nexus_gateway.Prelude.{
  ℕ, ◌+◌, ◌≤◌, ◌<◌, ◌≡◌, ◌≢◌, refl, sym, ap, subst, ◌∙◌, inl, inr, String, Bool, true, false, not,
  ◌||◌, Option, none, some, List, [], ◌∷◌, ◌++◌, length, str_eq, arith, Bool-cases,
}
use nexus_gateway.Prelude.Dict.{Dict, lookup}
use nexus_gateway.Dispatch.{WriteRequest, WriteReply}
use nexus_gateway.CommandDedup.{
  Dedup, new_dedup, try_reserve, complete, Reserve, proceed, in_flight, cached, panics, Op,
  reserves, completes, run, perform, tries,
}
use nexus_gateway.CommandDedup.Once.{try_reserve-run}
use nexus_gateway.Mqtt.Index.{PointConfig}
use nexus_gateway.Mqtt.Commands.{
  Publish, Incoming, Handler, handle_write, handle_all, write_decoded, write_reserved, write_point,
  after_publish, format_payload, command_qos,
}

run-append : (xs ys : List Op) (d : Dedup) → run (xs ++ ys) d ≡ run ys (run xs d)
unfolding run
run-append [] ys d = refl
run-append (x ∷ xs) ys d = run-append xs ys (perform x d)

tries-append : (xs ys : List Op) → tries (xs ++ ys) ≡ tries xs + tries ys
tries-append [] ys = omega arith
tries-append (reserves id ∷ xs) ys = omega (arith, tries-append xs ys)
tries-append (completes id reply ∷ xs) ys = tries-append xs ys

-- What was done with the deduplicator, with at most `n` reservations.
abbrev Did : ℕ → Dedup → Dedup → Type 0
Did n d d' = (ops : List Op) × ((d' ≡ run ops d) × (tries ops ≤ n))

module _ {F W : Type 0} (plain : F → String) (sprintf : String → F → String)
    (publish : Publish → W → W × Option String) (points : Dict PointConfig) where
  -- The reply is recorded, whatever it is.
  write_completes :
      (r : WriteRequest F) (o : Option PointConfig) (s : Handler W)
      → (reply : WriteReply) × ((write_point plain sprintf publish points r o s).0.dedup
          ≡ complete r.control_id reply s.dedup)
  unfolding write_point
  write_completes r none s = (_, refl)
  write_completes r (some p) s = elim (Bool-cases (not p.writable || str_eq p.command_topic "")) [
    | inl f ↦ rw f (_, refl)
    | inr f ↦ rw f (
        published_completes (
          publish
            (record {
              topic = p.command_topic;
              qos = command_qos p;
              payload = format_payload plain sprintf publish points p.payload_template r.value;
            })
            s.world))
  ]
    where
      published_completes :
          (a : W × Option String)
          → (reply : WriteReply) × ((after_publish plain sprintf publish points r s a).0.dedup
              ≡ complete r.control_id reply s.dedup)
      published_completes (w, none) = (_, refl)
      published_completes (w, some e) = (_, refl)

  reserved_tried :
      (r : WriteRequest F) (s : Handler W) (d : Dedup) (a : Reserve)
      → d ≡ (try_reserve r.control_id s.dedup).0
      → Did 1 s.dedup (write_reserved plain sprintf publish points r s (d, a)).0.dedup
  unfolding write_reserved run perform complete
  reserved_tried r s d proceed e =
      let (reply, f) = write_completes r (lookup r.local_id points) (record s { dedup = d }) in
      (
        reserves r.control_id ∷ (completes r.control_id reply ∷ []),
        (f ∙ ap (complete r.control_id reply) e, omega arith),
      )
  reserved_tried r s d in_flight e = (reserves r.control_id ∷ [], (e, omega arith))
  reserved_tried r s d (cached reply) e = (reserves r.control_id ∷ [], (e, omega arith))
  reserved_tried r s d panics e = (reserves r.control_id ∷ [], (e, omega arith))

  decoded_tried :
      (connected : Bool) (o : Option (WriteRequest F)) (s : Handler W)
      → Did 1 s.dedup (write_decoded plain sprintf publish points connected o s).0.dedup
  unfolding write_decoded run
  decoded_tried connected none s = ([], (refl, omega arith))
  decoded_tried connected (some r) s = elim (Bool-cases r.release) [
    | inl f ↦ rw f ([], (refl, omega arith))
    | inr f ↦ elim (Bool-cases connected) [
      | inr g ↦ rw (f, g) ([], (refl, omega arith))
      | inl g ↦
          let (d, a) = try_reserve r.control_id s.dedup in rw (f, g) (reserved_tried r s d a refl)
    ]
  ]

  requests_tried :
      (ms : List (Incoming F)) (s : Handler W)
      → Did (length ms) s.dedup (handle_all plain sprintf publish points ms s).dedup
  unfolding handle_all handle_write run
  requests_tried [] s = ([], (refl, omega arith))
  requests_tried (m ∷ ms) s =
      let s' = (write_decoded plain sprintf publish points m.connected m.request s).0 in
      let (ops, (e, n)) = decoded_tried m.connected m.request s in
      let (ops', (e', n')) = requests_tried ms s' in
      (
        ops ++ ops',
        (
          e' ∙ (ap (run ops') e ∙ sym (run-append ops ops' s.dedup)),
          omega (arith, tries-append ops ops', n, n'),
        ),
      )

  -- Nothing is published unless the command is let through.
  held_reserved :
      (r : WriteRequest F) (s : Handler W) (d : Dedup) (a : Reserve)
      → a ≢ proceed
      → (write_reserved plain sprintf publish points r s (d, a)).0.world ≡ s.world
  unfolding write_reserved
  held_reserved r s d proceed n = absurd (n refl)
  held_reserved r s d in_flight n = refl
  held_reserved r s d (cached reply) n = refl
  held_reserved r s d panics n = refl

  held_decoded :
      (connected : Bool) (r : WriteRequest F) (s : Handler W)
      → (try_reserve r.control_id s.dedup).1 ≢ proceed
      → (write_decoded plain sprintf publish points connected (some r) s).0.world ≡ s.world
  unfolding write_decoded
  held_decoded connected r s n = elim (Bool-cases r.release) [
    | inl f ↦ rw f refl
    | inr f ↦ elim (Bool-cases connected) [
      | inr g ↦ rw (f, g) refl
      | inl g ↦
          rw (f, g)
            (held_reserved r s (try_reserve r.control_id s.dedup).0
              (try_reserve r.control_id s.dedup).1 n)
    ]
  ]

  -- A command that was let through, and then completed.
  through :
      (r : WriteRequest F) (s : Handler W) (d : Dedup) (a : Reserve)
      → a ≡ proceed
      → (reply : WriteReply) × ((write_reserved plain sprintf publish points r s (d, a)).0.dedup
          ≡ complete r.control_id reply d)
  unfolding write_reserved
  through r s d proceed e = write_completes r (lookup r.local_id points) (record s { dedup = d })
  through r s d in_flight e = cc e
  through r s d (cached reply) e = cc e
  through r s d panics e = cc e

  let_through :
      (r : WriteRequest F) (s : Handler W)
      → r.release ≡ false
      → (try_reserve r.control_id s.dedup).1 ≡ proceed
      → (reply : WriteReply) × ((write_decoded plain sprintf publish points true (some r) s).0.dedup
          ≡ complete r.control_id reply (try_reserve r.control_id s.dedup).0)
  unfolding write_decoded
  let_through r s f e =
      rw f (through r s (try_reserve r.control_id s.dedup).0 (try_reserve r.control_id s.dedup).1 e)

  run_completed :
      (id : String) (reply : WriteReply) (ops : List Op) (d : Dedup)
      → run ops (complete id reply d) ≡ run (completes id reply ∷ ops) d
  unfolding run perform
  run_completed id reply ops d = refl

  -- Once a write request was let through, another one with its id reaches the broker with nothing, as
  -- long as fewer requests than the deduplicator has room for came in between: whatever came before,
  -- whatever the broker answered, and whether or not the point could be written.
  pub handle_write-once :
      (room : ℕ) (w : W) (earlier later : List (Incoming F)) (r r' : WriteRequest F)
      (connected : Bool)
      → let start : Handler W = record { dedup = new_dedup room; world = w } in
        let before = handle_all plain sprintf publish points earlier start in
        let first : Incoming F = record { request = some r; connected = true } in
        let again : Incoming F = record { request = some r'; connected = connected } in
        let after =
          handle_all plain sprintf publish points later
            (handle_write plain sprintf publish points first before).0 in
        r.release ≡ false
        → r'.control_id ≡ r.control_id
        → (try_reserve r.control_id before.dedup).1 ≡ proceed
        → length later < room
        → (handle_write plain sprintf publish points again after).0.world ≡ after.world
  unfolding handle_write
  handle_write-once room w earlier later r r' connected f same e n =
      let start : Handler W = record { dedup = new_dedup room; world = w } in
      let before = handle_all plain sprintf publish points earlier start in
      let (ops, (p, _)) = requests_tried earlier start in
      let s = (write_decoded plain sprintf publish points true (some r) before).0 in
      let (reply, q) = let_through r before f e in
      let (ops', (p', m)) = requests_tried later s in
      let id = r.control_id in
      let e' = subst (λ (d : Dedup). (try_reserve id d).1 ≡ proceed) p e in
      let all = completes id reply ∷ ops' in
      let after_all =
        p'
        ∙ (ap (run ops') q
            ∙ (run_completed id reply ops' _
                ∙ ap (λ (d : Dedup). run all (try_reserve id d).0) p)) in
      let held = try_reserve-run room ops all id e' (omega (arith, m, n)) in
      let t = handle_all plain sprintf publish points later s in
      held_decoded connected r' t (
        subst (λ (k : String). (try_reserve k t.dedup).1 ≢ proceed) (sym same)
          (subst (λ (d : Dedup). (try_reserve id d).1 ≢ proceed) (sym after_all) held))
