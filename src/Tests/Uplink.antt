-- ===== src/Tests/Uplink.antt =====
-- internal/uplink: two frames that wait, and a sink that takes one, or all.
use nexus_gateway.Prelude.{
  ℕ, ◌≡◌, refl, Bool, true, false, none, some, List, [], ◌∷◌, ◌++◌, arith, inl,
}
use nexus_gateway.Prelude.Int.{pos}
use nexus_gateway.Frame.{TelemetryFrame}
use nexus_gateway.StoreForward.Buffer.{Buffer, cursor_of, depth, decode_rows, decode_row}
use nexus_gateway.Uplink.{Environment, Config, Session, checkpoint, drain, drain_once}
use nexus_gateway.Uplink.Checkpoint.{DeliveryLaws, IsAligned}
use nexus_gateway.Uplink.Checkpoint.Serving.{Serves}
use nexus_gateway.Uplink.Flush.{Delivered, drain-Delivered, drain_once-empties}
use nexus_gateway.Uplink.Delivery.Pending.{pending}
use nexus_gateway.Tests.StoreForward.{reading, codec, full}

-- The world is the list of the frames that the sink took.
abbrev Log : Type 0
Log = List (TelemetryFrame ℕ)

abbrev serving : Environment ℕ Log
serving = record {
  send = λ f w. (w ++ f ∷ [], true);
  checkpoint = λ w. (w, some (pos 1));
  read = λ w. (w, true);
  persist = λ w. (w, true);
  now = λ w. 5;
}

abbrev take_one : TelemetryFrame ℕ → Log → Log × Bool
take_one f [] = (f ∷ [], true)
take_one f (g ∷ w) = (g ∷ w, false)

-- The second frame is refused.
abbrev refusing : Environment ℕ Log
refusing = record {
  send = take_one;
  checkpoint = λ w. (w, some (pos 1));
  read = λ w. (w, true);
  persist = λ w. (w, false);
  now = λ w. 5;
}

abbrev config : Config
config = record { checkpoint_size = 1 }

abbrev waiting : Buffer ℕ
waiting = record full { db = record (full.db) { cursor = none } }

abbrev session : Session ℕ Log
session = record { buffer = waiting; world = []; connected = false; cursor = 0; batch = [] }

abbrev in_flight : Session ℕ Log
in_flight = record session {
  cursor = 1;
  batch = record { seq = 1; point_id = "room/temperature" } ∷ [];
}

serving-DeliveryLaws : DeliveryLaws serving (λ w. w)
serving-DeliveryLaws = record {
  takes = λ f w e. refl;
  refuses = λ f w e. cc e;
  checkpoints = λ w. refl;
  reads = λ w. refl;
  persists = λ w. refl;
}

take_one-takes :
    (f : TelemetryFrame ℕ) (w : Log) → (take_one f w).1 ≡ true → (take_one f w).0 ≡ w ++ f ∷ []
take_one-takes f [] e = refl
take_one-takes f (g ∷ w) e = cc e

take_one-refuses :
    (f : TelemetryFrame ℕ) (w : Log) → (take_one f w).1 ≡ false → (take_one f w).0 ≡ w
take_one-refuses f [] e = cc e
take_one-refuses f (g ∷ w) e = refl

refusing-DeliveryLaws : DeliveryLaws refusing (λ w. w)
refusing-DeliveryLaws = record {
  takes = take_one-takes;
  refuses = take_one-refuses;
  checkpoints = λ w. refl;
  reads = λ w. refl;
  persists = λ w. refl;
}

session-IsAligned : IsAligned session
unfolding cursor_of
session-IsAligned = record { behind = omega arith; at_last = inl (refl, refl) }

both_wait : pending codec 0 waiting.db.rows ≡ some ((1, reading) ∷ (2, reading) ∷ [])
unfolding decode_rows decode_row
both_wait = refl

drain-Delivered_example :
    Delivered codec refusing config
      (λ w. w)
      refusing-DeliveryLaws
      ((1, reading) ∷ (2, reading) ∷ [])
      session
      (drain codec refusing config 3 session)
drain-Delivered_example =
    drain-Delivered codec refusing config (λ w. w) refusing-DeliveryLaws 3 session
      ((1, reading) ∷ (2, reading) ∷ []) session-IsAligned (omega arith, (omega arith, tt))
      both_wait (omega arith)

serving-Serves : Serves serving
serving-Serves = record {
  sends = λ f w. refl;
  acks = λ w. (pos 1, refl);
  reads = λ w. refl;
  persists = λ w. refl;
}

none_acked : cursor_of waiting ≡ 0
unfolding cursor_of
none_acked = refl

drain_once-empties_example :
    let (t, e) = drain_once codec serving config waiting [] false in
    (e ≡ none) × (t.world ≡ reading ∷ reading ∷ []) × (depth t.buffer ≡ 0)
drain_once-empties_example =
    drain_once-empties codec serving config (λ w. w) serving-DeliveryLaws waiting [] false
      ((1, reading) ∷ (2, reading) ∷ []) (omega arith, (omega arith, tt)) (rw none_acked both_wait)
      serving-Serves
