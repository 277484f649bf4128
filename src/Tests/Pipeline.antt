-- ===== src/Tests/Pipeline.antt =====
-- internal/normalizer and internal/lifecycle: an event of one point, and a gateway that lags.
use nexus_gateway.Prelude.{ℕ, ◌≡◌, true, not, ◌&&◌, ◌||◌, [], ◌∷◌, ltb, leb, ◌==◌}
use nexus_gateway.Prelude.Int.{pos, pos_part}
use nexus_gateway.Normalizer.{Event, number}
use nexus_gateway.Health.{HealthInputs, Thresholds, Float, evaluate}
use nexus_gateway.Health.Verdict.{is_ok, all_running, uplink_fine, buffer_fine, is_ok-evaluate}

abbrev event : Event ℕ
event = record {
  connector_id = "bacnet-1";
  local_id = "AV:1";
  value = number 21;
  unit = "percent";
  quality = "Uncertain";
  timestamp = "";
  attributes = ("floor", "2") ∷ [];
}

-- Fractions in percent.
abbrev percent : Float ℕ
percent = record {
  quotient = λ a b. pos_part a;
  greater = λ a b. ltb b a;
  at_most = λ a b. leb a b;
  zero_float = 0;
  default_frac = 90;
}

abbrev lagging : HealthInputs
lagging = record {
  nats_connected = true;
  has_buffer = true;
  buffer_depth = pos 5;
  buffer_capacity = pos 100;
  write_errors = pos 0;
  last_checkpoint_unix = pos 1000;
  has_point_list = true;
  point_count = 2;
  connectors = record { id = "bacnet-1"; running = true } ∷ [];
  now = pos 1061;
}

abbrev thresholds : Thresholds ℕ
thresholds = record { checkpoint_stale = pos 0; near_capacity_frac = 0 }

is_ok-evaluate_example : is_ok (evaluate percent lagging thresholds).status ≡ (
    true
    && (not true || (uplink_fine percent lagging (pos 0) && buffer_fine percent lagging 0))
    && (not true || not (2 == 0))
    && all_running lagging.connectors)
is_ok-evaluate_example = is_ok-evaluate percent lagging thresholds
