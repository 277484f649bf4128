-- ===== src/Health.antt =====
-- internal/lifecycle/evaluate.go: `Evaluate`. `F` stands for Go's float64; the text of a reason is
-- the data that it is made from. Durations are integers of nanoseconds, without an upper bound.
pub mod Verdict
use nexus_gateway.Prelude.{
  ℕ, zero, suc, ◌*◌, String, Bool, true, false, not, Option, none, some, List, [], ◌∷◌, ◌++◌,
  if◌then◌else◌,
}
use nexus_gateway.Prelude.Int.{ℤ, pos, ◌-ℤ◌, ltb_ℤ, pos_part, neg_part, sub_ℕ}

pub data Status : Type 0 where
  ok degraded : Status

pub data Reason : Type 0 where
  broker_down points_empty : Reason
  stale : ℤ → ℤ → ℤ → Reason
  write_failures : ℤ → Reason
  near_capacity : ℤ → ℤ → Reason
  not_running : List String → Reason

pub record ComponentHealth : Type 0 where
  pub name : String
  pub status : Status
  pub reason : Option Reason

pub record Thresholds (F : Type 0) : Type 0 where
  pub checkpoint_stale : ℤ
  pub near_capacity_frac : F

-- ConnectorHealth, as far as it is read
pub record ConnectorHealth : Type 0 where
  pub id : String
  pub running : Bool

-- HealthInputs; `now` is in seconds.
pub record HealthInputs : Type 0 where
  pub nats_connected : Bool
  pub has_buffer : Bool
  pub buffer_depth : ℤ
  pub buffer_capacity : ℤ
  pub write_errors : ℤ
  pub last_checkpoint_unix : ℤ
  pub has_point_list : Bool
  pub point_count : ℕ
  pub connectors : List ConnectorHealth
  pub now : ℤ

pub record HealthReport : Type 0 where
  pub status : Status
  pub components : List ComponentHealth

-- What is used of float64: a quotient of two counts, `>` and `<=`, and 0 and 0.9.
pub record Float (F : Type 0) : Type 0 where
  pub quotient : ℤ → ℤ → F
  pub greater : F → F → Bool
  pub at_most : F → F → Bool
  pub zero_float : F
  pub default_frac : F

-- time.Duration(n) * time.Second
unfoldable pub seconds : ℤ → ℤ
seconds n = sub_ℕ (pos_part n * 1000000000) (neg_part n * 1000000000)

abbrev pub fine : String → ComponentHealth
fine name = record { name = name; status = ok; reason = none }

abbrev pub poor : String → Reason → ComponentHealth
poor name reason = record { name = name; status = degraded; reason = some reason }

unfoldable pub eval_nats : HealthInputs → ComponentHealth
eval_nats inp = if not inp.nats_connected then poor "nats" broker_down else fine "nats"

unfoldable pub eval_point_list : HealthInputs → ComponentHealth
eval_point_list inp = elim inp.point_count [
  | zero ↦ poor "pointlist" points_empty
  | suc n ↦ fine "pointlist"
]

-- The ids of the connectors that do not run.
unfoldable pub down_of : List ConnectorHealth → List String
down_of [] = []
down_of (c ∷ cs) = let rest = down_of cs in if not c.running then c.id ∷ rest else rest

unfoldable pub eval_connectors : HealthInputs → ComponentHealth
unfolding down_of
eval_connectors inp = elim (down_of inp.connectors) [
  | [] ↦ fine "connectors"
  | id ∷ ids ↦ poor "connectors" (not_running (id ∷ ids))
]

-- The loop that takes the first degraded component.
unfoldable pub overall : List ComponentHealth → Status
overall [] = ok
overall (c ∷ cs) = let rest = overall cs in elim c.status [ degraded ↦ degraded | ok ↦ rest ]

module _ {F : Type 0} (float : Float F) where
  unfoldable pub eval_uplink : HealthInputs → Thresholds F → ComponentHealth
  unfolding seconds
  eval_uplink inp cfg =
      if not (ltb_ℤ (pos 0) inp.buffer_depth)
      then fine "uplink"
      else let age = seconds (inp.now -ℤ inp.last_checkpoint_unix) in
        if ltb_ℤ cfg.checkpoint_stale age
        then poor "uplink" (stale inp.buffer_depth age cfg.checkpoint_stale)
        else fine "uplink"

  unfoldable pub eval_buffer : HealthInputs → Thresholds F → ComponentHealth
  eval_buffer inp cfg =
      if ltb_ℤ (pos 0) inp.write_errors
      then poor "buffer" (write_failures inp.write_errors)
      else if ltb_ℤ (pos 0) inp.buffer_capacity
      then if float.greater (float.quotient inp.buffer_depth inp.buffer_capacity)
          cfg.near_capacity_frac
        then poor "buffer" (near_capacity inp.buffer_depth inp.buffer_capacity)
        else fine "buffer"
      else fine "buffer"

  -- Evaluate's defaults for thresholds that are not positive; 60 seconds and 0.9.
  unfoldable pub defaulted : Thresholds F → Thresholds F
  defaulted cfg = record {
    checkpoint_stale =
        if ltb_ℤ (pos 0) cfg.checkpoint_stale then cfg.checkpoint_stale else pos 60000000000;
    near_capacity_frac =
        if float.at_most cfg.near_capacity_frac float.zero_float
        then float.default_frac
        else cfg.near_capacity_frac;
  }

  unfoldable pub components_of : HealthInputs → Thresholds F → List ComponentHealth
  unfolding eval_nats eval_uplink eval_buffer eval_point_list eval_connectors
  components_of inp cfg =
      eval_nats inp
        ∷ (if inp.has_buffer then eval_uplink inp cfg ∷ eval_buffer inp cfg ∷ [] else [])
      ++ (if inp.has_point_list then eval_point_list inp ∷ [] else [])
      ++ eval_connectors inp ∷ []

  unfoldable pub evaluate : HealthInputs → Thresholds F → HealthReport
  unfolding overall components_of defaulted
  evaluate inp cfg =
      let comps = components_of inp (defaulted cfg) in
      record { status = overall comps; components = comps }
