-- ===== src/Frame.antt =====
-- The telemetry frame of the uplink protocol (gen/gateway_egress.pb.go is generated from proto/):
-- the fields that the gateway reads. `F` stands for Go's float64.
use nexus_gateway.Prelude.{Bool, Option, String}
use nexus_gateway.Prelude.Dict.{Dict}

-- The `value` oneof.
pub data Scalar (F : Type 0) : Type 0 where
  value_num : F → Scalar F
  value_str : String → Scalar F
  value_bool : Bool → Scalar F

pub record TelemetryFrame (F : Type 0) : Type 0 where
  pub gateway_id : String
  pub point_id : String
  pub timestamp : String
  pub attributes : Dict String
  pub value : Option (Scalar F)
