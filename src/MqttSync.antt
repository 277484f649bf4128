-- ===== src/MqttSync.antt =====
-- internal/mqttsync/derive.go: `Derive`; connector/sdk/wire.go: the specification of a subscription.
pub mod Derived
use nexus_gateway.Prelude.{
  ℕ, String, Bool, true, false, not, ◌||◌, List, [], ◌∷◌, str_eq, if◌then◌else◌,
}
use nexus_gateway.PointList.{Entry}

pub record SubscriptionSpec : Type 0 where
  pub topic : String
  pub qos : ℕ
  pub writable : Bool
  pub command_topic : String
  pub command_qos : ℕ
  pub device_ref : String
  pub unit : String
  pub payload_template : String

-- The test that skips an entry.
unfoldable pub skips : String → Entry → Bool
skips connector_id e =
    not (str_eq e.protocol "mqtt")
    || not (str_eq e.connector_id connector_id)
    || str_eq e.local_id ""
    || not (str_eq e.release_of "")

-- The specification of an entry; QoS are bytes.
unfoldable pub spec_of : ℕ → ℕ → Entry → SubscriptionSpec
spec_of sub_qos cmd_qos e = record {
  topic = e.local_id;
  qos = sub_qos;
  writable = e.writable;
  command_topic = if e.writable then e.local_id else "";
  command_qos = if e.writable then cmd_qos else 0;
  device_ref = e.device_ref;
  unit = e.unit;
  payload_template = "";
}

-- Derive
unfoldable pub derive : List Entry → String → ℕ → ℕ → List SubscriptionSpec
unfolding skips spec_of
derive [] connector_id sub_qos cmd_qos = []
derive (e ∷ es) connector_id sub_qos cmd_qos =
    let rest = derive es connector_id sub_qos cmd_qos in
    if skips connector_id e then rest else spec_of sub_qos cmd_qos e ∷ rest
