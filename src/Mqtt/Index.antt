-- ===== src/Mqtt/Index.antt =====
-- connector/mqtt/connector.go: the points of the connector, and the index of their topics.
use text.Mathlib.Text.{is_lt}
use Prim.Native.String.{compare as compare_text}
use nexus_gateway.Prelude.{
  ℕ, ◌+◌, String, Bool, true, false, not, ◌&&◌, ◌||◌, Option, none, some, List, [], ◌∷◌, ltb, ◌==◌,
  str_eq, if◌then◌else◌,
}
use nexus_gateway.Prelude.Dict.{Dict, lookup, insert}
use nexus_gateway.MqttSync.{SubscriptionSpec}
use nexus_gateway.Mqtt.Topics.{split, filter_matches, has_wildcard, is_wild}

-- PointConfig
pub record PointConfig : Type 0 where
  pub topic : String
  pub device_ref : String
  pub unit : String
  pub writable : Bool
  pub command_topic : String
  pub payload_template : String
  pub qos : ℕ
  pub command_qos : ℕ

-- SubscriptionConfig
pub record SubscriptionConfig : Type 0 where
  pub filter : String
  pub qos : ℕ

-- paho.SubscribeOptions, as far as it is set
pub record SubscribeOptions : Type 0 where
  pub topic : String
  pub qos : ℕ
  pub no_local : Bool

-- topicIndex
pub record TopicIndex : Type 0 where
  pub points : Dict PointConfig
  pub explicit_subs : Dict SubscribeOptions
  pub wildcards : List PointConfig
  pub revision : String

-- subscribeQoS
unfoldable pub subscribe_qos : PointConfig → ℕ
subscribe_qos p = if p.qos == 0 then 1 else p.qos

-- subscribeOptionsFor
unfoldable pub subscribe_options_for : PointConfig → SubscribeOptions
unfolding subscribe_qos
subscribe_options_for p = record {
  topic = p.topic;
  qos = subscribe_qos p;
  no_local = p.writable && str_eq p.command_topic p.topic;
}

-- coveredByWildcard
unfoldable pub covered_by_wildcard : String → List SubscriptionConfig → Bool
covered_by_wildcard topic [] = false
covered_by_wildcard topic (w ∷ ws) =
    let rest = covered_by_wildcard topic ws in if filter_matches w.filter topic then true else rest

abbrev pub literals_in : List String → ℕ
literals_in [] = 0
literals_in (l ∷ ls) = (if is_wild l then 0 else 1) + literals_in ls

-- literalLevels
unfoldable pub literal_levels : String → ℕ
unfolding split
literal_levels filter = literals_in (split filter)

-- The order of the wildcards in newTopicIndex.
unfoldable pub precedes : PointConfig → PointConfig → Bool
unfolding literal_levels
precedes p q =
    if literal_levels p.topic == literal_levels q.topic
    then is_lt (compare_text p.topic q.topic)
    else ltb (literal_levels q.topic) (literal_levels p.topic)

-- sort.Slice, as an insertion sort; points of one topic are left in an order that is not told.
unfoldable pub place : PointConfig → List PointConfig → List PointConfig
unfolding precedes
place p [] = p ∷ []
place p (q ∷ qs) = let rest = place p qs in if precedes q p then q ∷ rest else p ∷ (q ∷ qs)

unfoldable pub sorted : List PointConfig → List PointConfig
unfolding place
sorted [] = []
sorted (p ∷ ps) = place p (sorted ps)

-- The first loop of newTopicIndex.
unfoldable pub points_by_topic : List PointConfig → Dict PointConfig → Dict PointConfig
points_by_topic [] m = m
points_by_topic (p ∷ ps) m = points_by_topic ps (insert p.topic p m)

unfoldable pub wildcards_of : List PointConfig → List PointConfig
wildcards_of [] = []
wildcards_of (p ∷ ps) =
    let rest = wildcards_of ps in if has_wildcard p.topic then p ∷ rest else rest

-- The first wildcard point that covers a topic.
unfoldable pub covering : String → List PointConfig → Option PointConfig
covering topic [] = none
covering topic (w ∷ ws) =
    let rest = covering topic ws in if filter_matches w.topic topic then some w else rest

abbrev pub is_some {ℓ} : {A : Type ℓ} → Option A → Bool
is_some none = false
is_some (some a) = true

-- `covered`
unfoldable pub is_covered : String → List SubscriptionConfig → List PointConfig → Bool
unfolding covered_by_wildcard covering
is_covered topic statics wildcards =
    covered_by_wildcard topic statics
    || not (has_wildcard topic) && is_some (covering topic wildcards)

-- The second loop of newTopicIndex.
unfoldable pub explicit_from :
    List SubscriptionConfig
    → List PointConfig
    → List PointConfig
    → Dict SubscribeOptions
    → Dict SubscribeOptions
unfolding is_covered subscribe_options_for
explicit_from statics wildcards [] m = m
explicit_from statics wildcards (p ∷ ps) m =
    explicit_from statics wildcards ps (
      if is_covered p.topic statics wildcards
      then m
      else insert p.topic (subscribe_options_for p) m)

-- newTopicIndex
unfoldable pub new_topic_index : List PointConfig → List SubscriptionConfig → String → TopicIndex
unfolding points_by_topic wildcards_of explicit_from sorted
new_topic_index points statics revision = record {
  points = points_by_topic points [];
  explicit_subs = explicit_from statics (wildcards_of points) points [];
  wildcards = sorted (wildcards_of points);
  revision = revision;
}

-- resolve: the point, and whether it is explicit
unfoldable pub resolve_among :
    String → Option PointConfig → List PointConfig → Option (PointConfig × Bool)
unfolding covering
resolve_among topic (some p) ws = some (p, true)
resolve_among topic none ws = elim (covering topic ws) [ none ↦ none | some w ↦ some (w, false) ]

-- resolve
unfoldable pub resolve_topic : TopicIndex → String → Option (PointConfig × Bool)
unfolding resolve_among
resolve_topic idx topic = resolve_among topic (lookup topic idx.points) idx.wildcards

-- pointConfigsOf, in an order that is not told
unfoldable pub point_configs_of : Dict PointConfig → List PointConfig
point_configs_of [] = []
point_configs_of ((topic, p) ∷ m) = p ∷ point_configs_of m

-- pointConfigFromSpec
unfoldable pub point_config_from_spec : SubscriptionSpec → PointConfig
point_config_from_spec spec = record {
  topic = spec.topic;
  device_ref = spec.device_ref;
  unit = spec.unit;
  writable = spec.writable;
  command_topic = spec.command_topic;
  payload_template = spec.payload_template;
  qos = spec.qos;
  command_qos = spec.command_qos;
}

-- The tests of ValidatePoints on one point.
unfoldable pub is_valid_point : PointConfig → Bool
is_valid_point p =
    not (str_eq p.topic "")
    && (not (p.writable && str_eq p.command_topic "")
        && (not (ltb 1 p.qos) && not (ltb 1 p.command_qos)))

-- ValidatePoints, without the text of its error
unfoldable pub validate_points : List PointConfig → Bool
unfolding is_valid_point
validate_points [] = true
validate_points (p ∷ ps) = let rest = validate_points ps in is_valid_point p && rest
