-- ===== src/Mqtt/Apply.antt =====
-- connector/mqtt/connector.go: the change of the subscriptions while the connector runs.
use nexus_gateway.Prelude.{
  String, Bool, true, false, not, ◌&&◌, ◌||◌, Option, none, some, List, [], ◌∷◌, ◌==◌, str_eq,
  if◌then◌else◌,
}
use nexus_gateway.Prelude.Dict.{Dict, lookup, insert}
use nexus_gateway.MqttSync.{SubscriptionSpec}
use nexus_gateway.Mqtt.Index.{
  PointConfig, SubscriptionConfig, SubscribeOptions, TopicIndex, new_topic_index, point_configs_of,
  point_config_from_spec, validate_points, is_some,
}

-- old == p, on the fields of the struct
unfoldable pub same_point : PointConfig → PointConfig → Bool
same_point p q =
    str_eq p.topic q.topic
    && (str_eq p.device_ref q.device_ref
        && (str_eq p.unit q.unit
            && ((p.writable && q.writable || not p.writable && not q.writable)
                && (str_eq p.command_topic q.command_topic
                    && (str_eq p.payload_template q.payload_template
                        && (p.qos == q.qos && p.command_qos == q.command_qos))))))

unfoldable pub has_topic : String → List String → Bool
has_topic topic [] = false
has_topic topic (t ∷ ts) = let rest = has_topic topic ts in str_eq t topic || rest

-- planSubscriptions: what to subscribe
unfoldable pub to_subscribe :
    Dict SubscribeOptions → List String → Dict SubscribeOptions → List SubscribeOptions
unfolding has_topic
to_subscribe current changed [] = []
to_subscribe current changed ((topic, opt) ∷ next) =
    let rest = to_subscribe current changed next in
    if not (is_some (lookup topic current)) || has_topic topic changed then opt ∷ rest else rest

-- planSubscriptions: what to unsubscribe
unfoldable pub to_unsubscribe : Dict SubscribeOptions → Dict SubscribeOptions → List String
to_unsubscribe next [] = []
to_unsubscribe next ((topic, opt) ∷ current) =
    let rest = to_unsubscribe next current in
    if is_some (lookup topic next) then rest else topic ∷ rest

-- planSubscriptions; the order of its lists, which it sorts, is not told
unfoldable pub plan_subscriptions :
    TopicIndex → TopicIndex → List String → List SubscribeOptions × List String
unfolding to_subscribe to_unsubscribe
plan_subscriptions current next changed = (
  to_subscribe current.explicit_subs changed next.explicit_subs,
  to_unsubscribe next.explicit_subs current.explicit_subs,
)

-- The desired points by topic.
unfoldable pub desired_from : List SubscriptionSpec → Dict PointConfig → Dict PointConfig
unfolding point_config_from_spec
desired_from [] m = m
desired_from (s ∷ ss) m = desired_from ss (insert s.topic (point_config_from_spec s) m)

abbrev pub differs : Option PointConfig → PointConfig → Bool
differs none p = false
differs (some old) p = not (same_point old p)

-- The topics whose point is another.
unfoldable pub changed_in : Dict PointConfig → Dict PointConfig → List String
unfolding same_point
changed_in current [] = []
changed_in current ((topic, p) ∷ desired) =
    let rest = changed_in current desired in
    if differs (lookup topic current) p then topic ∷ rest else rest

-- What ApplySubscriptions comes to.
pub data Applied : Type 0 where
  invalid_request subscribe_failed applied left_over : Applied

module _ {W : Type 0} (subscribe : List SubscribeOptions → W → W × Bool)
    (unsubscribe : List String → W → W × Bool) where
  -- ApplySubscriptions, after Unsubscribe
  unfoldable pub after_unsubscribe : TopicIndex → W × Bool → (TopicIndex × W) × Applied
  after_unsubscribe next (w, ok) = ((next, w), if ok then applied else left_over)

  abbrev pub ask : {A : Type 0} → (List A → W → W × Bool) → List A → W → W × Bool
  ask call [] w = (w, true)
  ask call (a ∷ as') w = call (a ∷ as') w

  -- ApplySubscriptions, after Subscribe
  unfoldable pub after_subscribe :
      TopicIndex → TopicIndex → List String → W × Bool → (TopicIndex × W) × Applied
  unfolding after_unsubscribe
  after_subscribe current next topics (w, false) = ((current, w), subscribe_failed)
  after_subscribe current next topics (w, true) = after_unsubscribe next (ask unsubscribe topics w)

  -- ApplySubscriptions, on the desired points
  unfoldable pub apply_desired :
      List SubscriptionConfig
      → String
      → Dict PointConfig
      → TopicIndex
      → W
      → (TopicIndex × W) × Applied
  unfolding after_subscribe new_topic_index plan_subscriptions changed_in validate_points
      point_configs_of
  apply_desired statics revision desired current w =
      if not (validate_points (point_configs_of desired))
      then ((current, w), invalid_request)
      else (let next = new_topic_index (point_configs_of desired) statics revision in
          let (subs, topics) =
            plan_subscriptions current next (changed_in current.points desired) in
          after_subscribe current next topics (ask subscribe subs w))

  -- ApplySubscriptions, with a connection to the broker
  unfoldable pub apply_subscriptions :
      List SubscriptionConfig
      → String
      → List SubscriptionSpec
      → TopicIndex
      → W
      → (TopicIndex × W) × Applied
  unfolding apply_desired desired_from
  apply_subscriptions statics revision specs current w =
      apply_desired statics revision (desired_from specs []) current w
