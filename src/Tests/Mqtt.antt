-- ===== src/Tests/Mqtt.antt =====
-- connector/mqtt: filters, topics and subscriptions.
use nexus_gateway.Prelude.{
  none, refl, String, Bool, true, false, List, [], ◌∷◌, ◌≡◌, ◌↔◌, ◌≤◌, length,
}
use nexus_gateway.Mqtt.Topics.{split, levels_match, filter_matches}
use nexus_gateway.Prelude.Int.{ℤ, pos}
use nexus_gateway.Prelude.Dict.{lookup}
use nexus_gateway.MqttSync.{SubscriptionSpec}
use nexus_gateway.Mqtt.Index.{PointConfig, new_topic_index, resolve_topic}
use nexus_gateway.Mqtt.Apply.{plan_subscriptions, changed_in, desired_from}
use nexus_gateway.Mqtt.Planned.{subscribed, unsubscribed}
use nexus_gateway.Mqtt.Converges.{index_of, plan-converges}
use nexus_gateway.Mqtt.Resolving.{Governed, last_point, resolve_topic-Governed}
use nexus_gateway.Mqtt.Limiter.{allow_all, max_wildcard_tracked, allow_all_bounded}
use nexus_gateway.Mqtt.Matching.{Matches, filter_matches-Matches}

plus_covers : filter_matches "site/+/temp" "site/ahu1/temp" ≡ true
unfolding filter_matches split levels_match
plus_covers = refl

dollar_hides : filter_matches "#" "$SYS/uptime" ≡ false
unfolding filter_matches split levels_match
dollar_hides = refl

filter_matches-Matches_example :
    (filter_matches "site/#" "site/ahu1/temp" ≡ true) ↔ Matches "site/#" "site/ahu1/temp"
filter_matches-Matches_example = filter_matches-Matches "site/#" "site/ahu1/temp"

abbrev spec : String → Bool → SubscriptionSpec
spec topic writable = record {
  topic = topic;
  qos = 1;
  writable = writable;
  command_topic = topic;
  command_qos = 0;
  device_ref = "";
  unit = "";
  payload_template = "";
}

-- One topic stays, one changes, one goes, and one comes.
plan-converges_example :
    let current = index_of [] "r1" (spec "a" false ∷ (spec "b" false ∷ (spec "d" false ∷ []))) in
    let desired = spec "a" false ∷ (spec "b" true ∷ (spec "e" false ∷ [])) in
    let next = index_of [] "r2" desired in
    let plan =
      plan_subscriptions current next (changed_in current.points (desired_from desired [])) in
    lookup "b" (unsubscribed plan.1 (subscribed plan.0 current.explicit_subs))
    ≡ lookup "b" next.explicit_subs
plan-converges_example =
    plan-converges [] "r1" "r2" (spec "a" false ∷ (spec "b" false ∷ (spec "d" false ∷ [])))
      (spec "a" false ∷ (spec "b" true ∷ (spec "e" false ∷ []))) "b"

abbrev point : String → PointConfig
point topic = record {
  topic = topic;
  device_ref = "";
  unit = "";
  writable = false;
  command_topic = "";
  payload_template = "";
  qos = 0;
  command_qos = 0;
}

abbrev points : List PointConfig
points = point "#" ∷ (point "site/+" ∷ (point "site/ahu1" ∷ []))

resolve_topic-Governed_example :
    Governed points "site/ahu2"
      (last_point "site/ahu2" points none)
      (resolve_topic (new_topic_index points [] "r1") "site/ahu2")
resolve_topic-Governed_example = resolve_topic-Governed points [] "r1" "site/ahu2"

-- The second message of a topic comes too soon, and the third does not.
abbrev messages : List (String × ℤ)
messages = ("a", pos 0) ∷ (("a", pos 1) ∷ (("a", pos 10000000000) ∷ (("b", pos 10000000001) ∷ [])))

allow_all_bounded_example : length (allow_all (pos 0) messages []) ≤ max_wildcard_tracked
allow_all_bounded_example = allow_all_bounded (pos 0) messages
