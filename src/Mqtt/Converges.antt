-- ===== src/Mqtt/Converges.antt =====
-- connector/mqtt/connector.go: the plan moves the broker's subscriptions to those of the new index.
use nexus_gateway.Prelude.{
  ◌≡◌, ◌⊎◌, inl, inr, refl, sym, ap, subst, ◌∙◌, String, Bool, true, false, not, ◌&&◌, ◌||◌, Option,
  none, some, List, [], ◌∷◌, str_eq, eq_iff, arith, Bool-cases, if◌then◌else◌,
}
use nexus_gateway.Prelude.Dict.{Dict, lookup, insert, lookup-insert}
use nexus_gateway.MqttSync.{SubscriptionSpec}
use nexus_gateway.Mqtt.Index.{
  PointConfig, SubscriptionConfig, SubscribeOptions, TopicIndex, new_topic_index, point_configs_of,
  point_config_from_spec, subscribe_options_for, is_some, explicit_from, is_covered, wildcards_of,
  points_by_topic,
}
use nexus_gateway.Mqtt.Apply.{has_topic, plan_subscriptions, desired_from, differs, changed_in}
use nexus_gateway.Mqtt.Planned.{
  subscribed, unsubscribed, Keyed, insert-Keyed, subscribed-plan, unsubscribed-plan, unchanged,
  alike,
}

-- The point that a topic's options are of.
abbrev pub Explains : Dict PointConfig → String → SubscribeOptions → Type 0
Explains points t o = (p : PointConfig) × (lookup t points ≡ some p) × (o ≡ subscribe_options_for p)

here :
    (k : String) (p : PointConfig) (points : Dict PointConfig) (m : Dict SubscribeOptions)
    (t : String) (o : SubscribeOptions)
    → p.topic ≡ k
    → (if str_eq p.topic t then some (subscribe_options_for p) else lookup t m) ≡ some o
    → (lookup t m ≡ some o) ⊎ Explains ((k, p) ∷ points) t o
unfolding lookup
here k p points m t o q e = elim (Bool-cases (str_eq k t)) [
  | inl s ↦
      let s' : str_eq p.topic t ≡ true = rw q s in
      let g =
        subst (λ (b : Bool). (if b then some (subscribe_options_for p) else lookup t m) ≡ some o) s'
          e in
      inr (p, rw s refl, sym (cc g))
  | inr s ↦
      let s' : str_eq p.topic t ≡ false = rw q s in
      inl (
        subst (λ (b : Bool). (if b then some (subscribe_options_for p) else lookup t m) ≡ some o) s'
          e)
]

explicit-Explains :
    (statics : List SubscriptionConfig) (ws : List PointConfig) (points : Dict PointConfig)
    (m : Dict SubscribeOptions) (t : String) (o : SubscribeOptions)
    → Keyed (λ p. p.topic) points
    → lookup t (explicit_from statics ws (point_configs_of points) m) ≡ some o
    → (lookup t m ≡ some o) ⊎ Explains points t o
unfolding explicit_from point_configs_of lookup
explicit-Explains statics ws [] m t o h e = inl e
explicit-Explains statics ws ((k, p) ∷ points) m t o (q, (a, h)) e =
    let covered = is_covered p.topic statics ws in
    let m' = if covered then m else insert p.topic (subscribe_options_for p) m in
    elim (explicit-Explains statics ws points m' t o h e) [
      | inr (p', f, g) ↦ elim (Bool-cases (str_eq k t)) [
        | inl s ↦
            let same : k ≡ t = ground (arith, s, eq_iff k t) in
            cc (sym (subst (λ (x : String). lookup x points ≡ none) same a) ∙ f)
        | inr s ↦ inr (p', rw s f, g)
      ]
      | inl f ↦ elim (Bool-cases covered) [
        | inl v ↦ inl (
            subst
              (λ (b : Bool).
                lookup t (if b then m else insert p.topic (subscribe_options_for p) m) ≡ some o)
              v f)
        | inr v ↦
            let g =
              subst
                (λ (b : Bool).
                  lookup t (if b then m else insert p.topic (subscribe_options_for p) m) ≡ some o)
                v f in
            here k p points m t o q (sym (lookup-insert p.topic t (subscribe_options_for p) m) ∙ g)
      ]
    ]

points-lookup :
    (points m : Dict PointConfig) (t : String)
    → Keyed (λ p. p.topic) points
    → lookup t (points_by_topic (point_configs_of points) m)
      ≡ (if is_some (lookup t points) then lookup t points else lookup t m)
unfolding points_by_topic point_configs_of lookup
points-lookup [] m t h = refl
points-lookup ((k, p) ∷ points) m t (q, (a, h)) =
    let rest = points-lookup points (insert p.topic p m) t h in
    let stored = lookup-insert p.topic t p m in
    elim (Bool-cases (str_eq k t)) [
      | inl s ↦
          let same : k ≡ t = ground (arith, s, eq_iff k t) in
          let gone : lookup t points ≡ none =
            subst (λ (x : String). lookup x points ≡ none) same a in
          let own : str_eq p.topic t ≡ true = rw q s in rw s (rest ∙ rw gone (stored ∙ rw own refl))
      | inr s ↦
          let own : str_eq p.topic t ≡ false = rw q s in
          let kept : lookup t (insert p.topic p m) ≡ lookup t m = stored ∙ rw own refl in
          rw s (rest ∙ rw kept refl)
    ]

points_by_topic-lookup :
    (points : Dict PointConfig) (t : String)
    → Keyed (λ p. p.topic) points
    → lookup t (points_by_topic (point_configs_of points) []) ≡ lookup t points
unfolding lookup
points_by_topic-lookup points t h = points-lookup points [] t h ∙ settled (lookup t points)
  where
    settled : (o : Option PointConfig) → (if is_some o then o else none) ≡ o
    settled none = refl
    settled (some p) = refl

explicit-Keyed :
    (statics : List SubscriptionConfig) (ws ps : List PointConfig) (m : Dict SubscribeOptions)
    → Keyed (λ o. o.topic) m
    → Keyed (λ o. o.topic) (explicit_from statics ws ps m)
unfolding explicit_from
explicit-Keyed statics ws [] m h = h
explicit-Keyed statics ws (p ∷ ps) m h = elim (Bool-cases (is_covered p.topic statics ws)) [
  | inl f ↦ rw f (explicit-Keyed statics ws ps m h)
  | inr f ↦ rw f (
      explicit-Keyed statics ws ps (insert p.topic (subscribe_options_for p) m)
        (insert-Keyed (λ o. o.topic) p.topic (subscribe_options_for p) m (own_topic p) h))
]
  where
    own_topic : (p : PointConfig) → (subscribe_options_for p).topic ≡ p.topic
    own_topic p = refl

desired-Keyed :
    (specs : List SubscriptionSpec) (m : Dict PointConfig)
    → Keyed (λ p. p.topic) m
    → Keyed (λ p. p.topic) (desired_from specs m)
unfolding desired_from point_config_from_spec
desired-Keyed [] m h = h
desired-Keyed (s ∷ specs) m h =
    desired-Keyed specs (insert s.topic (point_config_from_spec s) m)
      (insert-Keyed (λ p. p.topic) s.topic (point_config_from_spec s) m refl h)

-- The index that an application of a set of subscriptions makes.
abbrev pub index_of : List SubscriptionConfig → String → List SubscriptionSpec → TopicIndex
index_of statics revision specs =
    new_topic_index (point_configs_of (desired_from specs [])) statics revision

-- The new options of a topic against the ones that there are.
settle :
    (has wanted : Bool) (old new : Option SubscribeOptions)
    → has ≡ is_some old
    → ((o o' : SubscribeOptions) → wanted ≡ false → old ≡ some o → new ≡ some o' → o ≡ o')
    → (if has && not (is_some new)
        then none
        else (if is_some new && (not has || wanted) then new else old))
      ≡ new
settle has true none none e h = rw e refl
settle has true (some o) none e h = rw e refl
settle has true none (some o') e h = rw e refl
settle has true (some o) (some o') e h = rw e refl
settle has false none none e h = rw e refl
settle has false (some o) none e h = rw e refl
settle has false none (some o') e h = rw e refl
settle has false (some o) (some o') e h = rw e (ap some (h o o' refl refl refl))

explained :
    (statics : List SubscriptionConfig) (ws : List PointConfig) (points : Dict PointConfig)
    (t : String) (o : SubscribeOptions)
    → Keyed (λ p. p.topic) points
    → lookup t (explicit_from statics ws (point_configs_of points) []) ≡ some o
    → Explains points t o
unfolding lookup
explained statics ws points t o h e = elim (explicit-Explains statics ws points [] t o h e) [
  | inl f ↦ cc f
  | inr x ↦ x
]

-- Two subscriptions of a topic that is not listed as changed.
agree :
    (held before after : Dict PointConfig) (t : String) (o o' : SubscribeOptions)
    → lookup t held ≡ lookup t before
    → has_topic t (changed_in held after) ≡ false
    → Explains before t o
    → Explains after t o'
    → o ≡ o'
agree held before after t o o' h w (p, e, g) (p', e', g') =
    let still =
      subst (λ (x : Option PointConfig). differs x p' ≡ false) (h ∙ e)
        (unchanged held after t p' w e') in
    g ∙ (alike p p' (ground (arith, still)) ∙ sym g')

-- From any index that an application made, to the index of any other set: the calls to the broker that
-- the plan makes leave, for each topic, the subscription of the new index, options included, and no
-- other.
pub plan-converges :
    (statics : List SubscriptionConfig) (revision revision' : String)
    (prior specs : List SubscriptionSpec) (t : String)
    → let current = index_of statics revision prior in
      let next = index_of statics revision' specs in
      let changed = changed_in current.points (desired_from specs []) in
      let plan = plan_subscriptions current next changed in
      lookup t (unsubscribed plan.1 (subscribed plan.0 current.explicit_subs))
      ≡ lookup t next.explicit_subs
unfolding plan_subscriptions new_topic_index
plan-converges statics revision revision' prior specs t =
    let current = index_of statics revision prior in
    let next = index_of statics revision' specs in
    let before = desired_from prior [] in
    let after = desired_from specs [] in
    let changed = changed_in current.points after in
    let keyed = desired-Keyed prior [] tt in
    let keyed' = desired-Keyed specs [] tt in
    unsubscribed-plan next.explicit_subs current.explicit_subs _ t
    ∙ (ap
          (λ (o : Option SubscribeOptions).
            if is_some (lookup t current.explicit_subs)
              && not (is_some (lookup t next.explicit_subs))
            then none
            else o)
          (subscribed-plan current.explicit_subs changed next.explicit_subs current.explicit_subs t
            (explicit-Keyed statics (wildcards_of (point_configs_of after)) (point_configs_of after)
              [] tt))
        ∙ settle (is_some (lookup t current.explicit_subs)) (has_topic t changed)
            (lookup t current.explicit_subs) (lookup t next.explicit_subs) refl
            (λ o o' w e e'.
              agree current.points before after t o o' (points_by_topic-lookup before t keyed) w
                (explained statics (wildcards_of (point_configs_of before)) before t o keyed e)
                (explained statics (wildcards_of (point_configs_of after)) after t o' keyed' e')))
