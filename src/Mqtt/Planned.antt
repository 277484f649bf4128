-- ===== src/Mqtt/Planned.antt =====
-- connector/mqtt/connector.go: what the calls of planSubscriptions change, topic by topic.
use nexus_gateway.Prelude.{
  ◌≡◌, inl, inr, refl, sym, ap, subst, ◌∙◌, String, Bool, true, false, not, ◌&&◌, ◌||◌, none, some,
  List, [], ◌∷◌, str_eq, eq_iff, arith, Bool-cases, if◌then◌else◌,
}
use nexus_gateway.Prelude.Dict.{Dict, lookup, insert, erase, lookup-insert, lookup-erase}
use nexus_gateway.Mqtt.Index.{
  PointConfig, SubscribeOptions, subscribe_options_for, subscribe_qos, is_some,
}
use nexus_gateway.Mqtt.Apply.{
  same_point, has_topic, to_subscribe, to_unsubscribe, differs, changed_in,
}

-- The subscriptions of a session after SUBSCRIBE, which replaces one of the same filter, and after
-- UNSUBSCRIBE.
abbrev pub subscribed : List SubscribeOptions → Dict SubscribeOptions → Dict SubscribeOptions
subscribed [] m = m
subscribed (o ∷ os) m = subscribed os (insert o.topic o m)

abbrev pub unsubscribed : List String → Dict SubscribeOptions → Dict SubscribeOptions
unsubscribed [] m = m
unsubscribed (t ∷ ts) m = unsubscribed ts (erase t m)

-- Each key once, and each value's own topic is its key.
module _ {ℓ} {V : Type ℓ} (topic_of : V → String) where
  abbrev pub Keyed : Dict V → Type ℓ
  Keyed [] = Unit
  Keyed ((k, v) ∷ m) = (topic_of v ≡ k) × ((lookup k m ≡ none) × Keyed m)

  insert_fresh :
      (k t : String) (v : V) (m : Dict V)
      → str_eq t k ≡ false
      → lookup k m ≡ none
      → lookup k (insert t v m) ≡ none
  insert_fresh k t v m d a =
      lookup-insert t k v m ∙ (ap (λ (b : Bool). if b then some v else lookup k m) d ∙ a)

  pub insert-Keyed :
      (t : String) (v : V) (m : Dict V) → topic_of v ≡ t → Keyed m → Keyed (insert t v m)
  unfolding insert lookup
  insert-Keyed t v [] e h = (e, (refl, tt))
  insert-Keyed t v ((k, w) ∷ m) e (p, (a, h)) = elim (Bool-cases (str_eq k t)) [
    | inl f ↦
        let same : k ≡ t = ground (arith, f, eq_iff k t) in
        rw f (e, (subst (λ (s : String). lookup s m ≡ none) same a, h))
    | inr f ↦ rw f (
      p,
      (insert_fresh k t v m (ground (arith, f, eq_iff k t, eq_iff t k)) a, insert-Keyed t v m e h),
    )
  ]

-- A subscription that the plan asks for, or the one that there was.
pub subscribed-plan :
    (current : Dict SubscribeOptions) (changed : List String) (next m : Dict SubscribeOptions)
    (t : String)
    → Keyed (λ o. o.topic) next
    → lookup t (subscribed (to_subscribe current changed next) m) ≡ (
        if is_some (lookup t next) && (not (is_some (lookup t current)) || has_topic t changed)
        then lookup t next
        else lookup t m)
unfolding to_subscribe lookup
subscribed-plan current changed [] m t h = refl
subscribed-plan current changed ((k, o) ∷ next) m t (q, (a, h)) =
    let wanted = λ (x : String). not (is_some (lookup x current)) || has_topic x changed in
    let more = subscribed-plan current changed next (insert o.topic o m) t h in
    let less = subscribed-plan current changed next m t h in
    let stored = lookup-insert o.topic t o m in
    elim (Bool-cases (str_eq k t)) [
      | inl s ↦
          let same : k ≡ t = ground (arith, s, eq_iff k t) in
          let gone : lookup t next ≡ none = subst (λ (x : String). lookup x next ≡ none) same a in
          let own : str_eq o.topic t ≡ true = rw q s in
          let as_k : wanted k ≡ wanted t = ap wanted same in
          elim (Bool-cases (wanted k)) [
            | inl w ↦
                let w' : wanted t ≡ true = sym as_k ∙ w in
                rw (w, s, w') (more ∙ rw gone (stored ∙ rw own refl))
            | inr w ↦
                let w' : wanted t ≡ false = sym as_k ∙ w in rw (w, s, w') (less ∙ rw gone refl)
          ]
      | inr s ↦
          let own : str_eq o.topic t ≡ false = rw q s in
          let kept : lookup t (insert o.topic o m) ≡ lookup t m = stored ∙ rw own refl in
          elim (Bool-cases (wanted k)) [
            | inl w ↦ rw (w, s) (more ∙ rw kept refl)
            | inr w ↦ rw (w, s) less
          ]
    ]

-- An unsubscription takes away what the next index lacks.
pub unsubscribed-plan :
    (next current m : Dict SubscribeOptions) (t : String)
    → lookup t (unsubscribed (to_unsubscribe next current) m)
      ≡ (if is_some (lookup t current) && not (is_some (lookup t next)) then none else lookup t m)
unfolding to_unsubscribe lookup
unsubscribed-plan next [] m t = refl
unsubscribed-plan next ((k, o) ∷ current) m t = elim (Bool-cases (is_some (lookup k next))) [
  | inl f ↦ rw f (ground (arith, f, unsubscribed-plan next current m t, eq_iff k t))
  | inr f ↦ rw f (
      ground
        (arith, f, unsubscribed-plan next current (erase k m) t, lookup-erase k t m, eq_iff k t))
]

-- A topic that is not listed as changed has the same point.
pub unchanged :
    (current desired : Dict PointConfig) (t : String) (p : PointConfig)
    → has_topic t (changed_in current desired) ≡ false
    → lookup t desired ≡ some p
    → differs (lookup t current) p ≡ false
unfolding changed_in has_topic lookup
unchanged current [] t p h e = cc e
unchanged current ((k, q) ∷ desired) t p h e = elim (Bool-cases (str_eq k t)) [
  | inl s ↦
      let same : k ≡ t = ground (arith, s, eq_iff k t) in
      let g : some q ≡ some p =
        subst (λ (b : Bool). (if b then some q else lookup t desired) ≡ some p) s e in
      let as_t : differs (lookup k current) q ≡ differs (lookup t current) p = cc (same, g) in
      elim (Bool-cases (differs (lookup k current) q)) [
        | inr d ↦ sym as_t ∙ d
        | inl d ↦ absurd (ground (arith, d, h, s))
      ]
  | inr s ↦
      let g = subst (λ (b : Bool). (if b then some q else lookup t desired) ≡ some p) s e in
      unchanged current desired t p
        (elim (Bool-cases (differs (lookup k current) q)) [
          | inr d ↦ ground (arith, d, h)
          | inl d ↦ ground (arith, d, h, s)
        ])
        g
]

-- Points that do not differ are subscribed to alike.
pub alike :
    (p q : PointConfig) → same_point p q ≡ true → subscribe_options_for p ≡ subscribe_options_for q
unfolding same_point subscribe_options_for subscribe_qos
alike p q h = ground (arith, h, eq_iff p.topic q.topic, eq_iff p.command_topic q.command_topic)
