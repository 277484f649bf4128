-- ===== src/MqttSync/Derived.antt =====
-- internal/mqttsync/derive.go: which subscriptions a point list asks for.
use nexus_gateway.Prelude.{
  ℕ, String, true, false, List, [], ◌∷◌, eq_iff, ◌≡◌, ◌≢◌, ◌⊎◌, arith, refl, All, Bool-cases, inl,
  inr,
}
use nexus_gateway.PointList.{Entry}
use nexus_gateway.MqttSync.{SubscriptionSpec, skips, spec_of, derive}

-- An entry of the list that the subscription is for.
abbrev pub Stems : String → SubscriptionSpec → List Entry → Type 0
Stems connector_id s [] = ⊥
Stems connector_id s (e ∷ es) =
    ((s.topic ≡ e.local_id)
      × (e.protocol ≡ "mqtt")
      × (e.connector_id ≡ connector_id)
      × (e.local_id ≢ "")
      × (e.release_of ≡ "")
      × (s.writable ≡ e.writable))
    ⊎ Stems connector_id s es

-- Commands go to the topic of a writable point, and to no other.
abbrev pub Commands : SubscriptionSpec → Type 0
Commands s =
    ((s.writable ≡ true) × (s.command_topic ≡ s.topic))
    ⊎ ((s.writable ≡ false) × (s.command_topic ≡ ""))

All-Stems :
    (connector_id : String) (e : Entry) (es : List Entry) (l : List SubscriptionSpec)
    → All (λ s. Stems connector_id s es × Commands s) l
    → All (λ s. Stems connector_id s (e ∷ es) × Commands s) l
All-Stems connector_id e es [] h = tt
All-Stems connector_id e es (s ∷ l) h = ((inr h.0.0, h.0.1), All-Stems connector_id e es l h.1)

spec_of-Commands : (sub_qos cmd_qos : ℕ) (e : Entry) → Commands (spec_of sub_qos cmd_qos e)
unfolding spec_of
spec_of-Commands sub_qos cmd_qos e = elim (Bool-cases e.writable) [
  | inl w ↦ inl (w, rw w refl)
  | inr w ↦ inr (w, rw w refl)
]

-- Each derived subscription is for an MQTT entry of the list with that connector and an address,
-- never for a release point, and it has a command topic, its own topic, exactly where the point is
-- writable.
pub derive-All :
    (es : List Entry) (connector_id : String) (sub_qos cmd_qos : ℕ)
    → All (λ s. Stems connector_id s es × Commands s) (derive es connector_id sub_qos cmd_qos)
unfolding derive skips spec_of
derive-All [] connector_id sub_qos cmd_qos = tt
derive-All (e ∷ es) connector_id sub_qos cmd_qos =
    let rest =
      All-Stems connector_id e es (derive es connector_id sub_qos cmd_qos)
        (derive-All es connector_id sub_qos cmd_qos) in
    elim (Bool-cases (skips connector_id e)) [
      | inl x ↦ rw x rest
      | inr x ↦
          let (p, c, l, r) : (e.protocol ≡ "mqtt")
              × (e.connector_id ≡ connector_id)
              × (e.local_id ≢ "")
              × (e.release_of ≡ "") =
            ground (
              arith,
              x,
              eq_iff e.protocol "mqtt",
              eq_iff e.connector_id connector_id,
              eq_iff e.local_id "",
              eq_iff e.release_of "",
            ) in
          rw x ((inl (refl, p, c, l, r, refl), spec_of-Commands sub_qos cmd_qos e), rest)
    ]
