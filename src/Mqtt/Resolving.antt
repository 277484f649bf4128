-- ===== src/Mqtt/Resolving.antt =====
-- connector/mqtt/connector.go: which point governs a received topic.
mod Sorted
use mathlib.Core.List.{Mem, mem-cons_self, mem-cons_of_mem}
use nexus_gateway.Prelude.{
  ℕ, ◌≤◌, ◌≡◌, ◌⊎◌, inl, inr, refl, subst, String, Bool, true, false, Option, none, some, List, [],
  ◌∷◌, ltb, ◌==◌, str_eq, ◌&&◌, All, All-map, arith, Bool-cases, if◌then◌else◌,
}
use nexus_gateway.Prelude.Dict.{Dict, lookup, insert, lookup-insert}
use nexus_gateway.Mqtt.Topics.{filter_matches, has_wildcard}
use nexus_gateway.Mqtt.Index.{
  PointConfig, SubscriptionConfig, new_topic_index, literal_levels, precedes, place, sorted,
  covering, wildcards_of, points_by_topic, resolve_topic, resolve_among,
}
use nexus_gateway.Mqtt.Resolving.Sorted.{AtMost, Descends, All-sorted, sorted-Descends, unsorted}

-- The last point of the list with a topic.
abbrev pub last_point : String → List PointConfig → Option PointConfig → Option PointConfig
last_point topic [] o = o
last_point topic (p ∷ ps) o = last_point topic ps (if str_eq p.topic topic then some p else o)

lookup-points_by_topic :
    (topic : String) (ps : List PointConfig) (m : Dict PointConfig)
    → lookup topic (points_by_topic ps m) ≡ last_point topic ps (lookup topic m)
unfolding points_by_topic
lookup-points_by_topic topic [] m = refl
lookup-points_by_topic topic (p ∷ ps) m =
    rw (lookup-points_by_topic topic ps (insert p.topic p m), lookup-insert p.topic topic p m) refl

-- The point covers the topic: it has a wildcard, and its filter matches.
abbrev pub covers : String → PointConfig → Bool
covers topic q = has_wildcard q.topic && filter_matches q.topic topic

-- A point that covers the topic has no more literal levels.
abbrev pub Best : String → PointConfig → PointConfig → Type 0
Best topic p q = (covers topic q ≡ false) ⊎ (literal_levels q.topic ≤ literal_levels p.topic)

abbrev IsWild : PointConfig → Type 0
IsWild q = has_wildcard q.topic ≡ true

wildcards_of-IsWild : (ps : List PointConfig) → All IsWild (wildcards_of ps)
unfolding wildcards_of
wildcards_of-IsWild [] = tt
wildcards_of-IsWild (p ∷ ps) = elim (Bool-cases (has_wildcard p.topic)) [
  | inl e ↦ rw e (e, wildcards_of-IsWild ps)
  | inr e ↦ rw e (wildcards_of-IsWild ps)
]

-- What holds for the wildcard points and for each point without a wildcard holds for all.
from_wildcards :
    (P : PointConfig → Type 0) (ps : List PointConfig)
    → ((q : PointConfig) → has_wildcard q.topic ≡ false → P q)
    → All P (wildcards_of ps)
    → All P ps
unfolding wildcards_of
from_wildcards P [] plain h = tt
from_wildcards P (p ∷ ps) plain h = elim (Bool-cases (has_wildcard p.topic)) [
  | inl e ↦
      let g : All P (p ∷ wildcards_of ps) =
        subst (λ (b : Bool). All P (if b then p ∷ wildcards_of ps else wildcards_of ps)) e h in
      (g.0, from_wildcards P ps plain g.1)
  | inr e ↦
      let g : All P (wildcards_of ps) =
        subst (λ (b : Bool). All P (if b then p ∷ wildcards_of ps else wildcards_of ps)) e h in
      (plain p e, from_wildcards P ps plain g)
]

-- How a topic is resolved: by a point of its own; else by a wildcard point of the list that covers it, where no
-- wildcard point that covers it has more literal levels; else by none, and none covers it.
unfoldable pub Governed :
    List PointConfig → String → Option PointConfig → Option (PointConfig × Bool) → Type 0
Governed ps topic own none = (own ≡ none) × All (λ q. covers topic q ≡ false) ps
Governed ps topic own (some (p, true)) = own ≡ some p
Governed ps topic own (some (p, false)) =
    (own ≡ none) × (Mem p ps × ((covers topic p ≡ true) × All (Best topic p) ps))

unfoldable pub Chosen : List PointConfig → List PointConfig → String → Option PointConfig → Type 0
Chosen ps ws topic none = All (λ q. covers topic q ≡ false) ws
Chosen ps ws topic (some p) = Mem p ps × ((covers topic p ≡ true) × All (Best topic p) ws)

first_fails :
    (ps : List PointConfig) (w : PointConfig) (ws : List PointConfig) (topic : String)
    (o : Option PointConfig)
    → filter_matches w.topic topic ≡ false
    → Chosen ps ws topic o
    → Chosen ps (w ∷ ws) topic o
unfolding Chosen
first_fails ps w ws topic none e h = (ground (arith, e), h)
first_fails ps w ws topic (some p) e h = (h.0, (h.1.0, (inl (ground (arith, e)), h.1.1)))

covering-Chosen :
    (ps ws : List PointConfig) (topic : String)
    → All (λ q. Mem q ps) ws
    → All IsWild ws
    → Descends ws
    → Chosen ps ws topic (covering topic ws)
unfolding covering Chosen
covering-Chosen ps [] topic mem wild d = tt
covering-Chosen ps (w ∷ ws) topic mem wild d = elim (Bool-cases (filter_matches w.topic topic)) [
  | inl e ↦ rw e (
    mem.0,
    (
      ground (arith, e, wild.0),
      (inr (omega arith), All-map {P = AtMost w} {Q = Best topic w} (λ r b. inr b) ws d.0),
    ),
  )
  | inr e ↦ rw e (
      first_fails ps w ws topic (covering topic ws) e
        (covering-Chosen ps ws topic mem.1 wild.1 d.1))
]

All-Mem : (ps : List PointConfig) → All (λ q. Mem q ps) ps
All-Mem [] = tt
All-Mem (p ∷ ps) = (
  mem-cons_self,
  All-map {P = λ q. Mem q ps} {Q = λ q. Mem q (p ∷ ps)} (λ q m. mem-cons_of_mem p m) ps
      (All-Mem ps),
)

All-wildcards_of :
    (P : PointConfig → Type 0) (ps : List PointConfig) → All P ps → All P (wildcards_of ps)
unfolding wildcards_of
All-wildcards_of P [] h = tt
All-wildcards_of P (p ∷ ps) h = elim (Bool-cases (has_wildcard p.topic)) [
  | inl e ↦ rw e (h.0, All-wildcards_of P ps h.1)
  | inr e ↦ rw e (All-wildcards_of P ps h.1)
]

among-Governed :
    (ps : List PointConfig) (topic : String) (own : Option PointConfig)
    → Governed ps topic own (resolve_among topic own (sorted (wildcards_of ps)))
unfolding Governed Chosen resolve_among
among-Governed ps topic (some p) = refl
among-Governed ps topic none =
    let ws = sorted (wildcards_of ps) in
    fall_back (covering topic ws) (
      covering-Chosen ps ws topic
        (All-sorted (λ q. Mem q ps) (wildcards_of ps)
          (All-wildcards_of (λ q. Mem q ps) ps (All-Mem ps)))
        (All-sorted IsWild (wildcards_of ps) (wildcards_of-IsWild ps))
        (sorted-Descends (wildcards_of ps)))
  where
    everywhere :
        (P : PointConfig → Type 0)
        → ((q : PointConfig) → has_wildcard q.topic ≡ false → P q)
        → All P (sorted (wildcards_of ps))
        → All P ps
    everywhere P plain h = from_wildcards P ps plain (unsorted P (wildcards_of ps) h)

    fall_back :
        (o : Option PointConfig)
        → Chosen ps (sorted (wildcards_of ps)) topic o
        → Governed ps topic none (elim o [ none ↦ none | some w ↦ some (w, false) ])
    fall_back none h = (refl, everywhere (λ q. covers topic q ≡ false) (λ q e. ground (arith, e)) h)
    fall_back (some p) h =
        (refl, (h.0, (h.1.0, everywhere (Best topic p) (λ q e. inl (ground (arith, e))) h.1.1)))

-- A received topic is resolved by the last point of the list that is configured for it; where there
-- is none, by a wildcard point of the list that covers it and has at least as many literal levels as each
-- wildcard point of the list that does; and by none only where no point is configured for it and no
-- wildcard point of the list covers it.
pub resolve_topic-Governed :
    (points : List PointConfig) (statics : List SubscriptionConfig) (revision topic : String)
    → Governed points topic
        (last_point topic points none)
        (resolve_topic (new_topic_index points statics revision) topic)
unfolding resolve_topic new_topic_index lookup
resolve_topic-Governed points statics revision topic =
    subst
      (λ own. Governed points topic own (
        resolve_among topic (lookup topic (points_by_topic points []))
          (sorted (wildcards_of points))))
      (lookup-points_by_topic topic points [])
      (among-Governed points topic (lookup topic (points_by_topic points [])))
