-- ===== src/Mqtt/Matching.antt =====
-- connector/mqtt/topicmatch.go: the matching of MQTT, as a relation, and that the loop decides it.
use nexus_gateway.Prelude.{
  ◌≡◌, ◌≢◌, ◌⊎◌, ◌↔◌, inl, inr, refl, sym, subst, String, true, false, not, ◌&&◌, List, [], ◌∷◌,
  str_eq, eq_iff, arith, Bool-cases,
}
use nexus_gateway.Mqtt.Topics.{split, is_empty, is_dollar, levels_match, filter_matches}

-- A filter's levels cover a topic's: the wildcard # covers all that is left and stands last, the
-- wildcard + covers one level, another level covers itself.
pub data Covers : List String → List String → Type 0 where
  ends : Covers [] []
  rest : (f : String) (ts : List String) → f ≡ "#" → Covers (f ∷ []) ts
  one : (f t : String) (fs ts : List String) → f ≡ "+" → Covers fs ts → Covers (f ∷ fs) (t ∷ ts)
  same :
      (f t : String) (fs ts : List String)
      → f ≢ "#"
      → f ≡ t
      → Covers fs ts
      → Covers (f ∷ fs) (t ∷ ts)

hash_ne_plus : (f : String) → f ≡ "+" → str_eq f "#" ≡ false
hash_ne_plus f h = subst (λ (s : String). str_eq s "#" ≡ false) (sym h) refl

complete : (fs ts : List String) → Covers fs ts → levels_match fs ts ≡ true
unfolding levels_match
complete _ _ ends = refl
complete _ [] (rest f _ h) = ground (arith, h, eq_iff f "#")
complete _ (t ∷ ts) (rest f _ h) = ground (arith, h, eq_iff f "#")
complete _ _ (one f t fs ts h r) =
    ground (arith, hash_ne_plus f h, h, eq_iff f "+", complete fs ts r)
complete _ _ (same f t fs ts n h r) =
    ground (arith, n, h, eq_iff f "#", eq_iff f t, complete fs ts r)

sound : (fs ts : List String) → levels_match fs ts ≡ true → Covers fs ts
unfolding levels_match
sound [] [] h = ends
sound [] (t ∷ ts) h = cc h
sound (f ∷ []) [] h = rest f [] (ground (arith, h, eq_iff f "#"))
sound (f ∷ (g ∷ fs)) [] h = absurd (ground (arith, h))
sound (f ∷ fs) (t ∷ ts) h = elim (Bool-cases (str_eq f "#")) [
  | inl e ↦ last f fs t ts (ground (arith, e, eq_iff f "#")) (ground (arith, e, h))
  | inr e ↦ elim (Bool-cases (str_eq f "+")) [
    | inl p ↦
        one f t fs ts (ground (arith, p, eq_iff f "+")) (sound fs ts (ground (arith, e, p, h)))
    | inr p ↦
        same f t fs ts (ground (arith, e, eq_iff f "#")) (ground (arith, e, p, h, eq_iff f t))
          (sound fs ts (ground (arith, e, p, h)))
  ]
]
  where
    last :
        (f : String) (fs : List String) (t : String) (ts : List String)
        → f ≡ "#"
        → is_empty fs ≡ true
        → Covers (f ∷ fs) (t ∷ ts)
    last f [] t ts h e = rest f (t ∷ ts) h
    last f (g ∷ fs) t ts h e = cc e

-- What MQTT asks of a filter that is not the topic itself: a wildcard in front covers no topic that
-- begins with a dollar sign.
abbrev pub Matches : String → String → Type 0
Matches filter topic =
    (filter ≡ topic)
    ⊎ (((is_dollar (split topic) && not (is_dollar (split filter))) ≡ false)
        × Covers (split filter) (split topic))

matching_found : (filter topic : String) → filter_matches filter topic ≡ true → Matches filter topic
unfolding filter_matches
matching_found filter topic h = elim (Bool-cases (str_eq filter topic)) [
  | inl e ↦ inl (ground (arith, e, eq_iff filter topic))
  | inr e ↦ elim (Bool-cases (is_dollar (split topic) && not (is_dollar (split filter)))) [
    | inl f ↦ absurd (ground (arith, e, f, h))
    | inr f ↦ inr (f, sound (split filter) (split topic) (ground (arith, e, f, h)))
  ]
]

matching_answers :
    (filter topic : String) → Matches filter topic → filter_matches filter topic ≡ true
unfolding filter_matches
matching_answers filter topic (inl h) = ground (arith, h, eq_iff filter topic)
matching_answers filter topic (inr (f, r)) =
    ground (arith, f, complete (split filter) (split topic) r)

-- filterMatches answers true exactly where the filter is the topic, or its levels cover the topic's,
-- but for a topic that begins with a dollar sign and a filter that does not.
pub filter_matches-Matches :
    (filter topic : String) → (filter_matches filter topic ≡ true) ↔ Matches filter topic
filter_matches-Matches filter topic = (matching_found filter topic, matching_answers filter topic)
