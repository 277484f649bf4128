-- ===== src/Mqtt/Resolving/Sorted.antt =====
-- connector/mqtt/connector.go: the order in which newTopicIndex puts the wildcard points.
use Prim.Native.String.{compare as compare_text}
use text.Mathlib.Text.{is_lt}
use nexus_gateway.Prelude.{
  ℕ, ◌≤◌, ◌≡◌, ◌⊎◌, inl, inr, subst, Bool, true, false, List, [], ◌∷◌, ltb, ◌==◌, All, All-map,
  arith, Bool-cases, if◌then◌else◌,
}
use nexus_gateway.Mqtt.Index.{PointConfig, literal_levels, precedes, place, sorted}

-- No more literal levels than another point.
abbrev pub AtMost : PointConfig → PointConfig → Type 0
AtMost p q = literal_levels q.topic ≤ literal_levels p.topic

abbrev pub Descends : List PointConfig → Type 0
Descends [] = Unit
Descends (p ∷ ps) = All (AtMost p) ps × Descends ps

All-place :
    (P : PointConfig → Type 0) (p : PointConfig) (ps : List PointConfig)
    → P p
    → All P ps
    → All P (place p ps)
unfolding place
All-place P p [] h hs = (h, tt)
All-place P p (q ∷ qs) h hs = elim (Bool-cases (precedes q p)) [
  | inl e ↦ rw e (hs.0, All-place P p qs h hs.1)
  | inr e ↦ rw e (h, hs)
]

in_order :
    (a b : ℕ) (tie : Bool)
    → ((b ≤ a) × ((if a == b then tie else ltb b a) ≡ true))
      ⊎ ((a ≤ b) × ((if a == b then tie else ltb b a) ≡ false))
in_order a b tie = elim (Bool-cases (if a == b then tie else ltb b a)) [
  | inl e ↦ inl (ground (arith, e), e)
  | inr e ↦ inr (ground (arith, e), e)
]

precedes_cases :
    (q p : PointConfig)
    → (AtMost q p × (precedes q p ≡ true)) ⊎ (AtMost p q × (precedes q p ≡ false))
unfolding precedes
precedes_cases q p =
    in_order (literal_levels q.topic) (literal_levels p.topic)
      (is_lt (compare_text q.topic p.topic))

place-Descends : (p : PointConfig) (ps : List PointConfig) → Descends ps → Descends (place p ps)
unfolding place
place-Descends p [] h = (tt, tt)
place-Descends p (q ∷ qs) h = elim (precedes_cases q p) [
  | inl (a, e) ↦ rw e (All-place (AtMost q) p qs a h.0, place-Descends p qs h.1)
  | inr (a, e) ↦
      rw e ((a, All-map {P = AtMost q} {Q = AtMost p} (λ r b. omega (arith, a, b)) qs h.0), h)
]

pub sorted-Descends : (ps : List PointConfig) → Descends (sorted ps)
unfolding sorted
sorted-Descends [] = tt
sorted-Descends (p ∷ ps) = place-Descends p (sorted ps) (sorted-Descends ps)

placed :
    (P : PointConfig → Type 0) (p : PointConfig) (ps : List PointConfig)
    → All P (place p ps)
    → P p × All P ps
unfolding place
placed P p [] h = h
placed P p (q ∷ qs) h = elim (Bool-cases (precedes q p)) [
  | inl e ↦
      let g : All P (q ∷ place p qs) =
        subst (λ (b : Bool). All P (if b then q ∷ place p qs else p ∷ (q ∷ qs))) e h in
      let (hp, hqs) = placed P p qs g.1 in (hp, (g.0, hqs))
  | inr e ↦ subst (λ (b : Bool). All P (if b then q ∷ place p qs else p ∷ (q ∷ qs))) e h
]

pub unsorted : (P : PointConfig → Type 0) (ps : List PointConfig) → All P (sorted ps) → All P ps
unfolding sorted
unsorted P [] h = tt
unsorted P (p ∷ ps) h = let (hp, hps) = placed P p (sorted ps) h in (hp, unsorted P ps hps)

pub All-sorted : (P : PointConfig → Type 0) (ps : List PointConfig) → All P ps → All P (sorted ps)
unfolding sorted
All-sorted P [] h = tt
All-sorted P (p ∷ ps) h = All-place P p (sorted ps) h.0 (All-sorted P ps h.1)
