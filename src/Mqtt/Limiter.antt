-- ===== src/Mqtt/Limiter.antt =====
-- connector/mqtt/connector.go: the limiter of topics that only a wildcard point covers. Instants and
-- durations are integers of nanoseconds; a difference of instants does not saturate here.
use nexus_gateway.Prelude.{
  ℕ, suc, ◌≤◌, ◌<◌, inl, inr, String, Bool, true, false, Option, none, some, List, [], ◌∷◌, length,
  leb, ◌==◌, str_eq, arith, Bool-cases, if◌then◌else◌,
}
use nexus_gateway.Prelude.Int.{ℤ, pos, negsuc, ◌-ℤ◌, ltb_ℤ}
use nexus_gateway.Prelude.Dict.{Dict, lookup, insert}

-- wildcardMinInterval
unfoldable pub wildcard_min_interval : ℤ → ℤ
wildcard_min_interval (pos n) = if n == 0 then pos 10000000000 else pos n
wildcard_min_interval (negsuc n) = pos 0

-- maxWildcardTracked
abbrev pub max_wildcard_tracked : ℕ
max_wildcard_tracked = 65536

-- The loop that deletes the old entries.
unfoldable pub prune : ℤ → ℤ → Dict ℤ → Dict ℤ
prune gap now [] = []
prune gap now ((t, last) ∷ m) =
    let rest = prune gap now m in if ltb_ℤ (now -ℤ last) gap then (t, last) ∷ rest else rest

-- Room for one more topic: the old entries go, and if that is not enough all do.
unfoldable pub make_room : ℤ → ℤ → Dict ℤ → Dict ℤ
unfolding prune
make_room gap now m =
    if leb max_wildcard_tracked (length m)
    then (let left = prune gap now m in if leb max_wildcard_tracked (length left) then [] else left)
    else m

abbrev pub too_soon : ℤ → ℤ → Option ℤ → Bool
too_soon gap now none = false
too_soon gap now (some last) = ltb_ℤ (now -ℤ last) gap

abbrev pub is_off : ℤ → Bool
is_off (pos n) = n == 0
is_off (negsuc n) = false

-- allowWildcard
unfoldable pub allow_wildcard : ℤ → String → ℤ → Dict ℤ → Dict ℤ × Bool
unfolding wildcard_min_interval make_room
allow_wildcard configured topic now m =
    let gap = wildcard_min_interval configured in
    if is_off gap
    then (m, true)
    else (if too_soon gap now (lookup topic m)
        then (m, false)
        else (insert topic now (make_room gap now m), true))

-- The table after the messages that were received, each with its topic and instant.
unfoldable pub allow_all : ℤ → List (String × ℤ) → Dict ℤ → Dict ℤ
unfolding allow_wildcard
allow_all configured [] m = m
allow_all configured ((topic, now) ∷ ms) m =
    allow_all configured ms (allow_wildcard configured topic now m).0

length-insert :
    (topic : String) (now : ℤ) (m : Dict ℤ) → length (insert topic now m) ≤ suc (length m)
unfolding insert
length-insert topic now [] = omega arith
length-insert topic now ((t, last) ∷ m) = elim (Bool-cases (str_eq t topic)) [
  | inl e ↦ rw e (omega arith)
  | inr e ↦ rw e (omega (arith, length-insert topic now m))
]

make_room_bound : (gap now : ℤ) (m : Dict ℤ) → length (make_room gap now m) < max_wildcard_tracked
unfolding make_room
make_room_bound gap now m = elim (Bool-cases (leb max_wildcard_tracked (length m))) [
  | inr e ↦ rw e (ground (arith, e))
  | inl e ↦ elim (Bool-cases (leb max_wildcard_tracked (length (prune gap now m)))) [
    | inl f ↦ rw (e, f) (omega arith)
    | inr f ↦ rw (e, f) (ground (arith, f))
  ]
]

allow_wildcard_bound :
    (configured : ℤ) (topic : String) (now : ℤ) (m : Dict ℤ)
    → length m ≤ max_wildcard_tracked
    → length (allow_wildcard configured topic now m).0 ≤ max_wildcard_tracked
unfolding allow_wildcard
allow_wildcard_bound configured topic now m h =
    let gap = wildcard_min_interval configured in
    elim (Bool-cases (is_off gap)) [
      | inl e ↦ rw e h
      | inr e ↦ elim (Bool-cases (too_soon gap now (lookup topic m))) [
        | inl f ↦ rw (e, f) h
        | inr f ↦
            rw (e, f)
              (omega
                (arith, length-insert topic now (make_room gap now m), make_room_bound gap now m))
      ]
    ]

bounded_from :
    (configured : ℤ) (ms : List (String × ℤ)) (m : Dict ℤ)
    → length m ≤ max_wildcard_tracked
    → length (allow_all configured ms m) ≤ max_wildcard_tracked
unfolding allow_all
bounded_from configured [] m h = h
bounded_from configured ((topic, now) ∷ ms) m h =
    bounded_from configured ms (allow_wildcard configured topic now m).0
      (allow_wildcard_bound configured topic now m h)

-- Whatever topics arrive, in whatever number and at whatever instants, the limiter never tracks more
-- than its maximum of them.
pub allow_all_bounded :
    (configured : ℤ) (ms : List (String × ℤ))
    → length (allow_all configured ms []) ≤ max_wildcard_tracked
allow_all_bounded configured ms = bounded_from configured ms [] (omega arith)
