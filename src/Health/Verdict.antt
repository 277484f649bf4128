-- ===== src/Health/Verdict.antt =====
-- internal/lifecycle/evaluate.go: when the gateway is reported degraded.
use nexus_gateway.Prelude.{
  ℕ, zero, suc, ◌+◌, ◌*◌, leb, if◌then◌else◌, String, Bool, true, false, not, ◌&&◌, ◌||◌, List, [],
  ◌∷◌, ◌≡◌, refl, ◌∙◌, arith, Bool-cases, inl, inr, ◌==◌,
}
use nexus_gateway.Prelude.Int.{ℤ, pos, negsuc, ◌-ℤ◌, ltb_ℤ, pos_part, neg_part, sub_ℕ, -ℤ_parts}
use nexus_gateway.Health.{
  Status, ok, degraded, ComponentHealth, Thresholds, ConnectorHealth, HealthInputs, Float, seconds,
  eval_nats, eval_point_list, down_of, eval_connectors, overall, eval_uplink, eval_buffer,
  defaulted, components_of, evaluate,
}

-- Every connector runs.
abbrev pub all_running : List ConnectorHealth → Bool
all_running [] = true
all_running (c ∷ cs) = c.running && all_running cs

abbrev pub is_ok : Status → Bool
is_ok ok = true
is_ok degraded = false

abbrev all_ok : List ComponentHealth → Bool
all_ok [] = true
all_ok (c ∷ cs) = is_ok c.status && all_ok cs

is_ok-overall : (l : List ComponentHealth) → is_ok (overall l) ≡ all_ok l
unfolding overall
is_ok-overall [] = refl
is_ok-overall (c ∷ l) = ground (arith, is_ok-overall l)

is_ok-eval_nats : (inp : HealthInputs) → is_ok (eval_nats inp).status ≡ inp.nats_connected
unfolding eval_nats
is_ok-eval_nats inp = ground arith

is_ok-eval_point_list :
    (inp : HealthInputs) → is_ok (eval_point_list inp).status ≡ not (inp.point_count == 0)
unfolding eval_point_list
is_ok-eval_point_list inp = ground arith

abbrev no_ids : List String → Bool
no_ids [] = true
no_ids (i ∷ is) = false

no_ids-down_of : (l : List ConnectorHealth) → no_ids (down_of l) ≡ all_running l
unfolding down_of
no_ids-down_of [] = refl
no_ids-down_of (c ∷ l) = ground (arith, no_ids-down_of l)

is_ok-eval_connectors :
    (inp : HealthInputs) → is_ok (eval_connectors inp).status ≡ all_running inp.connectors
unfolding eval_connectors
is_ok-eval_connectors inp = ground (arith, no_ids-down_of inp.connectors)

-- The count is zero or less.
abbrev pub none_of : ℤ → Bool
none_of (pos zero) = true
none_of (pos (suc n)) = false
none_of (negsuc n) = true

-- Between two instants in seconds lie at most so many nanoseconds: later * 10^9 is at most
-- earlier * 10^9 and the nanoseconds, with the negative parts on the other side.
abbrev pub within : ℤ → ℤ → ℤ → Bool
within nanoseconds earlier later =
    leb (pos_part later * 1000000000 + neg_part earlier * 1000000000 + neg_part nanoseconds)
      (pos_part nanoseconds + pos_part earlier * 1000000000 + neg_part later * 1000000000)

-- A threshold of nanoseconds, or 60 seconds where it is not positive.
abbrev pub or_minute : ℤ → ℤ
or_minute (pos zero) = pos 60000000000
or_minute (pos (suc n)) = pos (suc n)
or_minute (negsuc n) = pos 60000000000

positive_none_of : (n : ℤ) → not (ltb_ℤ (pos 0) n) ≡ none_of n
positive_none_of (pos zero) = ground arith
positive_none_of (pos (suc n)) = ground arith
positive_none_of (negsuc n) = ground arith

or_minute_eq : (n : ℤ) → (if ltb_ℤ (pos 0) n then n else pos 60000000000) ≡ or_minute n
or_minute_eq (pos zero) = ground arith
or_minute_eq (pos (suc n)) = ground arith
or_minute_eq (negsuc n) = ground arith

sub_ℕ_parts : (a b : ℕ) → pos_part (sub_ℕ a b) + b ≡ neg_part (sub_ℕ a b) + a
sub_ℕ_parts a b = ground arith

seconds-within :
    (stale last now : ℤ) → not (ltb_ℤ stale (seconds (now -ℤ last))) ≡ within stale last now
unfolding seconds
seconds-within stale last now =
    let d = now -ℤ last in
    ground
      (arith, -ℤ_parts now last, sub_ℕ_parts (pos_part d * 1000000000) (neg_part d * 1000000000))

module _ {F : Type 0} (float : Float F) (inp : HealthInputs) where
  -- The uplink has no backlog, or its last checkpoint is no longer ago than the threshold.
  abbrev pub uplink_fine : ℤ → Bool
  uplink_fine stale =
      none_of inp.buffer_depth || within (or_minute stale) inp.last_checkpoint_unix inp.now

  -- No write failed, and the buffer, where its capacity is known, is not filled above the fraction,
  -- or above the default one where the fraction is not positive.
  abbrev pub buffer_fine : F → Bool
  buffer_fine frac =
      none_of inp.write_errors
      && (none_of inp.buffer_capacity
          || not (
              float.greater (float.quotient inp.buffer_depth inp.buffer_capacity)
                (if float.at_most frac float.zero_float then float.default_frac else frac)))

module _ {F : Type 0} (float : Float F) (inp : HealthInputs) (cfg : Thresholds F) where
  is_ok-eval_uplink :
      is_ok (eval_uplink float inp (defaulted float cfg)).status
      ≡ uplink_fine float inp cfg.checkpoint_stale
  unfolding eval_uplink defaulted
  is_ok-eval_uplink = ground (
    arith,
    positive_none_of inp.buffer_depth,
    or_minute_eq cfg.checkpoint_stale,
    seconds-within (or_minute cfg.checkpoint_stale) inp.last_checkpoint_unix inp.now,
  )

  is_ok-eval_buffer :
      is_ok (eval_buffer float inp (defaulted float cfg)).status
      ≡ buffer_fine float inp cfg.near_capacity_frac
  unfolding eval_buffer defaulted
  is_ok-eval_buffer =
      ground (arith, positive_none_of inp.write_errors, positive_none_of inp.buffer_capacity)

  components_ok : all_ok (components_of float inp (defaulted float cfg)) ≡ (
      inp.nats_connected
      && (not inp.has_buffer
          || (uplink_fine float inp cfg.checkpoint_stale
              && buffer_fine float inp cfg.near_capacity_frac))
      && (not inp.has_point_list || not (inp.point_count == 0))
      && all_running inp.connectors)
  unfolding components_of
  components_ok =
      let n = is_ok-eval_nats inp in
      let u = is_ok-eval_uplink in
      let b = is_ok-eval_buffer in
      let l = is_ok-eval_point_list inp in
      let c = is_ok-eval_connectors inp in
      elim (Bool-cases inp.has_buffer) [
        | inl e ↦ elim (Bool-cases inp.has_point_list) [
          | inl f ↦ rw (e, f) (rw (n, u, b, l, c) (ground arith))
          | inr f ↦ rw (e, f) (rw (n, u, b, c) (ground arith))
        ]
        | inr e ↦ elim (Bool-cases inp.has_point_list) [
          | inl f ↦ rw (e, f) (rw (n, l, c) (ground arith))
          | inr f ↦ rw (e, f) (rw (n, c) (ground arith))
        ]
      ]

module _ {F : Type 0} (float : Float F) where
  -- The gateway is reported ok exactly when all of this holds: the bus is connected; where there is a
  -- buffer, it has no backlog or (now - last checkpoint) * 10^9 is at most the threshold in
  -- nanoseconds, 60 seconds where that is not positive, no write failed, and, where its capacity is
  -- positive, its fill is not above the threshold's fraction, or the default one where that is not
  -- positive; where there is a point list, it is not empty; and every connector runs.
  pub is_ok-evaluate :
      (inp : HealthInputs) (cfg : Thresholds F)
      → is_ok (evaluate float inp cfg).status ≡ (
          inp.nats_connected
          && (not inp.has_buffer
              || (uplink_fine float inp cfg.checkpoint_stale
                  && buffer_fine float inp cfg.near_capacity_frac))
          && (not inp.has_point_list || not (inp.point_count == 0))
          && all_running inp.connectors)
  unfolding evaluate
  is_ok-evaluate inp cfg =
      is_ok-overall (components_of float inp (defaulted float cfg)) ∙ components_ok float inp cfg
