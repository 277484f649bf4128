-- ===== src/StoreForward/Ack.antt =====
-- internal/storeforward/ack.go.
use nexus_gateway.Prelude.{
  ℕ, suc, ◌+◌, ◌≤◌, ◌<◌, ◌≡◌, refl, List, [], ◌∷◌, Option, none, some, arith, length, drop, inl,
  inr, ltb, if◌then◌else◌, String, str_eq, eq_iff, Bool-cases, drop_all, drop-nil, min,
}
use nexus_gateway.Prelude.Int.{ℤ, pos, negsuc, ltb_ℤ, ◌-ℤ◌, pos_part, neg_part}
use nexus_gateway.Prelude.Dict.{Dict, lookup, insert, lookup-insert}

pub record SentFrame : Type 0 where
  pub seq : ℕ
  pub point_id : String

-- The value that `m[k]` has in Go where `k` is missing.
abbrev pub or_zero : Option ℕ → ℕ
or_zero none = 0
or_zero (some n) = n

-- `drifts[sf.PointID]++` over the frames that were not accepted
unfoldable pub count_drifts : List SentFrame → Dict ℕ → Dict ℕ
count_drifts [] m = m
count_drifts (sf ∷ rest) m =
    count_drifts rest (insert sf.point_id (or_zero (lookup sf.point_id m) + 1) m)

-- The seq of the last frame; 0 for no frame.
unfoldable pub last_seq : List SentFrame → ℕ
last_seq [] = 0
last_seq (sf ∷ []) = sf.seq
last_seq (sf ∷ next ∷ rest) = last_seq (next ∷ rest)

-- int64(len(batch)) - accepted: of two values of int64, the first not negative, the difference is
-- never below the least value; past the greatest it wraps round to 2 ^ 64 less.
unfoldable pub wrapping_difference : ℕ → ℤ → ℤ
wrapping_difference n accepted =
    let d = pos n -ℤ accepted in
    if ltb_ℤ d (pos 9223372036854775808) then d else d -ℤ pos 18446744073709551616

unfoldable pub drifts_of : List SentFrame → ℤ → Dict ℕ
unfolding count_drifts wrapping_difference ◌-ℤ◌
drifts_of batch accepted =
    if ltb_ℤ (pos 0) (wrapping_difference (length batch) accepted)
    then count_drifts (drop (pos_part accepted) batch) []
    else []

-- ApplyAck: the new cursor and the drifts; a nil map is the empty one.
unfoldable pub apply_ack : List SentFrame → ℤ → ℕ × Dict ℕ
unfolding drifts_of last_seq
apply_ack [] accepted = (0, [])
apply_ack (sf ∷ rest) accepted = (last_seq (sf ∷ rest), drifts_of (sf ∷ rest) accepted)

-- The sum of the values of a map.
unfoldable pub total : Dict ℕ → ℕ
total [] = 0
total ((k, n) ∷ m) = n + total m

-- One more at a key is one more in the sum.
total-insert :
    (k : String) (m : Dict ℕ) → total (insert k (or_zero (lookup k m) + 1) m) ≡ total m + 1
unfolding total insert lookup
total-insert k [] = omega arith
total-insert k ((j, n) ∷ m) = ground (arith, total-insert k m)

total-count_drifts :
    (l : List SentFrame) (m : Dict ℕ) → total (count_drifts l m) ≡ total m + length l
unfolding count_drifts
total-count_drifts [] m = omega arith
total-count_drifts (sf ∷ rest) m = omega (
  arith,
  total-count_drifts rest (insert sf.point_id (or_zero (lookup sf.point_id m) + 1) m),
  total-insert sf.point_id m,
)

-- How many of the frames come from a point.
unfoldable pub sent_by : String → List SentFrame → ℕ
sent_by k [] = 0
sent_by k (sf ∷ rest) = (if str_eq sf.point_id k then 1 else 0) + sent_by k rest

lookup-count_drifts :
    (k : String) (l : List SentFrame) (m : Dict ℕ)
    → or_zero (lookup k (count_drifts l m)) ≡ or_zero (lookup k m) + sent_by k l
unfolding count_drifts sent_by
lookup-count_drifts k [] m = omega arith
lookup-count_drifts k (sf ∷ rest) m =
    let m' = insert sf.point_id (or_zero (lookup sf.point_id m) + 1) m in
    ground (
      arith,
      lookup-count_drifts k rest m',
      lookup-insert sf.point_id k (or_zero (lookup sf.point_id m) + 1) m,
      eq_iff sf.point_id k,
    )

-- The batch's length and the answered count are values of int64.
abbrev pub AreInt64 : List SentFrame → ℤ → Type 0
AreInt64 batch accepted =
    (length batch < 9223372036854775808)
    × (pos_part accepted < 9223372036854775808)
    × (neg_part accepted ≤ 9223372036854775808)

-- The frames that are recorded as drift: those past the accepted ones, where a negative count is none
-- and a count past the batch is all of it; but no frame where the count is so negative that the
-- number of the frames less the count is not in int64.
abbrev pub unaccepted : List SentFrame → ℤ → List SentFrame
unaccepted batch (pos n) = drop (min n (length batch)) batch
unaccepted batch (negsuc n) = if ltb (length batch + suc n) 9223372036854775808 then batch else []

drifts_of-unaccepted :
    (batch : List SentFrame) (accepted : ℤ)
    → AreInt64 batch accepted
    → drifts_of batch accepted ≡ count_drifts (unaccepted batch accepted) []
unfolding drifts_of wrapping_difference ◌-ℤ◌ count_drifts
drifts_of-unaccepted batch (pos n) h = elim (Bool-cases (ltb n (length batch))) [
  | inl e ↦ ground (arith, e, h)
  | inr e ↦
      let full : min n (length batch) ≡ length batch = ground (arith, e) in
      rw (full, drop_all batch) (ground (arith, e, h))
]
drifts_of-unaccepted [] (negsuc n) h = ground (arith, h)
drifts_of-unaccepted (sf ∷ rest) (negsuc n) h = ground (arith, h)

pub apply_ack-cursor :
    (batch : List SentFrame) (accepted : ℤ) → (apply_ack batch accepted).0 ≡ last_seq batch
unfolding apply_ack last_seq
apply_ack-cursor [] accepted = refl
apply_ack-cursor (sf ∷ rest) accepted = refl

unaccepted-nil : (accepted : ℤ) → unaccepted [] accepted ≡ []
unaccepted-nil (pos n) = drop-nil (min n 0)
unaccepted-nil (negsuc n) = ground arith

apply_ack_drifts :
    (batch : List SentFrame) (accepted : ℤ)
    → AreInt64 batch accepted
    → (apply_ack batch accepted).1 ≡ count_drifts (unaccepted batch accepted) []
unfolding apply_ack
apply_ack_drifts [] accepted h = rw (unaccepted-nil accepted, count_drifts)
apply_ack_drifts (sf ∷ rest) accepted h = drifts_of-unaccepted (sf ∷ rest) accepted h

-- For a batch and a count within int64: the cursor goes to the last frame sent, for each point the
-- drift is the number of its frames that were not accepted, and all drifts together are the frames
-- that were not accepted. A negative count accepts none and one past the batch all of it; but where
-- the count is so negative that the batch's length less the count is past the greatest int64, nothing
-- is recorded as drift.
pub apply_ack-drifts :
    (batch : List SentFrame) (accepted : ℤ)
    → AreInt64 batch accepted
    → let (cursor, drifts) = apply_ack batch accepted in
      (cursor ≡ last_seq batch)
      × ((k : String) → or_zero (lookup k drifts) ≡ sent_by k (unaccepted batch accepted))
      × (total drifts ≡ length (unaccepted batch accepted))
unfolding lookup total
apply_ack-drifts batch accepted h =
    rw (apply_ack-cursor batch accepted, apply_ack_drifts batch accepted h)
      (
        refl,
        λ k. omega (arith, lookup-count_drifts k (unaccepted batch accepted) []),
        omega (arith, total-count_drifts (unaccepted batch accepted) []),
      )
