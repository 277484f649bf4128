-- ===== src/Uplink/Delivery/Pending.antt =====
-- internal/uplink/forwarder.go: the frames beyond the session's cursor, as drain reads them.
use nexus_gateway.Prelude.{
  ℕ, zero, suc, ◌≤◌, ◌<◌, ◌≡◌, refl, ap, subst, ◌∙◌, false, Option, some, List, [], ◌∷◌, ◌++◌,
  length, take, filter, arith, inl, inr, ltb, Bool-cases, Option-cases, length-filter-le,
}
use nexus_gateway.Frame.{TelemetryFrame}
use nexus_gateway.StoreForward.Buffer.{
  Row, Buffer, Codec, is_beyond, decode_row, decode_rows, read_batch, select_beyond,
}
use nexus_gateway.StoreForward.Buffer.Order.{Ascends}

module _ {F : Type 0} where
  -- The seq of the last frame, or `lo` for none.
  abbrev pub last_of : ℕ → List (ℕ × TelemetryFrame F) → ℕ
  last_of lo [] = lo
  last_of lo ((n, f) ∷ l) = last_of n l

  abbrev pub Rising : ℕ → List (ℕ × TelemetryFrame F) → Type 0
  Rising lo [] = Unit {0}
  Rising lo ((n, f) ∷ l) = (lo < n) × Rising n l

  filter_above :
      (n lo : ℕ) (rs : List (Row F)) → n ≤ lo → Ascends lo rs → filter (is_beyond n) rs ≡ rs
  filter_above n lo [] h a = refl
  filter_above n lo (r ∷ rs) h a = ground (arith, filter_above n r.seq rs (omega arith) a.1)

  beyond_self :
      (r : Row F) (rs : List (Row F)) → Ascends r.seq rs → filter (is_beyond r.seq) (r ∷ rs) ≡ rs
  beyond_self r rs a = ground (arith, filter_above r.seq r.seq rs (omega arith) a)

  -- Among ascending rows, those beyond the first one that is selected are the others selected.
  beyond_next :
      (cur lo : ℕ) (rs : List (Row F)) (r : Row F) (rest : List (Row F))
      → Ascends lo rs
      → filter (is_beyond cur) rs ≡ r ∷ rest
      → (filter (is_beyond r.seq) rs ≡ rest) × (cur < r.seq)
  beyond_next cur lo [] r rest a h = cc h
  beyond_next cur lo (x ∷ rs) r rest a h = elim (Bool-cases (ltb cur x.seq)) [
    | inl e ↦
        let all : filter (is_beyond cur) rs ≡ rs = filter_above cur x.seq rs (ground arith) a.1 in
        let h' : x ∷ rs ≡ r ∷ rest = rw (e, all) at h in
        let same : x ≡ r = cc h' in
        let others : rs ≡ rest = cc h' in
        subst (λ (y : Row F). (filter (is_beyond y.seq) (x ∷ rs) ≡ rest) × (cur < y.seq)) same
          (beyond_self x rs a.1 ∙ others, ground arith)
    | inr e ↦
        let h' : filter (is_beyond cur) rs ≡ r ∷ rest = rw e at h in
        let (next, above) = beyond_next cur x.seq rs r rest a.1 h' in ground (arith, next, above)
  ]

module _ {F : Type 0} (c : Codec F) where
  -- Every frame beyond the cursor; `none` where one of them cannot be decoded.
  abbrev pub pending : ℕ → List (Row F) → Option (List (ℕ × TelemetryFrame F))
  pending cur rs = decode_rows c (filter (is_beyond cur) rs)

  decode_row_seq :
      (r : Row F) (n : ℕ) (f : TelemetryFrame F) → decode_row c r ≡ some (n, f) → n ≡ r.seq
  unfolding decode_row
  decode_row_seq r n f h = ground arith

  decode_cons :
      (r : Row F) (rs : List (Row F)) (k : List (ℕ × TelemetryFrame F))
      → decode_rows c (r ∷ rs) ≡ some k
      → (sf : ℕ × TelemetryFrame F) × (l : List (ℕ × TelemetryFrame F)) × (decode_row c r ≡ some sf)
        × (decode_rows c rs ≡ some l)
        × (k ≡ sf ∷ l)
  unfolding decode_rows
  decode_cons r rs k h = elim (Option-cases (decode_row c r)) [
    | inl e ↦ absurd (ground arith)
    | inr (sf, e) ↦ elim (Option-cases (decode_rows c rs)) [
      | inl e' ↦ absurd (ground arith)
      | inr (l, e') ↦ (sf, l, e, e', ground arith)
    ]
  ]

  decode_rows-take :
      (n : ℕ) (rs : List (Row F)) (l : List (ℕ × TelemetryFrame F))
      → decode_rows c rs ≡ some l
      → decode_rows c (take n rs) ≡ some (take n l)
  unfolding decode_rows
  decode_rows-take zero rs l h = refl
  decode_rows-take (suc n) [] l h = let e : [] ≡ l = cc h in rw (← e) refl
  decode_rows-take (suc n) (r ∷ rs) k h =
      let (sf, l, e, e', same) = decode_cons r rs k h in
      let first : decode_rows c (r ∷ take n rs) ≡ some (sf ∷ take n l) =
        rw (e, decode_rows, decode_rows-take n rs l e') refl in
      rw same first

  next_from :
      (cur : ℕ) (rs : List (Row F)) (n : ℕ) (f : TelemetryFrame F) (l : List (ℕ × TelemetryFrame F))
      (k : List (Row F))
      → Ascends 0 rs
      → decode_rows c k ≡ some ((n, f) ∷ l)
      → filter (is_beyond cur) rs ≡ k
      → (pending n rs ≡ some l) × (cur < n)
  unfolding decode_rows
  next_from cur rs n f l [] a h e = cc h
  next_from cur rs n f l (r ∷ k) a h e =
      let (sf, l', e₁, e₂, same) = decode_cons r k ((n, f) ∷ l) h in
      let first : (n, f) ≡ sf = cc same in
      let at : n ≡ r.seq = decode_row_seq r n f (rw first e₁) in
      let others : l ≡ l' = cc same in
      let (next, above) = beyond_next cur 0 rs r k a e in
      (rw (at, next, others) e₂, omega (arith, at, above))

  nil_of : (k : List (Row F)) → decode_rows c k ≡ some [] → length k ≡ 0
  nil_of [] h = refl
  nil_of (r ∷ k) h = let (sf, l, _, _, same) = decode_cons r k [] h in cc same

  -- What is pending beyond the next frame.
  pub pending-next :
      (cur : ℕ) (rs : List (Row F)) (n : ℕ) (f : TelemetryFrame F) (l : List (ℕ × TelemetryFrame F))
      → Ascends 0 rs
      → pending cur rs ≡ some ((n, f) ∷ l)
      → (pending n rs ≡ some l) × (cur < n)
  pending-next cur rs n f l a h = next_from cur rs n f l (filter (is_beyond cur) rs) a h refl

  pub pending-append :
      (cur : ℕ) (rs : List (Row F)) (sent rest : List (ℕ × TelemetryFrame F))
      → Ascends 0 rs
      → pending cur rs ≡ some (sent ++ rest)
      → pending (last_of cur sent) rs ≡ some rest
  pending-append cur rs [] rest a h = h
  pending-append cur rs ((n, f) ∷ sent) rest a h =
      pending-append n rs sent rest a (pending-next cur rs n f (sent ++ rest) a h).0

  pub pending-Rising :
      (cur : ℕ) (rs : List (Row F)) (l : List (ℕ × TelemetryFrame F))
      → Ascends 0 rs
      → pending cur rs ≡ some l
      → Rising cur l
  pending-Rising cur rs [] a h = tt
  pending-Rising cur rs ((n, f) ∷ l) a h =
      let (next, above) = pending-next cur rs n f l a h in (above, pending-Rising n rs l a next)

  pub Rising-take :
      (n lo : ℕ) (l : List (ℕ × TelemetryFrame F)) → Rising lo l → Rising lo (take n l)
  Rising-take zero lo l h = tt
  Rising-take (suc n) lo [] h = tt
  Rising-take (suc n) lo ((m, f) ∷ l) h = (h.0, Rising-take n m l h.1)

  -- What ReadBatch returns is the first part of what is pending.
  pub read_batch-pending :
      (cur limit : ℕ) (b : Buffer F) (l : List (ℕ × TelemetryFrame F))
      → pending cur b.db.rows ≡ some l
      → read_batch c false cur limit b ≡ some (take limit l)
  unfolding read_batch select_beyond
  read_batch-pending cur limit b l h = decode_rows-take limit (filter (is_beyond cur) b.db.rows) l h

  -- An empty backlog.
  pub pending-nil :
      (rs : List (Row F)) (cur : ℕ)
      → pending cur rs ≡ some []
      → length (filter (is_beyond cur) rs) ≡ 0
  pending-nil rs cur h = nil_of (filter (is_beyond cur) rs) h

  length_decoded :
      (k : List (Row F)) (l : List (ℕ × TelemetryFrame F))
      → decode_rows c k ≡ some l
      → length l ≡ length k
  unfolding decode_rows
  length_decoded [] l h = let e : [] ≡ l = cc h in rw (← e) refl
  length_decoded (r ∷ k) l h =
      let (sf, l', _, e, same) = decode_cons r k l h in
      ap length same ∙ ap suc (length_decoded k l' e)

  -- No more frames wait than there are rows.
  pub length-pending :
      (cur : ℕ) (rs : List (Row F)) (l : List (ℕ × TelemetryFrame F))
      → pending cur rs ≡ some l
      → length l ≤ length rs
  length-pending cur rs l h = omega (
    arith,
    length_decoded (filter (is_beyond cur) rs) l h,
    length-filter-le (is_beyond {F = F} cur) rs,
  )
