-- ===== src/StoreForward/Buffer/Eviction.antt =====
-- What the two eviction counters of `Write` count.
use nexus_gateway.Prelude.{
  ℕ, zero, suc, ◌+◌, ◌-◌, ◌≤◌, ◌≡◌, refl, List, [], ◌∷◌, arith, length, drop, count_if, leb,
  Bool-cases, inl, inr, min, length-drop,
}
use nexus_gateway.StoreForward.Buffer.{Row, is_acked, is_beyond}
use nexus_gateway.StoreForward.Buffer.Order.{Ascends}

module _ {F : Type 0} (c : ℕ) where
  pub acked_none :
      (lo : ℕ) (rs : List (Row F)) → c ≤ lo → Ascends lo rs → count_if (is_acked c) rs ≡ 0
  acked_none lo [] h a = refl
  acked_none lo (r ∷ rs) h a = ground (arith, acked_none r.seq rs (omega arith) a.1)

  -- Every row is acked or beyond the cursor.
  pub acked_or_beyond :
      (rs : List (Row F)) → count_if (is_acked c) rs + count_if (is_beyond c) rs ≡ length rs
  acked_or_beyond [] = omega arith
  acked_or_beyond (r ∷ rs) = ground (arith, acked_or_beyond rs)

  -- The acked rows are a prefix, so dropping `n` rows drops the smaller of the two prefixes.
  pub acked-drop :
      (n lo : ℕ) (rs : List (Row F))
      → Ascends lo rs
      → count_if (is_acked c) rs
        ≡ count_if (is_acked c) (drop n rs) + min n (count_if (is_acked c) rs)
  acked-drop zero lo rs a = omega arith
  acked-drop (suc n) lo [] a = omega arith
  acked-drop (suc n) lo (r ∷ rs) a = elim (Bool-cases (leb r.seq c)) [
    | inl yes' ↦ ground (arith, acked-drop n r.seq rs a.1)
    | inr no' ↦
        let none_left : count_if (is_acked c) rs ≡ 0 = acked_none r.seq rs (ground arith) a.1 in
        ground (arith, acked-drop n r.seq rs a.1)
  ]

  pub beyond-drop :
      (n lo : ℕ) (rs : List (Row F))
      → Ascends lo rs
      → n ≤ length rs
      → count_if (is_beyond c) rs
        ≡ count_if (is_beyond c) (drop n rs) + (n - min n (count_if (is_acked c) rs))
  beyond-drop n lo rs a h = omega (
    arith,
    acked-drop n lo rs a,
    acked_or_beyond rs,
    acked_or_beyond (drop n rs),
    length-drop n rs,
  )
