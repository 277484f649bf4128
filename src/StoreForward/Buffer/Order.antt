-- ===== src/StoreForward/Buffer/Order.antt =====
-- The order of the rows in `frames`, and what eviction does to it.
use nexus_gateway.Prelude.{
  member, ℕ, zero, suc, ◌-◌, ◌≤◌, ◌<◌, ◌≡◌, refl, ap, false, not, List, [], ◌∷◌, ◌++◌, arith,
  length, take, drop, filter, All,
}
use nexus_gateway.StoreForward.Buffer.{Row, seqs, delete_oldest}

module _ {F : Type 0} where
  -- Sequence numbers rise strictly, from above `lo`.
  abbrev pub Ascends : ℕ → List (Row F) → Type 0
  Ascends lo [] = Unit {0}
  Ascends lo (r ∷ rs) = (lo < r.seq) × Ascends r.seq rs

  abbrev pub UpTo : ℕ → List (Row F) → Type 0
  UpTo hi rs = All (λ (r : Row F). r.seq ≤ hi) rs

  pub Ascends-weaken : (lo lo' : ℕ) (rs : List (Row F)) → lo' ≤ lo → Ascends lo rs → Ascends lo' rs
  Ascends-weaken lo lo' [] h a = tt
  Ascends-weaken lo lo' (r ∷ rs) h a = (omega arith, a.1)

  pub UpTo-weaken : (hi hi' : ℕ) (rs : List (Row F)) → hi ≤ hi' → UpTo hi rs → UpTo hi' rs
  UpTo-weaken hi hi' [] h a = tt
  UpTo-weaken hi hi' (r ∷ rs) h a = (omega arith, UpTo-weaken hi hi' rs h a.1)

  pub Ascends-append :
      (lo hi : ℕ) (rs : List (Row F)) (r : Row F)
      → Ascends lo rs
      → UpTo hi rs
      → lo ≤ hi
      → hi < r.seq
      → Ascends lo (rs ++ r ∷ [])
  Ascends-append lo hi [] r a u h k = (omega arith, tt)
  Ascends-append lo hi (x ∷ rs) r a u h k = (a.0, Ascends-append x.seq hi rs r a.1 u.1 u.0 k)

  pub Ascends-drop : (n lo : ℕ) (rs : List (Row F)) → Ascends lo rs → Ascends lo (drop n rs)
  Ascends-drop zero lo rs a = a
  Ascends-drop (suc n) lo [] a = a
  Ascends-drop (suc n) lo (r ∷ rs) a =
      Ascends-weaken r.seq lo (drop n rs) (omega arith) (Ascends-drop n r.seq rs a.1)

  pub UpTo-drop : (n hi : ℕ) (rs : List (Row F)) → UpTo hi rs → UpTo hi (drop n rs)
  UpTo-drop zero hi rs u = u
  UpTo-drop (suc n) hi [] u = u
  UpTo-drop (suc n) hi (r ∷ rs) u = UpTo-drop n hi rs u.1

  -- A row above the bound of an ascending list is not among its first `n` keys.
  member_below :
      (s lo n : ℕ) (rs : List (Row F))
      → s ≤ lo
      → Ascends lo rs
      → member s (take n (seqs rs)) ≡ false
  member_below s lo zero rs h a = refl
  member_below s lo (suc n) [] h a = refl
  member_below s lo (suc n) (r ∷ rs) h a =
      ground (arith, member_below s r.seq n rs (omega arith) a.1)

  -- Keeping what is not among the first `n` keys, or the key `s` below them, is dropping `n` rows.
  keep_rest :
      (s lo : ℕ) (victims : List ℕ) (rs : List (Row F))
      → s ≤ lo
      → Ascends lo rs
      → filter (λ (r : Row F). not (member r.seq (s ∷ victims))) rs
        ≡ filter (λ (r : Row F). not (member r.seq victims)) rs
  keep_rest s lo victims [] h a = refl
  keep_rest s lo victims (r ∷ rs) h a =
      ground (arith, keep_rest s r.seq victims rs (omega arith) a.1)

  keep_all : (rs : List (Row F)) → filter (λ (r : Row F). not (member r.seq [])) rs ≡ rs
  keep_all [] = refl
  keep_all (r ∷ rs) = ap (◌∷◌ r) (keep_all rs)

  pub filter-drop :
      (n lo : ℕ) (rs : List (Row F))
      → Ascends lo rs
      → filter (λ (r : Row F). not (member r.seq (take n (seqs rs)))) rs ≡ drop n rs
  filter-drop zero lo rs a = keep_all rs
  filter-drop (suc n) lo [] a = refl
  filter-drop (suc n) lo (r ∷ rs) a = ground (
    arith,
    keep_rest r.seq r.seq (take n (seqs rs)) rs (omega arith) a.1,
    filter-drop n r.seq rs a.1,
  )

  -- DELETE removes exactly the oldest rows beyond the capacity, and keeps the others in order.
  pub delete_oldest-drop :
      (cap lo : ℕ) (rs : List (Row F))
      → Ascends lo rs
      → delete_oldest cap rs ≡ drop (length rs - cap) rs
  unfolding delete_oldest
  delete_oldest-drop cap lo rs a = filter-drop (length rs - cap) lo rs a
