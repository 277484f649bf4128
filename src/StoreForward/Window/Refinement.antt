-- ===== src/StoreForward/Window/Refinement.antt =====
-- The bitmap window against the list of all sequence numbers that were added.
use nexus_gateway.Prelude.{
  ℕ, zero, suc, ◌+◌, ◌-◌, ◌*◌, ◌%◌, ◌≤◌, ◌<◌, ◌≡◌, refl, sym, ◌∙◌, true, false, ◌&&◌, ltb, leb,
  ◌==◌, arith, List, [], ◌∷◌, member, max, inl, inr, Bool-cases,
}
use nexus_gateway.StoreForward.Window.{
  SeqWindow, test, contains, slide, set_seq, add, new_window, widen,
}
use nexus_gateway.StoreForward.Window.Arith.{
  mod_injective, mod_shift, test-assign, clear_range_miss, clear_range_hit,
}

-- One more than the newest of the numbers, 0 for none.
unfoldable pub bound : List ℕ → ℕ
bound [] = 0
bound (x ∷ xs) = max (suc x) (bound xs)

-- The newest is at the head.
unfoldable pub adds : SeqWindow → List ℕ → SeqWindow
adds w [] = w
adds w (x ∷ xs) = add (adds w xs) x

-- The bits agree with the list inside the window, which ends at the newest number or at n.
pub record Tracks (w : SeqWindow) (xs : List ℕ) : Type 0 where
  pub wide : 0 < w.n
  pub placed : w.base ≡ bound xs - w.n
  pub bits : (s : ℕ) → w.base ≤ s → s < w.base + w.n → test w.bits (s % w.n) ≡ member s xs

member-lt-bound : (s : ℕ) (xs : List ℕ) → member s xs ≡ true → s < bound xs
unfolding bound
member-lt-bound s [] h = cc
member-lt-bound s (x ∷ xs) h = ground (arith, member-lt-bound s xs)

-- Inside one window, equal remainders are equal numbers.
same_index :
    (n base s x : ℕ)
    → 0 < n
    → base ≤ s
    → s < base + n
    → base ≤ x
    → x < base + n
    → (s % n == x % n) ≡ (s == x)
same_index n base s x h a b c d = ground (arith, mod_injective n s x h, mod_injective n x s h)

set_bits :
    (w : SeqWindow) (xs : List ℕ) (x s : ℕ)
    → 0 < w.n
    → w.base ≤ x
    → x < w.base + w.n
    → w.base ≤ s
    → s < w.base + w.n
    → test w.bits (s % w.n) ≡ member s xs
    → test (set_seq x w).bits (s % w.n) ≡ member s (x ∷ xs)
unfolding set_seq
set_bits w xs x s h a b c d e =
    test-assign w.bits (x % w.n) (s % w.n) true
    ∙ rw (same_index w.n w.base s x h c d a b, e) (ground arith)

module _ (w : SeqWindow) (xs : List ℕ) (t : Tracks w xs) where
  -- A number past the window was never added.
  past_window : (s : ℕ) → w.base + w.n ≤ s → member s xs ≡ false
  past_window s h = ground (arith, member-lt-bound s xs, t.placed)

  -- After a slide the window is the next one, for the same list.
  slide_bits :
      (nb s : ℕ)
      → w.base ≤ nb
      → nb ≤ s
      → s < nb + w.n
      → test (slide nb w).bits (s % w.n) ≡ member s xs
  unfolding slide
  slide_bits nb s a b c = elim (Bool-cases (leb w.n (nb - w.base))) [
    | inl e ↦ rw e (sym (past_window s (ground arith)))
    | inr e ↦ rw e (elim (Bool-cases (ltb s (w.base + w.n))) [
      | inl inside ↦
          clear_range_miss w.n (nb - w.base) w.base (s % w.n) w.bits (λ u p q i. absurd (
            omega (arith, sym (mod_injective w.n u s t.wide (omega arith) (ground arith) (sym i)))))
          ∙ t.bits s (omega arith) (ground arith)
      | inr outside ↦
          rw (← mod_shift w.n s t.wide (ground arith)) (
            clear_range_hit w.n (nb - w.base) w.base (s - w.n) w.bits (ground arith) (ground arith))
          ∙ sym (past_window s (ground arith))
    ])
  ]

  -- One more number is one more member, whether it is too old, in the window or past it.
  add-Tracks : (x : ℕ) → Tracks (add w x) (x ∷ xs)
  unfolding add bound
  add-Tracks x = elim (Bool-cases (ltb x w.base)) [
    | inl old ↦ rw old (record {
      wide = t.wide;
      placed = ground (arith, t.placed);
      bits = λ s a b. t.bits s a b ∙ ground arith;
    })
    | inr recent ↦ rw recent (elim (Bool-cases (leb w.n (x - w.base))) [
      | inl past ↦ rw past (
          let nb = x - w.n + 1 in
          unfold slide in
          record {
            wide = t.wide;
            placed = ground (arith, t.placed, t.wide);
            bits = λ s a b.
                set_bits (slide nb w) xs x s t.wide (ground (arith, t.wide))
                  (ground (arith, t.wide)) a b (slide_bits nb s (ground (arith, t.wide)) a b);
          })
      | inr within ↦ rw within (record {
        wide = t.wide;
        placed = ground (arith, t.placed, t.wide);
        bits = λ s a b. set_bits w xs x s t.wide (ground arith) (ground arith) a b (t.bits s a b);
      })
    ])
  ]

adds-Tracks : (w : SeqWindow) (xs : List ℕ) → Tracks w [] → Tracks (adds w xs) xs
unfolding adds
adds-Tracks w [] t = t
adds-Tracks w (x ∷ xs) t = add-Tracks (adds w xs) xs (adds-Tracks w xs t) x

widen_pos : (fuel size n : ℕ) → 0 < n → 0 < widen fuel size n
unfolding widen
widen_pos zero size n h = h
widen_pos (suc fuel) size n h = ground (arith, widen_pos fuel size (n * 2))

new_window-Tracks : (size : ℕ) → Tracks (new_window size) []
unfolding new_window bound
new_window-Tracks size = record {
  wide = widen_pos 58 size 64 (omega arith);
  placed = omega arith;
  bits = λ s a b. refl;
}

contains-Tracks :
    (w : SeqWindow) (xs : List ℕ) (s : ℕ)
    → Tracks w xs
    → contains w s ≡ (leb (bound xs - w.n) s && member s xs)
unfolding contains
contains-Tracks w xs s t = ground (arith, t.placed, t.bits s, past_window w xs t s)

-- After any additions, in any order, the window answers exactly whether a number was added, except
-- that a number n or more below the newest reads as new.
pub contains-adds :
    (size : ℕ) (xs : List ℕ) (s : ℕ)
    → let w = adds (new_window size) xs in contains w s ≡ (leb (bound xs - w.n) s && member s xs)
contains-adds size xs s =
    contains-Tracks (adds (new_window size) xs) xs s
      (adds-Tracks (new_window size) xs (new_window-Tracks size))

add-n : (w : SeqWindow) (x : ℕ) → (add w x).n ≡ w.n
unfolding add slide
add-n w x = ground arith

pub adds-n : (w : SeqWindow) (xs : List ℕ) → (adds w xs).n ≡ w.n
unfolding adds
adds-n w [] = refl
adds-n w (x ∷ xs) = add-n (adds w xs) x ∙ adds-n w xs
