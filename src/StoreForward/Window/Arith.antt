-- ===== src/StoreForward/Window/Arith.antt =====
-- Remainders within one window, and the words of the bitmap.
use nexus_gateway.Prelude.{
  ℕ, zero, suc, ◌+◌, ◌-◌, ◌%◌, ◌≤◌, ◌<◌, ◌≡◌, ◌≢◌, refl, ◌∙◌, Bool, false, ◌==◌, if◌then◌else◌,
  arith, ℕ_discrete,
}
use nexus_gateway.StoreForward.Window.{test, assign, clear_range}

-- Two numbers of one window with one remainder are equal.
pub mod_injective : (n a b : ℕ) → 0 < n → a ≤ b → b < a + n → a % n ≡ b % n → a ≡ b
mod_injective n a b h le lt e = grind arith

pub mod_shift : (n s : ℕ) → 0 < n → n ≤ s → (s - n) % n ≡ s % n
mod_shift n s h le = grind arith

-- An assignment is seen at its own index and nowhere else.
pub test-assign :
    (bits : ℕ → ℕ → Bool) (i j : ℕ) (v : Bool)
    → test (assign bits i v) j ≡ (if j == i then v else test bits j)
test-assign bits i j v = ground arith

pub clear_range_miss :
    (n k b i : ℕ) (bits : ℕ → ℕ → Bool)
    → ((t : ℕ) → b ≤ t → t < b + k → i ≢ t % n)
    → test (clear_range n k b bits) i ≡ test bits i
unfolding clear_range
clear_range_miss n zero b i bits h = refl
clear_range_miss n (suc k) b i bits h =
    clear_range_miss n k (b + 1) i (assign bits (b % n) false)
      (λ t p q. h t (omega arith) (omega arith))
    ∙ (test-assign bits (b % n) i false ∙ ground (arith, h b (omega arith) (omega arith)))

pub clear_range_stays :
    (n k b i : ℕ) (bits : ℕ → ℕ → Bool)
    → test bits i ≡ false
    → test (clear_range n k b bits) i ≡ false
unfolding clear_range
clear_range_stays n zero b i bits h = h
clear_range_stays n (suc k) b i bits h =
    clear_range_stays n k (b + 1) i (assign bits (b % n) false)
      (test-assign bits (b % n) i false ∙ ground arith)

pub clear_range_hit :
    (n k b t : ℕ) (bits : ℕ → ℕ → Bool)
    → b ≤ t
    → t < b + k
    → test (clear_range n k b bits) (t % n) ≡ false
unfolding clear_range
clear_range_hit n zero b t bits p q = absurd (omega arith)
clear_range_hit n (suc k) b t bits p q = elim (ℕ_discrete b t) [
  | yes e ↦
      clear_range_stays n k (b + 1) (t % n) (assign bits (b % n) false)
        (rw e (test-assign bits (t % n) (t % n) false ∙ ground arith))
  | no e ↦ clear_range_hit n k (b + 1) t (assign bits (b % n) false) (omega arith) (omega arith)
]
