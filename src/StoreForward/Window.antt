-- ===== src/StoreForward/Window.antt =====
-- internal/storeforward/pump.go: `seqWindow`. A bitmap of n / 64 words is a function of the word and
-- the bit; since n is a power of two, `seq & (n - 1)` is the remainder by n. Sequence numbers are
-- uint64 in the source, and no operation here leaves that range: each difference is taken after its
-- comparison.
pub mod Arith
pub mod Refinement
use nexus_gateway.Prelude.{
  ℕ, zero, suc, ◌+◌, ◌-◌, ◌*◌, ◌/◌, ◌%◌, Bool, true, false, ◌&&◌, ◌||◌, ltb, leb, ◌==◌,
  if◌then◌else◌,
}

pub record SeqWindow : Type 0 where
  pub bits : ℕ → ℕ → Bool
  pub n : ℕ
  pub base : ℕ

-- for n < size { n <<= 1 }
unfoldable pub widen : ℕ → ℕ → ℕ → ℕ
widen zero size n = n
widen (suc fuel) size n = let wider = widen fuel size (n * 2) in if ltb n size then wider else n

-- 58 doublings of 64 pass every int.
unfoldable pub new_window : ℕ → SeqWindow
unfolding widen
new_window size = record { bits = λ w b. false; n = widen 58 size 64; base = 0 }

-- bits[i>>6] & (1<<(i&63)) != 0
abbrev pub test : (ℕ → ℕ → Bool) → ℕ → Bool
test bits i = bits (i / 64) (i % 64)

-- bits[i>>6] |= 1<<(i&63), and &^= for `false`
abbrev pub assign : (ℕ → ℕ → Bool) → ℕ → Bool → ℕ → ℕ → Bool
assign bits i v w b = if w == i / 64 && b == i % 64 then v else bits w b

unfoldable pub contains : SeqWindow → ℕ → Bool
contains w seq = if ltb seq w.base || leb w.n (seq - w.base) then false else test w.bits (seq % w.n)

-- for s := base; s < base + k; s++ { clear the bit of s }
unfoldable pub clear_range : ℕ → ℕ → ℕ → (ℕ → ℕ → Bool) → ℕ → ℕ → Bool
clear_range n zero s bits = bits
clear_range n (suc k) s bits = clear_range n k (s + 1) (assign bits (s % n) false)

unfoldable pub slide : ℕ → SeqWindow → SeqWindow
slide new_base w = record w {
  bits =
      if leb w.n (new_base - w.base)
      then (λ i b. false)
      else clear_range w.n (new_base - w.base) w.base w.bits;
  base = new_base;
}

unfoldable pub set_seq : ℕ → SeqWindow → SeqWindow
set_seq seq w = record w { bits = assign w.bits (seq % w.n) true }

unfoldable pub add : SeqWindow → ℕ → SeqWindow
unfolding set_seq
add w seq =
    if ltb seq w.base
    then w
    else set_seq seq (if leb w.n (seq - w.base) then slide (seq - w.n + 1) w else w)
