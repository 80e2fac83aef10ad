-- ===== src/Common/Tally.antt =====
-- Counting the indices of a range that pass a test, and the slots of a circular window.
use native.Mathlib.Nat.{mod-lt}
use native.Mathlib.Decide.{ℕ_discrete}
use Prim.Native.Nat.add
use Prim.Native.Nat.{ℕ, zero, suc, ◌+◌, ◌%◌, ◌≤◌, ◌<◌}
use mathlib.Core.Path.{◌≡◌, refl, sym, ◌∙◌, ap, ap₂}
use mathlib.Core.Logic.{◌≢◌}
use mathlib.Core.Bool.{Bool, true, false}
use native.Mathlib.Omega.{arith}
use ooo_superscalar_risc_sim.Common.Tests.{if◌then◌else◌, ltb}
use ooo_superscalar_risc_sim.Common.Circular.{distance, distance_add, distance_inj}

-- How many of the `n` indices from `i` on pass.
unfoldable pub tally : (ℕ → Bool) → ℕ → ℕ → ℕ
tally f i zero = 0
tally f i (suc n) = (if f i then 1 else 0) + tally f (i + 1) n

pub tally_congr :
    (f g : ℕ → Bool) (i n : ℕ)
    → ((k : ℕ) → i ≤ k → k < i + n → f k ≡ g k)
    → tally f i n ≡ tally g i n
unfolding tally
tally_congr f g i zero e = refl
tally_congr f g i (suc n) e =
    ap₂ ◌+◌ (ap (λ (b : Bool). if b then 1 else 0) (e i (omega arith) (omega arith)))
      (tally_congr f g (i + 1) n (λ k lo hi. e k (omega arith) (omega arith)))

tally_none : (f : ℕ → Bool) (i n : ℕ) → ((k : ℕ) → f k ≡ false) → tally f i n ≡ 0
unfolding tally
tally_none f i zero e = refl
tally_none f i (suc n) e = rw (e i) (omega (arith, tally_none f (i + 1) n e))

-- One index more that passes.
pub tally_one_more :
    (f g : ℕ → Bool) (j i n : ℕ)
    → i ≤ j
    → j < i + n
    → f j ≡ false
    → g j ≡ true
    → ((k : ℕ) → k < i + n → k ≢ j → f k ≡ g k)
    → tally g i n ≡ tally f i n + 1
unfolding tally
tally_one_more f g j i zero lo hi no_f yes_g e = absurd (omega arith)
tally_one_more f g j i (suc n) lo hi no_f yes_g e = elim (ℕ_discrete i j) [
  | yes p ↦
      rw (p, no_f, yes_g)
        (omega (arith, tally_congr f g (j + 1) n (λ k a b. e k (omega arith) (omega arith))))
  | no p ↦ rw (e i (omega arith) p) (
      omega (
        arith,
        tally_one_more f g j (i + 1) n (omega arith) (omega arith) no_f yes_g
            (λ k a. e k (omega arith)),
      ))
]

-- A window of `n` slots has `n` slots.
pub tally-window :
    (cap h n : ℕ) → h < cap → n ≤ cap → tally (λ i. ltb (distance cap h i) n) 0 cap ≡ n
tally-window cap h zero inside fits =
    tally_none (λ i. ltb (distance cap h i) 0) 0 cap (λ k. ground arith)
tally-window cap h (suc n) inside fits =
    tally_one_more (λ i. ltb (distance cap h i) n) (λ i. ltb (distance cap h i) (suc n))
      ((h + n) % cap) 0 cap (omega arith) (rw add.zero (mod-lt (h + n) (omega arith)))
      (rw (distance_add cap h inside n (omega arith)) (ground arith))
      (rw (distance_add cap h inside n (omega arith)) (ground arith))
      (λ k lt ne. ground (arith, far k (omega arith) ne))
    ∙ omega (arith, tally-window cap h n inside (omega arith))
  where
    far : (k : ℕ) → k < cap → k ≢ (h + n) % cap → distance cap h k ≢ n
    far k lt ne e = ne (
        distance_inj cap h inside k ((h + n) % cap) lt (mod-lt (h + n) (omega arith))
          (e ∙ sym (distance_add cap h inside n (omega arith))))
