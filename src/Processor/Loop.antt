-- ===== src/Processor/Loop.antt =====
-- The loop that hands out permissions, for any verdicts and any tags that are apart.
use ooo_superscalar_risc_sim.Common.{
  ℕ, zero, suc, ◌+◌, ◌≤◌, ◌<◌, ◌≡◌, ◌≢◌, ◌∙◌, refl, ap, Bool, true, false, ◌&&◌, ◌||◌, List, [],
  ◌∷◌, arith,
}
use ooo_superscalar_risc_sim.Common.Int.{ℤ, pos, eq_ℤ, eq_ℤ_self}
use ooo_superscalar_risc_sim.Processor.Stores.{Verdict, passes, grants, stops}

-- Every tag is the index of one of `n` slots.
abbrev pub AllIn : ℕ → List ℤ → Type 0
AllIn n [] = Unit
AllIn n (t ∷ tags) = ((i : ℕ) × (t ≡ pos i) × (i < n)) × AllIn n tags

-- Is the tag in the list?
abbrev pub holds : List ℤ → ℤ → Bool
holds [] tag = false
holds (t ∷ tags) tag = eq_ℤ tag t || holds tags tag

-- A test of the `k` places from a place on.
abbrev pub all_from : (ℕ → Bool) → ℕ → ℕ → Bool
all_from f lane zero = true
all_from f lane (suc k) = f lane && all_from f (lane + 1) k

and_false : (b : Bool) → false ≡ (b && false)
and_false true = refl
and_false false = refl

abbrev pub is_grants : Verdict → Bool
is_grants grants = true
is_grants _ = false

abbrev pub goes_on : Verdict → Bool
goes_on stops = false
goes_on _ = true

module _ (V : ℕ → Verdict) (T : ℕ → ℤ) where
  abbrev pub step : Verdict → ℤ → List ℤ → List ℤ
  step passes tag rest = rest
  step grants tag rest = tag ∷ rest
  step stops tag rest = []

  abbrev pub run : ℕ → ℕ → List ℤ
  run lane zero = []
  run lane (suc n) = step (V lane) (T lane) (run (lane + 1) n)

  abbrev Apart : ℤ → ℕ → ℕ → Type 0
  Apart t lane n = (j : ℕ) → j < n → eq_ℤ t (T (lane + j)) ≡ false

  Apart-next : (t : ℤ) (lane n : ℕ) → Apart t lane (suc n) → Apart t (lane + 1) n
  Apart-next t lane n a j lt = ap (λ i. eq_ℤ t (T i)) (omega arith) ∙ a (suc j) (omega arith)

  Apart-here : (t : ℤ) (lane n : ℕ) → Apart t lane (suc n) → eq_ℤ t (T lane) ≡ false
  Apart-here t lane n a = ap (λ i. eq_ℤ t (T i)) (omega arith) ∙ a 0 (omega arith)

  holds-run-Apart : (t : ℤ) (lane n : ℕ) → Apart t lane n → holds (run lane n) t ≡ false
  holds-run-Apart t lane zero a = refl
  holds-run-Apart t lane (suc n) a =
      go (V lane) (holds-run-Apart t (lane + 1) n (Apart-next t lane n a))
    where
      go :
          (v : Verdict)
          → holds (run (lane + 1) n) t ≡ false
          → holds (step v (T lane) (run (lane + 1) n)) t ≡ false
      go passes ih = ih
      go grants ih = rw (Apart-here t lane n a) ih
      go stops ih = refl

  -- The tag of a place is granted if the place is, and the loop gets there.
  pub holds-run :
      (lane k n bound : ℕ)
      → k < n
      → lane + n ≤ bound
      → ((i j : ℕ) → i < bound → j < bound → i ≢ j → eq_ℤ (T i) (T j) ≡ false)
      → holds (run lane n) (T (lane + k))
        ≡ (is_grants (V (lane + k)) && all_from (λ j. goes_on (V j)) lane k)
  holds-run lane k zero bound lt room apart = absurd (omega arith)
  holds-run lane zero (suc n) bound lt room apart =
      let e : lane + 0 ≡ lane = omega arith in rw e (go (V lane))
    where
      absent : holds (run (lane + 1) n) (T lane) ≡ false
      absent = holds-run-Apart (T lane) (lane + 1) n (λ j l.
          apart lane (lane + 1 + j) (omega arith) (omega arith) (λ e. absurd (omega (arith, e))))

      go :
          (v : Verdict)
          → holds (step v (T lane) (run (lane + 1) n)) (T lane) ≡ (is_grants v && true)
      go passes = absent
      go grants = rw (eq_ℤ_self (T lane)) refl
      go stops = refl
  holds-run lane (suc k) (suc n) bound lt room apart =
      let e : lane + suc k ≡ lane + 1 + k = omega arith in
      rw e (go (V lane) (holds-run (lane + 1) k n bound (omega arith) (omega arith) apart))
    where
      ne : eq_ℤ (T (lane + 1 + k)) (T lane) ≡ false
      ne = apart (lane + 1 + k) lane (omega arith) (omega arith) (λ e. absurd (omega (arith, e)))

      go :
          (v : Verdict)
          → holds (run (lane + 1) n) (T (lane + 1 + k))
            ≡ (is_grants (V (lane + 1 + k)) && all_from (λ j. goes_on (V j)) (lane + 1) k)
          → holds (step v (T lane) (run (lane + 1) n)) (T (lane + 1 + k)) ≡ (
              is_grants (V (lane + 1 + k))
              && (goes_on v && all_from (λ j. goes_on (V j)) (lane + 1) k))
      go passes ih = ih
      go grants ih = rw ne ih
      go stops ih = and_false (is_grants (V (lane + 1 + k)))
