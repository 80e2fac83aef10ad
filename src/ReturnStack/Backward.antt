-- ===== src/ReturnStack/Backward.antt =====
-- Reading a circular array backwards from an index, as the return stack does, and what a write at
-- the index changes.
use native.Mathlib.Nat.{mod-lt, mod-eq_of_lt}
use native.Mathlib.Decide.{dec_lt, ℕ_discrete}
use ooo_superscalar_risc_sim.Common.{
  ℕ, zero, suc, ◌+◌, ◌-◌, ◌%◌, ◌≤◌, ◌<◌, ◌≡◌, ◌∙◌, refl, sym, ap, ap₂, List, [], ◌∷◌, arith, length,
  take, get_or, set, get_or-set_ne,
}
use ooo_superscalar_risc_sim.Common.Circular.{
  distance, distance-next, distance-next_self, distance_self, mod_high,
}
use ooo_superscalar_risc_sim.ReturnStack.{ReturnAddressStack}

pub record IsValid (s : ReturnAddressStack) : Type 0 where
  pub sized : length s.stack ≡ s.capacity
  pub tos_in : s.tos < s.capacity
  pub fits : s.count ≤ s.capacity

-- One step back from an index, going round.
abbrev pub back : ℕ → ℕ → ℕ
back cap t = (t + cap - 1) % cap

-- The `n` addresses below index `t`, the youngest first.
abbrev pub below_top : List ℕ → ℕ → ℕ → ℕ → List ℕ
below_top stack cap t zero = []
below_top stack cap t (suc n) = get_or stack (back cap t) 0 ∷ below_top stack cap (back cap t) n

abbrev pub contents : ReturnAddressStack → List ℕ
contents s = below_top s.stack s.capacity s.tos s.count

pub back-next : (cap t : ℕ) → t < cap → back cap ((t + 1) % cap) ≡ t
back-next cap t lt = elim (dec_lt (t + 1) cap) [
  | yes p ↦
      rw (mod-eq_of_lt p, mod_high cap (t + 1 + cap - 1) (omega arith) (omega arith)) (omega arith)
  | no p ↦
      rw
        (
          mod_high cap (t + 1) (omega arith) (omega arith),
          mod-eq_of_lt {n = t + 1 - cap + cap - 1} {m = cap} (omega arith),
        )
        (omega arith)
]

pub back_in : (cap t : ℕ) → t < cap → back cap t < cap
back_in cap t lt = mod-lt (t + cap - 1) (omega arith)

next-back : (cap t : ℕ) → t < cap → (back cap t + 1) % cap ≡ t
next-back cap t lt = elim (dec_lt 0 t) [
  | yes p ↦
      rw (mod_high cap (t + cap - 1) (omega arith) (omega arith))
        (let e : t + cap - 1 - cap + 1 ≡ t = omega arith in rw e (mod-eq_of_lt lt))
  | no p ↦
      rw (mod-eq_of_lt {n = t + cap - 1} {m = cap} (omega arith))
        (mod_high cap (t + cap - 1 + 1) (omega arith) (omega arith) ∙ omega arith)
]

-- One step back, the slot `t` is one more place ahead.
distance-back :
    (cap u t : ℕ)
    → u < cap
    → t < cap
    → distance cap u t + 1 < cap
    → distance cap (back cap u) t ≡ distance cap u t + 1
distance-back cap u t lt lt' room = elim (ℕ_discrete t (back cap u)) [
  | yes e ↦ absurd (
      omega (
        arith,
        ap (λ x. distance cap x (back cap u)) (next-back cap u lt),
        distance-next_self cap (back cap u) (back_in cap u lt),
        ap (distance cap u) e,
      ))
  | no ne ↦
      sym (distance-next cap (back cap u) t (back_in cap u lt) lt' ne)
      ∙ ap (λ x. distance cap x t + 1) (next-back cap u lt)
]

-- A write at `t` shows in no slot that is reached before going round to it.
pub below_top-set :
    (stack : List ℕ) (cap t v u n : ℕ)
    → u < cap
    → t < cap
    → distance cap u t + n < cap
    → below_top (set stack t v) cap u n ≡ below_top stack cap u n
below_top-set stack cap t v u zero lt lt' room = refl
below_top-set stack cap t v u (suc n) lt lt' room =
    let ahead : distance cap (back cap u) t ≡ distance cap u t + 1 =
      distance-back cap u t lt lt' (omega arith) in
    ap₂ ◌∷◌
      (get_or-set_ne stack t (back cap u) v 0 (λ e. absurd (
        omega (
          arith,
          ahead,
          ap (distance cap (back cap u)) e,
          distance_self cap (back cap u) (back_in cap u lt),
        ))))
      (below_top-set stack cap t v (back cap u) n (back_in cap u lt) lt' (omega (arith, ahead)))

pub take_fewer :
    (stack : List ℕ) (cap u k n : ℕ)
    → k ≤ n
    → take k (below_top stack cap u n) ≡ below_top stack cap u k
take_fewer stack cap u zero n h = refl
take_fewer stack cap u (suc k) zero h = absurd (omega arith)
take_fewer stack cap u (suc k) (suc n) h =
    ap (λ l. get_or stack (back cap u) 0 ∷ l) (take_fewer stack cap (back cap u) k n (omega arith))

pub take_all :
    (stack : List ℕ) (cap u k n : ℕ)
    → n ≤ k
    → take k (below_top stack cap u n) ≡ below_top stack cap u n
take_all stack cap u zero zero h = refl
take_all stack cap u zero (suc n) h = absurd (omega arith)
take_all stack cap u (suc k) zero h = refl
take_all stack cap u (suc k) (suc n) h =
    ap (λ l. get_or stack (back cap u) 0 ∷ l) (take_all stack cap (back cap u) k n (omega arith))
