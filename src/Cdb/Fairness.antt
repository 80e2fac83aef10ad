-- ===== src/Cdb/Fairness.antt =====
-- Round robin: a lane that is passed over comes nearer to the pointer in every cycle, so that a
-- pending result is broadcast within as many cycles as there are lanes.
use native.Mathlib.Nat.{mod-lt}
use native.Mathlib.Decide.{ℕ_discrete, dec_lt}
use ooo_superscalar_risc_sim.Common.{
  ℕ, zero, suc, ◌+◌, ◌%◌, ◌≤◌, ◌<◌, ◌≡◌, ◌≢◌, ◌∙◌, refl, ap, Bool, true, false, Option, List, [],
  ◌∷◌, arith, length, get_or, set, length-set, get_or-set_self, get_or-set_ne, ◌⊎◌, inl, inr,
}
use ooo_superscalar_risc_sim.Common.Circular.{distance, add_distance, distance-skip}
use ooo_superscalar_risc_sim.Cdb.{find_from, grant_loop}
use ooo_superscalar_risc_sim.Cdb.Loop.{
  open_at, Finds, nothing, at, find_from-Finds, loop_grants, none_open, mark, loop-Outcome,
}

set_keeps :
    (selected : List Bool) (j i : ℕ)
    → get_or selected i false ≡ true
    → get_or (set selected j true) i false ≡ true
set_keeps [] j i h = h
set_keeps (b ∷ bs) zero zero h = refl
set_keeps (b ∷ bs) zero (suc i) h = h
set_keeps (b ∷ bs) (suc j) zero h = h
set_keeps (b ∷ bs) (suc j) (suc i) h = set_keeps bs j i h

-- Once selected, a lane stays selected.
mark_keeps :
    (is : List ℕ) (selected : List Bool) (i : ℕ)
    → get_or selected i false ≡ true
    → get_or (mark selected is) i false ≡ true
mark_keeps [] selected i h = h
mark_keeps (j ∷ is) selected i h = mark_keeps is (set selected j true) i (set_keeps selected j i h)

module _ (req : ℕ → Bool) (n : ℕ) (some_lane : 0 < n) (i : ℕ) (lt : i < n)
    (asks : req i ≡ true) where
  -- The loop takes no lane beyond the waiting one.
  first :
      (selected : List Bool) (rr k : ℕ)
      → rr < n
      → get_or selected i false ≡ false
      → (rr + k) % n ≢ i
      → ((j : ℕ) → 0 ≤ j → j < k → open_at req selected ((rr + j) % n) ≡ false)
      → k < distance n rr i
  first selected rr k in_rr free other before = elim (dec_lt k (distance n rr i)) [
    | yes p ↦ p
    | no p ↦ elim (ℕ_discrete k (distance n rr i)) [
      | yes e ↦ absurd (other (ap (λ t. (rr + t) % n) e ∙ add_distance n rr in_rr i lt))
      | no ne ↦ absurd (
          taken (
            rw (add_distance n rr in_rr i lt) at
              (before (distance n rr i) (omega arith) (omega arith))))
    ]
  ]
    where
      taken : ¬ (open_at req selected i ≡ false)
      taken p = ground (arith, asks, free)

  stays :
      (slots : ℕ) (selected : List Bool) (rr : ℕ)
      → rr < n
      → get_or selected i false ≡ true
      → get_or (grant_loop req n slots selected rr).selected i false ≡ true
  stays slots selected rr in_rr h =
      let o = loop-Outcome req n some_lane slots selected rr in_rr in
      rw o.marked (mark_keeps (grant_loop req n slots selected rr).granted selected i h)

  -- After the loop the lane is served, or it is nearer by at least the number of slots.
  pub closer :
      (slots : ℕ) (selected : List Bool) (rr : ℕ)
      → rr < n
      → length selected ≡ n
      → get_or selected i false ≡ false
      → let g = grant_loop req n slots selected rr in
        (get_or g.selected i false ≡ true) ⊎ (distance n g.rr_ptr i + slots ≤ distance n rr i)
  closer zero selected rr in_rr size free = inr (unfold grant_loop in omega arith)
  closer (suc slots) selected rr in_rr size free =
      go (find_from req selected n rr 0 n) refl (find_from-Finds req n rr selected 0 n)
        (λ idx free'.
          closer slots (set selected idx true) ((idx + 1) % n) (mod-lt (idx + 1) some_lane)
            (length-set selected idx true ∙ size) free')
    where
      go :
          (o : Option ℕ)
          → find_from req selected n rr 0 n ≡ o
          → Finds req n rr selected 0 n o
          → ((idx : ℕ)
              → get_or (set selected idx true) i false ≡ false
              → let g = grant_loop req n slots (set selected idx true) ((idx + 1) % n) in
                (get_or g.selected i false ≡ true)
                ⊎ (distance n g.rr_ptr i + slots ≤ distance n ((idx + 1) % n) i))
          → let g = grant_loop req n (suc slots) selected rr in
            (get_or g.selected i false ≡ true)
            ⊎ (distance n g.rr_ptr i + suc slots ≤ distance n rr i)
      go _ e (nothing h) ih = absurd (closed (none_open req n some_lane selected rr in_rr h i lt))
        where
          closed : ¬ (open_at req selected i ≡ false)
          closed p = ground (arith, asks, free)
      go _ e (at k lo hi found before) ih =
          rw (loop_grants req n some_lane slots selected rr ((rr + k) % n) e)
            (elim (ℕ_discrete ((rr + k) % n) i) [
              | yes same ↦ inl (
                  stays slots (set selected ((rr + k) % n) true) (((rr + k) % n + 1) % n)
                    (mod-lt ((rr + k) % n + 1) some_lane)
                    (rw same (get_or-set_self selected i true false (rw size lt))))
              | no other ↦
                  elim (ih ((rr + k) % n)
                    (get_or-set_ne selected ((rr + k) % n) i true false other ∙ free)) [
                      | inl yes' ↦ inl yes'
                      | inr less ↦ inr (
                          omega (
                            arith,
                            less,
                            distance-skip n rr i k in_rr lt
                                (first selected rr k in_rr free other before),
                          ))
                    ]
            ])
