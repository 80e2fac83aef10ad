-- ===== src/Cdb/Liveness.antt =====
-- A pending result is broadcast, whatever the producers offer meanwhile.
use ooo_superscalar_risc_sim.Common.{
  ℕ, ◌<◌, ◌≡◌, ap, Bool, true, false, ◌||◌, none, some, List, [], ◌∷◌, arith, length, get_or, ◌⊎◌,
  inl, inr, Bool-cases, replicate, length-replicate, get_or-replicate,
}
use ooo_superscalar_risc_sim.Common.Circular.{distance}
use ooo_superscalar_risc_sim.Cdb.{
  CdbProducer, CdbArbiter, request, grants, start, granting, latching,
}
use ooo_superscalar_risc_sim.Cdb.Fairness.{closer}
use ooo_superscalar_risc_sim.Cdb.Beats.{
  IsValid, mem, cycle, cycle_lem, next-IsValid, granted_flag, waits, start_lem, start-lt,
}

-- The cycles to come: what the producers offer before and after the grants of each.
abbrev pub Schedule : Type 0
Schedule = List (List CdbProducer × List CdbProducer)

abbrev pub Sized : ℕ → Schedule → Type 0
Sized n [] = Unit {0}
Sized n ((before, after) ∷ cs) = (length before ≡ n) × (length after ≡ n) × Sized n cs

-- Whether some cycle of the schedule grants the lane.
pub served_in : CdbArbiter → ℕ → Schedule → Bool
served_in a i [] = false
served_in a i ((before, after) ∷ cs) = elim (cycle a before after) [
  | none ↦ false
  | some (s, a') ↦ mem s.granted_indices i || served_in a' i cs
]

-- A pending result is broadcast before the schedule ends, if that has more cycles than the lane stands
-- places behind the round-robin pointer; so always within as many cycles as there are lanes.
pub pending-served_in :
    (a : CdbArbiter) (i : ℕ) (cs : Schedule)
    → IsValid a
    → i < a.num_producers
    → get_or a.pending_valid i false ≡ true
    → Sized a.num_producers cs
    → distance a.num_producers a.rr_ptr i < length cs
    → served_in a i cs ≡ true
unfolding served_in
pending-served_in a i [] v lt pending sized near = absurd (omega arith)
pending-served_in a i ((before, after) ∷ cs) v lt pending (s, s', sized) near =
    rw (cycle_lem v before after s s', served_in)
      (decide (Bool-cases (get_or (grants a before).selected i false)) (
        pending-served_in (latching (granting a before) after) i cs
          (next-IsValid v before after s s') lt))
  where
    asks : request a before i ≡ true
    asks = ground (arith, pending)

    decide :
        (get_or (grants a before).selected i false ≡ true)
          ⊎ (get_or (grants a before).selected i false ≡ false)
        → (get_or (latching (granting a before) after).pending_valid i false ≡ true
            → Sized a.num_producers cs
            → distance a.num_producers (grants a before).rr_ptr i < length cs
            → served_in (latching (granting a before) after) i cs ≡ true)
        → (mem (grants a before).granted i || served_in (latching (granting a before) after) i cs)
          ≡ true
    decide (inl chosen) later = ground (arith, granted_flag v before after s s' i chosen)
    decide (inr passed) later = ground (arith, later still sized sooner)
      where
        still : get_or (latching (granting a before) after).pending_valid i false ≡ true
        still = (waits v before after s s' i lt asks passed (λ e. absurd (clash e))).0
          where
            clash : ¬ (get_or a.pending_valid i false ≡ false)
            clash e = cc

        sooner : distance a.num_producers (grants a before).rr_ptr i < length cs
        sooner =
            elim (closer (request a before) a.num_producers v.some_lane i lt asks a.cdb_width
              (replicate a.num_producers false) (start a) (start-lt v before after s s')
              (length-replicate a.num_producers false) (get_or-replicate a.num_producers i false)) [
                | inl yes' ↦ absurd (both yes')
                | inr less ↦ omega (
                  arith,
                  less,
                  v.wide,
                  ap (λ p. distance a.num_producers p i) (start_lem v before after s s'),
                )
              ]
          where
            both : ¬ (get_or (grants a before).selected i false ≡ true)
            both e = cc
