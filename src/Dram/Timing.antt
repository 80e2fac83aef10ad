-- ===== src/Dram/Timing.antt =====
-- The countdown of the requests.
use ooo_superscalar_risc_sim.Common.{
  ℕ, zero, suc, ◌-◌, ◌≡◌, ◌∙◌, refl, sym, ap, ap₂, arith, Bool, true, false, List, [], ◌∷◌, map,
  if◌then◌else◌, if_lem, ltb,
}
use ooo_superscalar_risc_sim.Common.Int.{Word}
use ooo_superscalar_risc_sim.Dram.{Slot, DramSimple, counted, committed, tick_slots, tick}

-- `k` cycles.
abbrev pub ticks : ℕ → DramSimple → List Word → DramSimple × List Word
ticks zero d memory = (d, memory)
ticks (suc k) d memory = let (d', memory') = tick d memory in ticks k d' memory'

-- The request `k` cycles later.
abbrev pub later : ℕ → Slot → Slot
later k s = if s.valid then record s { cycles_left = s.cycles_left - k } else s

slots-tick_slots : (ss : List Slot) (memory : List Word) → (tick_slots ss memory).0 ≡ map counted ss
unfolding tick_slots
slots-tick_slots [] memory = refl
slots-tick_slots (s ∷ ss) memory =
    ap (λ t. counted s ∷ t) (slots-tick_slots ss (committed (counted s) memory))

later-counted : (k : ℕ) (s : Slot) → later k (counted s) ≡ later (suc k) s
later-counted k s = go s.valid refl (ltb 0 s.cycles_left) refl
  where
    go :
        (v : Bool)
        → s.valid ≡ v
        → (p : Bool) → ltb 0 s.cycles_left ≡ p
        → later k (counted s) ≡ later (suc k) s
    go true h true p =
        simp (h, p)
          (ap (λ n. record s { valid = true; cycles_left = n }) {x = s.cycles_left - 1 - k}
            {y = s.cycles_left - suc k} (omega arith))
    go true h false p =
        simp (h, p)
          (ap (λ n. record s { valid = true; cycles_left = n }) {x = s.cycles_left - k}
            {y = s.cycles_left - suc k} (ground arith))
    go false h p e = simp h refl

later_zero : (s : Slot) → later 0 s ≡ s
later_zero s =
    if_lem (λ (t : Slot). t ≡ s) s.valid
      (ap (λ n. record s { cycles_left = n }) {x = s.cycles_left - 0} {y = s.cycles_left}
        (omega arith))
      refl

map-later : (k : ℕ) (ss : List Slot) → map (later k) (map counted ss) ≡ map (later (suc k)) ss
map-later k [] = refl
map-later k (s ∷ ss) = ap₂ ◌∷◌ (later-counted k s) (map-later k ss)

map-later_zero : (ss : List Slot) → ss ≡ map (later 0) ss
map-later_zero [] = refl
map-later_zero (s ∷ ss) = ap₂ ◌∷◌ (sym (later_zero s)) (map-later_zero ss)

-- In `k` cycles the countdown of every request falls by `k`, and stops at zero; nothing else of a
-- request changes, and none comes or goes. So a request that is taken with the latency as its countdown
-- ends after exactly that many cycles.
pub slots-ticks :
    (k : ℕ) (d : DramSimple) (memory : List Word)
    → (ticks k d memory).0.slots ≡ map (later k) d.slots
unfolding tick
slots-ticks zero d memory = map-later_zero d.slots
slots-ticks (suc k) d memory =
    slots-ticks k (tick d memory).0 (tick d memory).1
    ∙ ap (map (later k)) (slots-tick_slots d.slots memory)
    ∙ map-later k d.slots
