-- ===== src/Checkpoints.antt =====
-- src/rat_checkpoints.cpp and include/rat_checkpoints.hpp: a saved alias map for each reorder-buffer
-- tag of an in-flight branch. `none` of `save` is a failed assertion.
pub mod Tracking
mod Tests
use ooo_superscalar_risc_sim.Common.{
  ℕ, zero, suc, Bool, true, false, ◌&&◌, Option, none, some, List, [], ◌∷◌, map, if◌then◌else◌,
  ◌==◌, length, get_or, set, replicate,
}
use ooo_superscalar_risc_sim.Common.Int.{ℤ, index}
use ooo_superscalar_risc_sim.Rat.{RatMap, clear_entry}

pub record RatCheckpoints : Type 0 where
  pub rob_depth : ℕ
  pub num_regs : ℕ
  pub valid : List Bool
  pub maps : List RatMap

pub reset : RatCheckpoints → RatCheckpoints
reset c = record c {
  valid = replicate c.rob_depth false;
  maps = replicate c.rob_depth (replicate c.num_regs none);
}

pub init : ℕ → ℕ → RatCheckpoints
unfolding reset
init rob_depth num_regs =
    reset (record { rob_depth = rob_depth; num_regs = num_regs; valid = []; maps = [] })

pub save : RatCheckpoints → ℤ → RatMap → Option RatCheckpoints
save c rob_tag rat_map = elim (index rob_tag c.rob_depth) [
  | none ↦ none
  | some t ↦
      if length rat_map == c.num_regs
      then some (record c { valid = set c.valid t true; maps = set c.maps t rat_map })
      else none
]

pub restore : RatCheckpoints → ℤ → Option RatMap
restore c rob_tag = elim (index rob_tag c.rob_depth) [
  | none ↦ none
  | some t ↦ if get_or c.valid t false then some (get_or c.maps t []) else none
]

-- The loop of `onCommitClear` over the snapshots: only live ones are touched.
pub clear_maps : ℕ → ℕ → List Bool → List RatMap → List RatMap
clear_maps r id [] ms = ms
clear_maps r id (b ∷ bs) [] = []
clear_maps r id (b ∷ bs) (m ∷ ms) = (if b then clear_entry m r id else m) ∷ clear_maps r id bs ms

-- Register 0 and registers out of range are passed over.
pub on_commit_clear : RatCheckpoints → ℤ → ℕ → RatCheckpoints
on_commit_clear c reg committing = elim (index reg c.num_regs) [
  | none ↦ c
  | some r ↦ if r == 0 then c else record c { maps = clear_maps r committing c.valid c.maps }
]

pub invalidate : RatCheckpoints → ℤ → RatCheckpoints
invalidate c rob_tag = elim (index rob_tag c.rob_depth) [
  | none ↦ c
  | some t ↦ record c { valid = set c.valid t false }
]

pub invalidate_all : RatCheckpoints → RatCheckpoints
invalidate_all c = record c { valid = map (λ _. false) c.valid }
