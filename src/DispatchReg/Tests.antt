-- ===== src/DispatchReg/Tests.antt =====
-- A register of three lanes that captures two instructions and hands over the first.
use ooo_superscalar_risc_sim.Common.{
  ℕ, zero, suc, ◌<◌, ◌≡◌, refl, true, false, some, none, List, [], ◌∷◌, arith, ◌==◌, drop, get_or,
  ltb,
}
use ooo_superscalar_risc_sim.Types.{FetchedInstruction, default_instruction}
use ooo_superscalar_risc_sim.DispatchReg.{DispatchReg, accept_prefix, capture, can_capture}
use ooo_superscalar_risc_sim.DispatchReg.Prefix.{Holds, accept_prefix_refines, capture_busy}

abbrev at_pc : ℕ → FetchedInstruction
at_pc pc = record default_instruction { pc = pc }

abbrev bundle : List FetchedInstruction
bundle = at_pc 4 ∷ at_pc 8 ∷ []

abbrev empty_reg : DispatchReg
empty_reg = record {
  width = 3;
  holding = false;
  valid = false ∷ false ∷ false ∷ [];
  slots = at_pc 0 ∷ at_pc 0 ∷ at_pc 0 ∷ [];
}

abbrev full_reg : DispatchReg
full_reg = record {
  width = 3;
  holding = true;
  valid = true ∷ true ∷ false ∷ [];
  slots = at_pc 4 ∷ at_pc 8 ∷ at_pc 0 ∷ [];
}

empty_dense : (i : ℕ) → get_or empty_reg.valid i false ≡ ltb i 0
empty_dense zero = refl
empty_dense (suc zero) = refl
empty_dense (suc (suc zero)) = refl
empty_dense (suc (suc (suc i))) = ground arith

full_dense : (i : ℕ) → get_or full_reg.valid i false ≡ ltb i 2
full_dense zero = refl
full_dense (suc zero) = refl
full_dense (suc (suc zero)) = refl
full_dense (suc (suc (suc i))) = ground arith

full_held :
    (i : ℕ)
    → i < 2
    → get_or full_reg.slots i default_instruction ≡ get_or bundle i default_instruction
full_held zero lt = refl
full_held (suc zero) lt = refl
full_held (suc (suc i)) lt = absurd (omega arith)

empty-Holds : Holds empty_reg []
empty-Holds = record {
  fits = omega arith;
  flags = refl;
  lanes = refl;
  dense = empty_dense;
  held = λ i lt. absurd (omega arith);
  busy = refl;
}

full-Holds : Holds full_reg bundle
full-Holds = record {
  fits = omega arith;
  flags = refl;
  lanes = refl;
  dense = full_dense;
  held = full_held;
  busy = refl;
}

accept_prefix_refines_example :
    (r' : DispatchReg) × (accept_prefix full_reg 1 ≡ some r')
    × Holds r' (drop 1 bundle)
    × (can_capture r' ≡ (2 == 1))
accept_prefix_refines_example = accept_prefix_refines full_reg bundle full-Holds 1 (omega arith)

capture_busy_example : capture full_reg [] ≡ none
capture_busy_example = capture_busy full_reg bundle [] full-Holds (omega arith)
