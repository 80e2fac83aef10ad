-- ===== src/Engine/Tests.antt =====
-- An engine of two adders, one of which is busy at its front, and a two-cycle multiplier.
use ooo_superscalar_risc_sim.Common.{ℕ, ◌≡◌, refl, arith, true, [], ◌∷◌, if◌then◌else◌, ltb, get_or}
use ooo_superscalar_risc_sim.Common.Int.{pos}
use ooo_superscalar_risc_sim.Types.{alu_add, fu_for_op}
use ooo_superscalar_risc_sim.Engine.{
  Stage, no_stage, ExecutionUnit, init_unit, op_stage, issue, output, ExecutionEngine, unit_type,
  issue_instruction,
}
use ooo_superscalar_risc_sim.Engine.Bus.{apply_cdb_and_advance}
use ooo_superscalar_risc_sim.Engine.Delay.{
  Conserved, apply_cdb_and_advance-Conserved, cycles, output-issue,
}
use ooo_superscalar_risc_sim.Engine.Choice.{Dispatched, issue_instruction_refines}

abbrev sum : ℕ → Stage
sum id = op_stage alu_add 3 4 (pos id) 0 0 true

abbrev busy : ExecutionUnit
busy = record { type = "ALU"; latency = 1; pipe = sum 1 ∷ [] }

abbrev engine : ExecutionEngine
engine = record {
  units = busy ∷ init_unit "ALU" (pos 1) ∷ init_unit "MUL" (pos 2) ∷ [];
  lane_ready = true ∷ true ∷ true ∷ [];
}

issue_instruction_refines_example :
    Dispatched
      (unit_type (fu_for_op alu_add))
      (sum 2)
      engine
      (issue_instruction engine alu_add 3 4 (pos 2) 0 0 true)
issue_instruction_refines_example =
    issue_instruction_refines engine alu_add 3 4 (pos 2) 0 0 true (omega arith)

apply_cdb_and_advance-Conserved_example :
    Conserved (0 ∷ []) 0 engine.units (apply_cdb_and_advance engine (0 ∷ [])).units
apply_cdb_and_advance-Conserved_example =
    apply_cdb_and_advance-Conserved engine (0 ∷ []) (omega arith)

output-issue_example :
    output (cycles 1 (issue (sum 5) (init_unit "MUL" (pos 2))).1)
    ≡ (if ltb 2 2 then get_or (init_unit "MUL" (pos 2)).pipe 0 no_stage else sum 5)
output-issue_example =
    output-issue (sum 5) (init_unit "MUL" (pos 2)) 1 (omega arith) refl (omega arith)
