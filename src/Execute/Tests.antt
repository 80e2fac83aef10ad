-- ===== src/Execute/Tests.antt =====
-- The multiplier, the divider and the branch unit at concrete words.
use ooo_superscalar_risc_sim.Common.{ℕ, ◌+◌, ◌-◌, ◌*◌, ◌%◌, ◌<◌, ◌≡◌, ◌≢◌, arith, not}
use ooo_superscalar_risc_sim.Common.Signed.{word_mod}
use ooo_superscalar_risc_sim.Types.{br, fu_for_op, md_mul, md_mulhu, md_divu, md_remu, br_lt, br_ge}
use ooo_superscalar_risc_sim.Execute.{bit, execute_op, branch_taken}
use ooo_superscalar_risc_sim.Execute.Laws.{mul_halves, divu_remu}
use ooo_superscalar_risc_sim.Execute.Branches.{is_lt, branch_taken_lem}

mul_halves_example :
    (execute_op md_mulhu 0xffffffff 0xfffffffe 0 0 * word_mod
        + execute_op md_mul 0xffffffff 0xfffffffe 0 0
      ≡ 0xffffffff * 0xfffffffe)
    × (execute_op md_mul 0xffffffff 0xfffffffe 0 0 < word_mod)
mul_halves_example = mul_halves 0xffffffff 0xfffffffe 0 0

divu_remu_example :
    let q = execute_op md_divu 17 5 0 0 in
    let r = execute_op md_remu 17 5 0 0 in
    ((q * 5 + r) % word_mod ≡ 17)
    × (◌≢◌ {A = ℕ} 5 0 → (q * 5 + r ≡ 17) × (r < 5))
    × (◌≡◌ {A = ℕ} 5 0 → (q ≡ word_mod - 1) × (r ≡ 17))
divu_remu_example = divu_remu 17 5 0 0 (omega arith)

branch_taken_lem_example :
    (execute_op br_lt 0xffffffff 1 0 0 ≡ bit (branch_taken br_lt 0xffffffff 1))
    × (branch_taken br_ge 0xffffffff 1 ≡ not (branch_taken br_lt 0xffffffff 1))
    × (fu_for_op br_lt ≡ br)
    × (fu_for_op br_ge ≡ br)
branch_taken_lem_example = branch_taken_lem is_lt 0xffffffff 1 0 0
