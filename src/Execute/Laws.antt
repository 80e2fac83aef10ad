-- ===== src/Execute/Laws.antt =====
-- The multiply and divide operations agree with one another.
use native.Mathlib.Decide.{ℕ_discrete}
use ooo_superscalar_risc_sim.Common.{ℕ, ◌+◌, ◌-◌, ◌*◌, ◌%◌, ◌<◌, ◌≡◌, ◌≢◌, refl, arith, ne→==}
use ooo_superscalar_risc_sim.Common.Signed.{word_mod}
use ooo_superscalar_risc_sim.Types.{md_mul, md_mulhu, md_divu, md_remu}
use ooo_superscalar_risc_sim.Execute.{execute_op}

-- MULHU and MUL are the two halves of the 64-bit unsigned product, and MUL fits a word.
pub mul_halves :
    (a b imm pc : ℕ)
    → (execute_op md_mulhu a b imm pc * word_mod + execute_op md_mul a b imm pc ≡ a * b)
      × (execute_op md_mul a b imm pc < word_mod)
unfolding execute_op
mul_halves a b imm pc = (omega arith, omega arith)

-- DIVU and REMU by a nonzero divisor are quotient and remainder; by zero they are all ones and the
-- dividend. In both cases quotient * divisor + remainder wraps to the dividend.
pub divu_remu :
    (a b imm pc : ℕ)
    → a < word_mod
    → let q = execute_op md_divu a b imm pc in
      let r = execute_op md_remu a b imm pc in
      ((q * b + r) % word_mod ≡ a)
      × (b ≢ 0 → (q * b + r ≡ a) × (r < b))
      × (b ≡ 0 → (q ≡ word_mod - 1) × (r ≡ a))
unfolding execute_op
divu_remu a b imm pc lt = elim (ℕ_discrete b 0) [
  | yes e ↦ rw e (omega arith, λ h. absurd (h refl), λ _. (omega arith, refl))
  | no ne ↦ rw (ne→== b 0 ne) (omega arith, λ h. (omega arith, omega arith), λ e. absurd (ne e))
]
