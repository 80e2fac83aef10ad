-- ===== src/Execute.antt =====
-- src/execution_engine.cpp, the free functions: what each non-memory operation computes. `int32_t`
-- arguments and results are 32-bit patterns; a signed sum or difference that leaves the range, which
-- C++ leaves undefined, is taken to wrap.
pub mod Laws
pub mod Branches
mod Tests
use Prim.Native.Nat.{bit_and, bit_or, bit_xor}
use ooo_superscalar_risc_sim.Common.{
  ℕ, ◌+◌, ◌-◌, ◌*◌, ◌/◌, ◌%◌, ◌^◌, Bool, true, false, not, ◌&&◌, if◌then◌else◌, ltb, ◌==◌,
}
use ooo_superscalar_risc_sim.Common.Int.{ℤ, pos, negsuc, Word}
use ooo_superscalar_risc_sim.Common.Signed.{
  word_mod, signed, pattern_of, ltb_ℤ, mul_ℤ, div_ℤ, rem_ℤ, shift_right_ℤ,
}
use ooo_superscalar_risc_sim.Types.{
  Op, alu_add, alu_sub, alu_sll, alu_slt, alu_sltu, alu_xor, alu_srl, alu_sra, alu_or, alu_and,
  alu_lui, alu_auipc, md_mul, md_mulh, md_mulhsu, md_mulhu, md_div, md_divu, md_rem, md_remu, br_eq,
  br_ne, br_lt, br_ge, br_ltu, br_geu, br_jal, br_jalr,
}

abbrev pub bit : Bool → Word
bit true = 1
bit false = 0

-- `u2 & 0x1F`.
abbrev pub shamt : Word → ℕ
shamt u2 = bit_and u2 31

-- The only signed quotient that does not fit.
abbrev pub overflows : Word → Word → Bool
overflows u1 u2 = u1 == 0x80000000 && u2 == 0xffffffff

unfoldable pub execute_op : Op → Word → Word → Word → ℕ → Word
unfolding mul_ℤ div_ℤ rem_ℤ shift_right_ℤ
execute_op alu_add a b imm pc = (a + b) % word_mod
execute_op alu_sub a b imm pc = (a + word_mod - b) % word_mod
execute_op alu_sll a b imm pc = a * 2 ^ shamt b % word_mod
execute_op alu_slt a b imm pc = bit (ltb_ℤ (signed a) (signed b))
execute_op alu_sltu a b imm pc = bit (ltb a b)
execute_op alu_xor a b imm pc = bit_xor a b
execute_op alu_srl a b imm pc = a / 2 ^ shamt b
execute_op alu_sra a b imm pc = pattern_of (shift_right_ℤ (signed a) (shamt b))
execute_op alu_or a b imm pc = bit_or a b
execute_op alu_and a b imm pc = bit_and a b
execute_op alu_lui a b imm pc = imm
execute_op alu_auipc a b imm pc = (pc + imm) % word_mod
execute_op md_mul a b imm pc = a * b % word_mod
execute_op md_mulh a b imm pc = pattern_of (shift_right_ℤ (mul_ℤ (signed a) (signed b)) 32)
execute_op md_mulhsu a b imm pc = pattern_of (shift_right_ℤ (mul_ℤ (signed a) (pos b)) 32)
execute_op md_mulhu a b imm pc = a * b / 2 ^ 32
execute_op md_div a b imm pc =
    if b == 0
    then 0xffffffff
    else if overflows a b
    then 0x80000000
    else pattern_of (div_ℤ (signed a) (signed b))
execute_op md_divu a b imm pc = if b == 0 then 0xffffffff else a / b
execute_op md_rem a b imm pc =
    if b == 0 then a else if overflows a b then 0 else pattern_of (rem_ℤ (signed a) (signed b))
execute_op md_remu a b imm pc = if b == 0 then a else a % b
execute_op br_eq a b imm pc = bit (a == b)
execute_op br_ne a b imm pc = bit (not (a == b))
execute_op br_lt a b imm pc = bit (ltb_ℤ (signed a) (signed b))
execute_op br_ge a b imm pc = bit (not (ltb_ℤ (signed a) (signed b)))
execute_op br_ltu a b imm pc = bit (ltb a b)
execute_op br_geu a b imm pc = bit (not (ltb a b))
execute_op br_jal a b imm pc = (pc + 4) % word_mod
execute_op br_jalr a b imm pc = (pc + 4) % word_mod
execute_op _ a b imm pc = 0

unfoldable pub branch_taken : Op → Word → Word → Bool
branch_taken br_eq a b = a == b
branch_taken br_ne a b = not (a == b)
branch_taken br_lt a b = ltb_ℤ (signed a) (signed b)
branch_taken br_ge a b = not (ltb_ℤ (signed a) (signed b))
branch_taken br_ltu a b = ltb a b
branch_taken br_geu a b = not (ltb a b)
branch_taken br_jal a b = true
branch_taken br_jalr a b = true
branch_taken _ a b = false

-- `& ~1u`.
unfoldable pub branch_target : Op → ℕ → Word → Word → ℕ
branch_target br_jalr pc a imm = bit_and ((a + imm) % word_mod) 0xfffffffe
branch_target _ pc a imm = (pc + imm) % word_mod
