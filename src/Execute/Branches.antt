-- ===== src/Execute/Branches.antt =====
-- Branch directions and targets.
use Prim.Native.Nat.{bit_and}
use ooo_superscalar_risc_sim.Common.{
  ℕ, ◌+◌, ◌-◌, ◌/◌, ◌%◌, ◌<◌, ◌≡◌, ◌≢◌, refl, arith, Bool, true, false, not, ◌==◌,
}
use ooo_superscalar_risc_sim.Common.Bits.{and_digit, and_low_mask}
use ooo_superscalar_risc_sim.Common.Signed.{word_mod}
use ooo_superscalar_risc_sim.Types.{
  Op, br, fu_for_op, br_eq, br_ne, br_lt, br_ge, br_ltu, br_geu, br_jalr,
}
use ooo_superscalar_risc_sim.Execute.{bit, execute_op, branch_taken, branch_target}

-- The conditional branches.
pub data Conditional : Op → Type 0 where
  is_eq : Conditional br_eq
  is_ne : Conditional br_ne
  is_lt : Conditional br_lt
  is_ge : Conditional br_ge
  is_ltu : Conditional br_ltu
  is_geu : Conditional br_geu

-- The branch that is taken exactly when this one is not.
abbrev pub opposite : {op : Op} → Conditional op → Op
opposite is_eq = br_ne
opposite is_ne = br_eq
opposite is_lt = br_ge
opposite is_ge = br_lt
opposite is_ltu = br_geu
opposite is_geu = br_ltu

not-not : (b : Bool) → b ≡ not (not b)
not-not true = refl
not-not false = refl

-- For every conditional branch the unit's result bit is the direction, and its opposite goes the
-- other way; both belong to the branch unit.
pub branch_taken_lem :
    {op : Op} (c : Conditional op) (a b imm pc : ℕ)
    → (execute_op op a b imm pc ≡ bit (branch_taken op a b))
      × (branch_taken (opposite c) a b ≡ not (branch_taken op a b))
      × (fu_for_op op ≡ br)
      × (fu_for_op (opposite c) ≡ br)
unfolding execute_op branch_taken fu_for_op
branch_taken_lem is_eq a b imm pc = (refl, refl, refl, refl)
branch_taken_lem is_ne a b imm pc = (refl, not-not (a == b), refl, refl)
branch_taken_lem is_lt a b imm pc = (refl, refl, refl, refl)
branch_taken_lem is_ge a b imm pc = (refl, not-not (branch_taken br_lt a b), refl, refl)
branch_taken_lem is_ltu a b imm pc = (refl, refl, refl, refl)
branch_taken_lem is_geu a b imm pc = (refl, not-not (branch_taken br_ltu a b), refl, refl)

clear_low : (x : ℕ) → x < word_mod → bit_and x 0xfffffffe ≡ x - x % 2
clear_low x lt = omega (arith, and_digit x 0xfffffffe, and_low_mask 31 (x / 2))

relative :
    (op : Op) (pc a imm : ℕ) → op ≢ br_jalr → branch_target op pc a imm ≡ (pc + imm) % word_mod
unfolding branch_target
relative br_jalr pc a imm ne = absurd (ne refl)
relative _ pc a imm ne = refl

-- A JALR target is the sum of base and offset with its lowest bit cleared, so it is even; every other
-- target is relative to the program counter.
pub branch_target_lem :
    (op : Op) (pc a imm : ℕ)
    → (branch_target br_jalr pc a imm + (a + imm) % 2 ≡ (a + imm) % word_mod)
      × (branch_target br_jalr pc a imm % 2 ≡ 0)
      × (op ≢ br_jalr → branch_target op pc a imm ≡ (pc + imm) % word_mod)
unfolding branch_target
branch_target_lem op pc a imm =
    let e : bit_and ((a + imm) % word_mod) 0xfffffffe
        ≡ (a + imm) % word_mod - (a + imm) % word_mod % 2 =
      clear_low ((a + imm) % word_mod) (omega arith) in
    (omega (arith, e), omega (arith, e), relative op pc a imm)
