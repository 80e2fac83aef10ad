-- ===== src/Decode/Immediates.antt =====
-- The fields and immediates of an instruction word, as the RV32I manual lays them out.
use Prim.Native.Nat.{bit_or}
use ooo_superscalar_risc_sim.Common.{
  ℕ, ◌+◌, ◌-◌, ◌*◌, ◌/◌, ◌%◌, ◌^◌, ◌<◌, ◌≡◌, ◌∙◌, refl, arith, if◌then◌else◌, ltb,
}
use ooo_superscalar_risc_sim.Common.Bits.{and_low_mask, or_disjoint}
use ooo_superscalar_risc_sim.Common.Int.{Word}
use ooo_superscalar_risc_sim.Common.Signed.{word_mod, shift_right_ℤ}
use ooo_superscalar_risc_sim.Decode.{bits, imm_i, imm_s, imm_b, imm_j}

-- A field is the digits from `lo` to `hi`.
pub bits_lem : (inst hi lo : ℕ) → bits inst hi lo ≡ inst / 2 ^ lo % 2 ^ (hi - lo + 1)
unfolding bits
bits_lem inst hi lo = and_low_mask (hi - lo + 1) (inst / 2 ^ lo)

-- The 32-bit pattern of an `n`-bit two's-complement number.
abbrev pub sign_extend : ℕ → ℕ → Word
sign_extend n v = if ltb v (2 ^ (n - 1)) then v else v + word_mod - 2 ^ n

-- The I-type immediate is digits 31 to 20, sign-extended from 12 digits.
pub imm_i_lem : (inst : ℕ) → inst < word_mod → imm_i inst ≡ sign_extend 12 (inst / 2 ^ 20)
unfolding imm_i shift_right_ℤ
imm_i_lem inst lt = ground arith

-- The S-type immediate joins digits 31 to 25 and 11 to 7.
pub imm_s_lem :
    (inst : ℕ)
    → inst < word_mod
    → imm_s inst ≡ sign_extend 12 (inst / 2 ^ 25 * 2 ^ 5 + inst / 2 ^ 7 % 2 ^ 5)
unfolding imm_s shift_right_ℤ
imm_s_lem inst lt =
    let raw : bit_or (bits inst 31 25 * 2 ^ 5) (bits inst 11 7)
        ≡ inst / 2 ^ 25 * 2 ^ 5 + inst / 2 ^ 7 % 2 ^ 5 =
      or_disjoint 5 (bits inst 31 25) (bits inst 11 7) (omega (arith, bits_lem inst 11 7))
      ∙ omega (arith, bits_lem inst 31 25, bits_lem inst 11 7) in
    rw raw (ground arith)

or_join : (k q r s : ℕ) → s ≡ q * 2 ^ k → r < 2 ^ k → bit_or s r ≡ s + r
or_join k q r s e fits = rw e (or_disjoint k q r fits)

-- The B-type immediate: digit 31, digit 7, digits 30 to 25 and 11 to 8, then a zero.
pub imm_b_lem :
    (inst : ℕ)
    → inst < word_mod
    → imm_b inst
      ≡ sign_extend 13 (
          inst / 2 ^ 31 * 2 ^ 12
          + inst / 2 ^ 7 % 2 * 2 ^ 11
          + inst / 2 ^ 25 % 2 ^ 6 * 2 ^ 5
          + inst / 2 ^ 8 % 2 ^ 4 * 2)
unfolding imm_b shift_right_ℤ
imm_b_lem inst lt =
    rw (bits_lem inst 31 31, bits_lem inst 7 7, bits_lem inst 30 25, bits_lem inst 11 8)
      (rw (or_join 12 x (y * 2 ^ 11) (x * 2 ^ 12) refl (omega arith)) (
        rw
          (or_join 11 (x * 2 + y) (z * 2 ^ 5) (x * 2 ^ 12 + y * 2 ^ 11) (omega arith) (omega arith))
          (rw
            (or_join 5 ((x * 2 + y) * 64 + z) (w * 2 ^ 1) (x * 2 ^ 12 + y * 2 ^ 11 + z * 2 ^ 5)
              (omega arith) (omega arith))
            (ground arith))))
  where
    x : ℕ
    x = inst / 2 ^ 31 % 2 ^ 1

    y : ℕ
    y = inst / 2 ^ 7 % 2 ^ 1

    z : ℕ
    z = inst / 2 ^ 25 % 2 ^ 6

    w : ℕ
    w = inst / 2 ^ 8 % 2 ^ 4

-- The J-type immediate: digit 31, digits 19 to 12, digit 20 and digits 30 to 21, then a zero.
pub imm_j_lem :
    (inst : ℕ)
    → inst < word_mod
    → imm_j inst
      ≡ sign_extend 21 (
          inst / 2 ^ 31 * 2 ^ 20
          + inst / 2 ^ 12 % 2 ^ 8 * 2 ^ 12
          + inst / 2 ^ 20 % 2 * 2 ^ 11
          + inst / 2 ^ 21 % 2 ^ 10 * 2)
unfolding imm_j shift_right_ℤ
imm_j_lem inst lt =
    rw (bits_lem inst 31 31, bits_lem inst 19 12, bits_lem inst 20 20, bits_lem inst 30 21)
      (rw (or_join 20 x (y * 2 ^ 12) (x * 2 ^ 20) refl (omega arith)) (
        rw
          (or_join 12 (x * 256 + y) (z * 2 ^ 11) (x * 2 ^ 20 + y * 2 ^ 12) (omega arith)
            (omega arith))
          (rw
            (or_join 11 ((x * 256 + y) * 2 + z) (w * 2 ^ 1) (x * 2 ^ 20 + y * 2 ^ 12 + z * 2 ^ 11)
              (omega arith) (omega arith))
            (ground arith))))
  where
    x : ℕ
    x = inst / 2 ^ 31 % 2 ^ 1

    y : ℕ
    y = inst / 2 ^ 12 % 2 ^ 8

    z : ℕ
    z = inst / 2 ^ 20 % 2 ^ 1

    w : ℕ
    w = inst / 2 ^ 21 % 2 ^ 10
