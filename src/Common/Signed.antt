-- ===== src/Common/Signed.antt =====
-- A 32-bit pattern as the signed number it stands for, and C++ arithmetic on signed numbers: division
-- truncates towards zero, `>>` rounds down.
use Prim.Native.Nat.{ℕ, zero, suc, ◌-◌, ◌*◌, ◌/◌, ◌%◌, ◌^◌}
use mathlib.Core.Bool.{Bool, true, false}
use ooo_superscalar_risc_sim.Common.Tests.{ltb, if◌then◌else◌}
use ooo_superscalar_risc_sim.Common.Int.{ℤ, pos, negsuc, Word}

abbrev pub word_mod : ℕ
word_mod = 2 ^ 32

abbrev pub signed : Word → ℤ
signed w = if ltb w (2 ^ 31) then pos w else negsuc (word_mod - w - 1)

-- The pattern of a number, by wrapping.
abbrev pub pattern_of : ℤ → Word
pattern_of (pos n) = n % word_mod
pattern_of (negsuc n) = word_mod - 1 - n % word_mod

-- -n.
abbrev pub neg : ℕ → ℤ
neg zero = pos 0
neg (suc n) = negsuc n

abbrev pub ltb_ℤ : ℤ → ℤ → Bool
ltb_ℤ (pos a) (pos b) = ltb a b
ltb_ℤ (pos a) (negsuc b) = false
ltb_ℤ (negsuc a) (pos b) = true
ltb_ℤ (negsuc a) (negsuc b) = ltb b a

unfoldable pub mul_ℤ : ℤ → ℤ → ℤ
mul_ℤ (pos a) (pos b) = pos (a * b)
mul_ℤ (pos a) (negsuc b) = neg (a * suc b)
mul_ℤ (negsuc a) (pos b) = neg (suc a * b)
mul_ℤ (negsuc a) (negsuc b) = pos (suc a * suc b)

unfoldable pub div_ℤ : ℤ → ℤ → ℤ
div_ℤ (pos a) (pos b) = pos (a / b)
div_ℤ (pos a) (negsuc b) = neg (a / suc b)
div_ℤ (negsuc a) (pos b) = neg (suc a / b)
div_ℤ (negsuc a) (negsuc b) = pos (suc a / suc b)

-- The remainder has the sign of the dividend.
unfoldable pub rem_ℤ : ℤ → ℤ → ℤ
rem_ℤ (pos a) (pos b) = pos (a % b)
rem_ℤ (pos a) (negsuc b) = pos (a % suc b)
rem_ℤ (negsuc a) (pos b) = neg (suc a % b)
rem_ℤ (negsuc a) (negsuc b) = neg (suc a % suc b)

unfoldable pub shift_right_ℤ : ℤ → ℕ → ℤ
shift_right_ℤ (pos a) k = pos (a / 2 ^ k)
shift_right_ℤ (negsuc a) k = negsuc (a / 2 ^ k)
