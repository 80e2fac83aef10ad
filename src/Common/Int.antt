-- ===== src/Common/Int.antt =====
-- C++ integers. An `int` that only names something (a register, a tag) is a ℤ; an `int` that holds
-- a value of the simulated machine is its 32-bit pattern, a `Word`.
use ooo_superscalar_risc_sim.Common.Tests.{ltb, if◌then◌else◌, ◌==◌, ==_self, ==_iff}
use Prim.Native.Nat.{ℕ, ◌<◌}
use mathlib.Core.Path.{◌≡◌, ap}
use mathlib.Core.Bool.{Bool, true, false}
use mathlib.Core.Option.{Option, none, some}
use native.Mathlib.Omega.{arith}

abbrev pub Word : Type 0
Word = ℕ

-- `negsuc n` is -(n + 1).
pub data ℤ : Type 0 where
  pos : ℕ → ℤ
  negsuc : ℕ → ℤ

-- The slot that an `int` index names in an array of `n`, if `0 <= i && i < n`.
abbrev pub index : ℤ → ℕ → Option ℕ
index (pos i) n = if ltb i n then some i else none
index (negsuc i) n = none

pub index-lt : (r : ℤ) (n : ℕ) {i : ℕ} → index r n ≡ some i → i < n
index-lt r n h = ground arith

abbrev pub eq_ℤ : ℤ → ℤ → Bool
eq_ℤ (pos a) (pos b) = a == b
eq_ℤ (negsuc a) (negsuc b) = a == b
eq_ℤ _ _ = false

pub eq_ℤ_self : (a : ℤ) → eq_ℤ a a ≡ true
eq_ℤ_self (pos a) = ==_self a
eq_ℤ_self (negsuc a) = ==_self a

pub eq_ℤ→≡ : (a b : ℤ) → eq_ℤ a b ≡ true → a ≡ b
eq_ℤ→≡ (pos a) (pos b) h = ap pos ((==_iff a b).0 h)
eq_ℤ→≡ (pos a) (negsuc b) h = cc
eq_ℤ→≡ (negsuc a) (pos b) h = cc
eq_ℤ→≡ (negsuc a) (negsuc b) h = ap negsuc ((==_iff a b).0 h)
