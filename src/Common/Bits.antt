-- ===== src/Common/Bits.antt =====
-- Laws of `&`, `|` and `^` at every width: a low mask is a remainder, `|` of disjoint fields is a sum,
-- and each operation stays below a power of two.
use Prim.Native.Nat.{
  ℕ, zero, suc, ◌+◌, ◌-◌, ◌*◌, ◌/◌, ◌%◌, ◌^◌, ◌≤◌, ◌<◌, min, max, differ, digits, bitwise, bit_and,
  bit_or, bit_xor, bit_and-bitwise, bit_or-bitwise, bit_xor-bitwise,
}
use native.Mathlib.Nat.{pow-suc, one-le-pow}
use mathlib.Core.Path.{◌≡◌, refl, ap}
use native.Mathlib.Omega.{arith}

-- The recursion on digits does not depend on fuel beyond its first argument.
module _ (rest : ℕ → ℕ) (digit : ℕ → ℕ → ℕ) where
  fuel_agrees : (p q a b : ℕ) → a ≤ p → a ≤ q → digits rest digit p a b ≡ digits rest digit q a b
  fuel_agrees zero zero zero b hp hq = refl
  fuel_agrees zero (suc q) zero b hp hq = refl
  fuel_agrees (suc p) zero zero b hp hq = refl
  fuel_agrees (suc p) (suc q) zero b hp hq = refl
  fuel_agrees zero q (suc a) b hp hq = absurd (omega arith)
  fuel_agrees (suc p) zero (suc a) b hp hq = absurd (omega arith)
  fuel_agrees (suc p) (suc q) (suc a) b hp hq =
      ap (λ t. t * 2 + digit (suc a % 2) (b % 2))
        (fuel_agrees p q (suc a / 2) (b / 2) (omega arith) (omega arith))

  low_digit :
      (a b : ℕ)
      → bitwise rest digit (suc a) b
        ≡ bitwise rest digit (suc a / 2) (b / 2) * 2 + digit (suc a % 2) (b % 2)
  low_digit a b =
      ap (λ t. t * 2 + digit (suc a % 2) (b % 2))
        (fuel_agrees a (suc a / 2) (suc a / 2) (b / 2) (omega arith) (omega arith))

-- One equation for the lowest digit of each operation.
pub and_digit : (a b : ℕ) → bit_and a b ≡ bit_and (a / 2) (b / 2) * 2 + min (a % 2) (b % 2)
and_digit zero b = simp bit_and-bitwise (omega arith)
and_digit (suc a) b = simp bit_and-bitwise (low_digit (λ b. zero) min a b)

pub or_digit : (a b : ℕ) → bit_or a b ≡ bit_or (a / 2) (b / 2) * 2 + max (a % 2) (b % 2)
or_digit zero b = simp bit_or-bitwise (omega arith)
or_digit (suc a) b = simp bit_or-bitwise (low_digit (λ b. b) max a b)

differ-lt : (x y : ℕ) → x < 2 → y < 2 → differ x y < 2
differ-lt zero y hx hy = hy
differ-lt (suc zero) zero hx hy = omega arith
differ-lt (suc zero) (suc zero) hx hy = omega arith
differ-lt (suc zero) (suc (suc y)) hx hy = absurd (omega arith)
differ-lt (suc (suc x)) y hx hy = absurd (omega arith)

-- A digit of `^` is below 2.
xor_digit : (a b : ℕ) → (d : ℕ) × (d < 2) × (bit_xor a b ≡ bit_xor (a / 2) (b / 2) * 2 + d)
xor_digit zero b = (b % 2, omega arith, simp bit_xor-bitwise (omega arith))
xor_digit (suc a) b = (
  differ (suc a % 2) (b % 2),
  differ-lt (suc a % 2) (b % 2) (omega arith) (omega arith),
  simp bit_xor-bitwise (low_digit (λ b. b) differ a b),
)

double_pow : (q k : ℕ) → q * 2 ^ suc k ≡ 2 * (q * 2 ^ k)
double_pow q k = omega (arith, ap (λ (t : ℕ). q * t) (pow-suc 2 k))

and_none : (k a : ℕ) → a ≤ k → bit_and a 0 ≡ 0
and_none k zero h = refl
and_none zero (suc a) h = absurd (omega arith)
and_none (suc k) (suc a) h =
    omega (arith, and_digit (suc a) 0, and_none k (suc a / 2) (omega arith))

or_none : (k a : ℕ) → a ≤ k → bit_or a 0 ≡ a
or_none k zero h = refl
or_none zero (suc a) h = absurd (omega arith)
or_none (suc k) (suc a) h = omega (arith, or_digit (suc a) 0, or_none k (suc a / 2) (omega arith))

split_and : (k q r : ℕ) → r < 2 ^ k → bit_and (q * 2 ^ k + r) (2 ^ k - 1) ≡ r
split_and zero q r fits = rw (and_none (q * 1 + r) (q * 1 + r) (omega arith)) (omega arith)
split_and (suc k) q r fits = ground (
  arith,
  and_digit (q * 2 ^ suc k + r) (2 ^ suc k - 1),
  double_pow q k,
  pow-suc 2 k,
  split_and k q (r / 2) (omega (arith, pow-suc 2 k)),
)

-- `a & (2^k - 1)` is the remainder.
pub and_low_mask : (k a : ℕ) → bit_and a (2 ^ k - 1) ≡ a % 2 ^ k
and_low_mask k a = ground (arith, one-le-pow k 2, split_and k (a / 2 ^ k) (a % 2 ^ k))

-- `(q << k) | r` is a sum if `r` has at most `k` digits.
pub or_disjoint : (k q r : ℕ) → r < 2 ^ k → bit_or (q * 2 ^ k) r ≡ q * 2 ^ k + r
or_disjoint zero q r fits = ground (arith, or_none (q * 1) (q * 1))
or_disjoint (suc k) q r fits = ground (
  arith,
  or_digit (q * 2 ^ suc k) r,
  double_pow q k,
  or_disjoint k q (r / 2) (omega (arith, pow-suc 2 k)),
)

pub xor-lt : (k a b : ℕ) → a < 2 ^ k → b < 2 ^ k → bit_xor a b < 2 ^ k
xor-lt zero a b ha hb =
    let e : a ≡ 0 = omega arith in let f : b ≡ 0 = omega arith in rw (e, f) (omega arith)
xor-lt (suc k) a b ha hb =
    let (d, small, e) = xor_digit a b in
    omega (
      arith,
      e,
      small,
      pow-suc 2 k,
      xor-lt k (a / 2) (b / 2) (omega (arith, pow-suc 2 k)) (omega (arith, pow-suc 2 k)),
    )
