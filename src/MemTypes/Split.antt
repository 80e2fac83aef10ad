-- ===== src/MemTypes/Split.antt =====
-- An address splits into its line and its offset, for lines of a power of two bytes.
use Prim.Native.Nat.{bit_and}
use native.Mathlib.Nat.{
  pow-suc, one-le-pow, mod-eq_of_lt, suc-add, zero-add, div-lt_iff_lt-mul, div-add-mod', mod-lt,
  suc-mul,
}
use ooo_superscalar_risc_sim.Common.{
  ℕ, zero, suc, ◌+◌, ◌-◌, ◌*◌, ◌/◌, ◌%◌, ◌^◌, ◌≤◌, ◌<◌, ◌≡◌, ap, arith, sym, ◌∙◌,
}
use ooo_superscalar_risc_sim.Common.Bits.{and_digit, and_low_mask}
use ooo_superscalar_risc_sim.MemTypes.{line_align, line_offset}

double_pow : (q k : ℕ) → q * 2 ^ suc k ≡ 2 * (q * 2 ^ k)
double_pow q k = omega (arith, ap (λ (t : ℕ). q * t) (pow-suc 2 k))

-- The high digits of a number, kept by the mask of `n` ones above `k` zeros.
and_high_mask :
    (k n q r : ℕ)
    → q < 2 ^ n
    → r < 2 ^ k
    → bit_and (q * 2 ^ k + r) ((2 ^ n - 1) * 2 ^ k) ≡ q * 2 ^ k
and_high_mask zero n q r hq hr =
    let e : q * 1 + r ≡ q = omega arith in
    let f : (2 ^ n - 1) * 1 ≡ 2 ^ n - 1 = omega arith in
    let g : q % 2 ^ n ≡ q = mod-eq_of_lt hq in rw (e, f) (omega (arith, and_low_mask n q, g))
and_high_mask (suc k) n q r hq hr = ground (
  arith,
  and_digit (q * 2 ^ suc k + r) ((2 ^ n - 1) * 2 ^ suc k),
  double_pow q k,
  double_pow (2 ^ n - 1) k,
  pow-suc 2 k,
  and_high_mask k n q (r / 2) hq (omega (arith, pow-suc 2 k)),
)

pub line_offset_lem : (addr k : ℕ) → line_offset addr (2 ^ k) ≡ addr % 2 ^ k
unfolding line_offset
line_offset_lem addr k = and_low_mask k addr

pow_add : (k n : ℕ) → 2 ^ (k + n) ≡ 2 ^ n * 2 ^ k
pow_add zero n = rw zero-add (omega arith)
pow_add (suc k) n = rw suc-add (omega (arith, pow_add k n, double_pow (2 ^ n) k, pow-suc 2 (k + n)))

quotient-lt : (k n a : ℕ) → a < 2 ^ (k + n) → a / 2 ^ k < 2 ^ n
quotient-lt k n a h =
    (div-lt_iff_lt-mul (omega (arith, one-le-pow k 2))).1 (omega (arith, h, pow_add k n))

minus_one : (a b : ℕ) → 1 ≤ a → (a - 1) * b + b ≡ a * b
minus_one zero b h = absurd (omega arith)
minus_one (suc a) b h = let e : suc a - 1 ≡ a = omega arith in rw (e, suc-mul)

pub line_align_lem :
    (addr k n : ℕ) → k + n ≡ 32 → addr < 2 ^ 32 → line_align addr (2 ^ k) ≡ addr / 2 ^ k * 2 ^ k
unfolding line_align
line_align_lem addr k n e small =
    let whole : 2 ^ n * 2 ^ k ≡ 2 ^ 32 = sym (pow_add k n) ∙ ap (λ (t : ℕ). 2 ^ t) e in
    let mask : 2 ^ 32 - 1 - (2 ^ k - 1) ≡ (2 ^ n - 1) * 2 ^ k =
      ground
        (arith, whole, minus_one (2 ^ n) (2 ^ k) (omega (arith, one-le-pow n 2)), one-le-pow k 2) in
    let fits : addr < 2 ^ (k + n) = rw e small in
    ap (λ t. bit_and t (2 ^ 32 - 1 - (2 ^ k - 1))) (sym (div-add-mod' addr (2 ^ k)))
    ∙ ap (bit_and (addr / 2 ^ k * 2 ^ k + addr % 2 ^ k)) mask
    ∙ and_high_mask k n (addr / 2 ^ k) (addr % 2 ^ k) (quotient-lt k n addr fits)
        (mod-lt addr (omega (arith, one-le-pow k 2)))
