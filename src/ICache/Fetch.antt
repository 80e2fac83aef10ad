-- ===== src/ICache/Fetch.antt =====
-- The words that the instruction cache hands to fetch.
use native.Mathlib.Nat.{mod-lt, one-le-pow, pow-suc, div-add-mod'}
use ooo_superscalar_risc_sim.Common.{
  some, tabulate, ℕ, suc, ◌+◌, ◌-◌, ◌*◌, ◌/◌, ◌%◌, ◌^◌, ◌≤◌, ◌<◌, ◌≡◌, ◌∙◌, sym, ap, arith, List,
  length, get_or, length-tabulate, get_or-tabulate,
}
use ooo_superscalar_risc_sim.Common.Int.{Word}
use ooo_superscalar_risc_sim.MemTypes.Split.{line_align_lem}
use ooo_superscalar_risc_sim.MemTypes.{line_align}
use ooo_superscalar_risc_sim.IdealMemory.{ImemResp}
use ooo_superscalar_risc_sim.ICache.State.{ICache}
use ooo_superscalar_risc_sim.ICache.{build_resp, group_size, fetch_word}

group_size_bounds :
    (size width off q : ℕ)
    → size ≡ 4 * q
    → off < size
    → off % 4 ≡ 0
    → 0 < width
    → let g = group_size size width off in
      (0 < g) × (g ≤ width) × (off + 4 * g ≤ size) × (g < width → off + 4 * g ≡ size)
unfolding group_size
group_size_bounds size width off q e h a w =
    (ground arith, ground arith, ground arith, λ less. ground arith)

offset :
    (size k n at : ℕ)
    → size ≡ 2 ^ k
    → k + n ≡ 32
    → at < 2 ^ 32
    → at - line_align at size ≡ at % size
offset size k n at e width small =
    let p : line_align at size ≡ at / size * size =
      ap (line_align at) e ∙ line_align_lem at k n width small ∙ ap (λ t. at / t * t) (sym e) in
    omega (arith, p, div-add-mod' at size)

-- The remainder by a multiple of four keeps the remainder by four.
quarters : (at q size : ℕ) → size ≡ 4 * q → at % 4 ≡ 0 → at % size % 4 ≡ 0
quarters at q size e h = omega (arith, h, e, div-add-mod' at size, ap (λ t. at / size * t) e)

-- For lines of a power of two bytes, at least four, and a program counter that is a multiple of four: no
-- byte is read beyond the end of the line, and the response has at least one word and at most a fetch group, each of them lies wholly in the line, and
-- word `i` is the one at the offset of the program counter plus `4 * i`. Fewer words than a fetch group
-- are given only where the line ends.
pub build_resp_bounds :
    (c : ICache) (k n : ℕ) (at : Word) (line : List ℕ)
    → c.line_bytes ≡ 2 ^ suc (suc k)
    → suc (suc k) + n ≡ 32
    → at < 2 ^ 32
    → at % 4 ≡ 0
    → 0 < c.fetch_width
    → length line ≡ c.line_bytes
    → let off = at % c.line_bytes in
      (r : ImemResp) × (build_resp c at line ≡ some r)
      × (0 < r.count)
      × (r.count ≤ c.fetch_width)
      × (length r.words ≡ r.count)
      × (off + 4 * r.count ≤ c.line_bytes)
      × (r.count < c.fetch_width → off + 4 * r.count ≡ c.line_bytes)
      × ((i : ℕ) → i < r.count → get_or r.words i 0 ≡ fetch_word line (off + 4 * i))
unfolding build_resp
build_resp_bounds c k n at line size width small aligned wide whole =
    let off = at - line_align at c.line_bytes in
    let g = group_size c.line_bytes c.fetch_width off in
    let e : off ≡ at % c.line_bytes = offset c.line_bytes (suc (suc k)) n at size width small in
    let quarter : c.line_bytes ≡ 4 * 2 ^ k = omega (arith, size, pow-suc 2 (suc k), pow-suc 2 k) in
    let within : at % c.line_bytes < c.line_bytes =
      mod-lt at (omega (arith, size, one-le-pow (suc (suc k)) 2)) in
    let words : at % c.line_bytes % 4 ≡ 0 = quarters at (2 ^ k) c.line_bytes quarter aligned in
    let (some_word, group, fits, short) =
      group_size_bounds c.line_bytes c.fetch_width off (2 ^ k) quarter (omega (arith, e, within))
        (omega (arith, e, words)) wide in
    (
      record { pc = at; count = g; words = tabulate (λ i. fetch_word line (off + 4 * i)) 0 g },
      ground (arith, fits, whole),
      some_word,
      group,
      length-tabulate (λ i. fetch_word line (off + 4 * i)) 0 g,
      omega (arith, e, fits),
      λ less. omega (arith, e, short less),
      λ i l.
          get_or-tabulate (λ j. fetch_word line (off + 4 * j)) 0 g i 0 l
          ∙ ap (λ j. fetch_word line j) (omega (arith, e)),
    )
