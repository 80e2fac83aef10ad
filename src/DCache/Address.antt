-- ===== src/DCache/Address.antt =====
-- The set and the tag of an address name its line.
use native.Mathlib.Nat.{div-div-eq-div-mul, div-add-mod', div-mul-le_self, mod-lt, mod-eq_of_lt}
use ooo_superscalar_risc_sim.Common.{ℕ, ◌+◌, ◌*◌, ◌/◌, ◌%◌, ◌^◌, ◌<◌, ◌≡◌, ◌∙◌, sym, ap, arith}
use ooo_superscalar_risc_sim.Common.Int.{Word}
use ooo_superscalar_risc_sim.MemTypes.Split.{line_align_lem}
use ooo_superscalar_risc_sim.MemTypes.{line_align}
use ooo_superscalar_risc_sim.DCache.State.{DCache, set_index, tag_of, line_addr_of}

-- For lines of a power of two bytes, the set is in range, and set and tag together give back the address
-- of the line, so a write-back goes to the line that was cached.
pub line_addr_of-split :
    (d : DCache) (k n : ℕ) (addr : Word)
    → d.line_bytes ≡ 2 ^ k
    → k + n ≡ 32
    → 0 < d.sets
    → addr < 2 ^ 32
    → (set_index d addr < d.sets)
      × (line_addr_of d (set_index d addr) (tag_of d addr) ≡ line_align addr d.line_bytes)
unfolding set_index tag_of line_addr_of
line_addr_of-split d k n addr size width some_sets small =
    let line = addr / d.line_bytes in
    let whole : addr / (d.line_bytes * d.sets) * d.sets + line % d.sets ≡ line =
      ap (λ t. t * d.sets + line % d.sets) (sym (div-div-eq-div-mul addr d.line_bytes d.sets))
      ∙ div-add-mod' line d.sets in
    let below : line * d.line_bytes < 2 ^ 32 =
      omega (arith, small, div-mul-le_self addr d.line_bytes) in
    (
      mod-lt line some_sets,
      ap (λ t. t * d.line_bytes % 2 ^ 32) whole
          ∙ mod-eq_of_lt below
          ∙ ap (λ t. addr / t * t) size
          ∙ sym (ap (line_align addr) size ∙ line_align_lem addr k n width small),
    )
