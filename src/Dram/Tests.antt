-- ===== src/Dram/Tests.antt =====
-- A memory of eight words, lines of eight bytes and two slots, one of them taken.
use ooo_superscalar_risc_sim.Common.{
  ℕ, ◌≡◌, ◌<◌, arith, true, List, [], ◌∷◌, length, get_or, replicate,
}
use ooo_superscalar_risc_sim.Common.Int.{pos, Word}
use ooo_superscalar_risc_sim.Dram.{no_slot, DramSimple, init, read_line, write_line}
use ooo_superscalar_risc_sim.Dram.Lines.{Bytes, flat, read_line-write_line}

abbrev memory : List Word
memory = replicate 8 0

abbrev bytes : List Bytes
bytes = (1, 2, 3, 4) ∷ (5, 6, 7, 255) ∷ []

read_line-write_line_example :
    (read_line 0 4 (length bytes) (write_line 4 (flat bytes) memory) ≡ flat bytes)
    × (length (write_line 4 (flat bytes) memory) ≡ length memory)
    × ((j : ℕ) → j < 4 → get_or (write_line 4 (flat bytes) memory) j 0 ≡ get_or memory j 0)
read_line-write_line_example = read_line-write_line 0 bytes 4 memory (omega arith) (omega arith)

abbrev dram : DramSimple
dram = record (init 8 (pos 2) (pos 3)) {
  slots =
      record no_slot { valid = true; cycles_left = 3; dram_id = pos 1; bytes = flat bytes }
      ∷ no_slot
      ∷ [];
}
