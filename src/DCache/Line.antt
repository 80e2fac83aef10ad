-- ===== src/DCache/Line.antt =====
-- src/mem/dcache.cpp, applyStoreToLine and loadWordFromLine: the bytes of a line, the least
-- significant byte of a word first, as `memcpy` lays it out.
use ooo_superscalar_risc_sim.Common.{ℕ, ◌+◌, ◌*◌, ◌/◌, ◌&&◌, List, if◌then◌else◌, ltb, get_or, set}
use ooo_superscalar_risc_sim.Common.Int.{Word}
use ooo_superscalar_risc_sim.LoadStoreQueue.Lanes.{Lane, b0, b1, b2, b3, at_lane, byte_at}
use ooo_superscalar_risc_sim.MemTypes.{DataMemReq, line_offset}

-- The offset of the word: `& ~3` clears the two low bits of a number that is not negative.
abbrev pub word_offset : ℕ → Word → ℕ
word_offset line_bytes addr = line_offset addr line_bytes / 4 * 4

abbrev pub lane_no : Lane → ℕ
lane_no b0 = 0
lane_no b1 = 1
lane_no b2 = 2
lane_no b3 = 3

-- One round of the loop over the bytes of the mask.
unfoldable pub store_lane : ℕ → DataMemReq → Lane → List ℕ → List ℕ
store_lane line_bytes req b line =
    let idx = word_offset line_bytes req.addr + lane_no b in
    if at_lane b req.wstrb && ltb idx line_bytes then set line idx (byte_at b req.wdata) else line

unfoldable pub apply_store_to_line : ℕ → List ℕ → DataMemReq → List ℕ
apply_store_to_line line_bytes line req = store_lane line_bytes req b3 (
    store_lane line_bytes req b2 (store_lane line_bytes req b1 (store_lane line_bytes req b0 line)))

-- The word of four bytes from an offset on.
abbrev pub word_from : List ℕ → ℕ → Word
word_from line off =
    get_or line (off + lane_no b0) 0
    + get_or line (off + lane_no b1) 0 * 256
    + get_or line (off + lane_no b2) 0 * 65536
    + get_or line (off + lane_no b3) 0 * 16777216

unfoldable pub load_word_from_line : ℕ → List ℕ → Word → Word
load_word_from_line line_bytes line addr =
    let off = word_offset line_bytes addr in
    if ltb line_bytes (off + 4) then 0 else word_from line off
