-- ===== src/Dram.antt =====
-- src/mem/dram_simple.cpp and include/mem/dram_simple.hpp: memory that serves whole lines after a fixed
-- latency. `MainMemory` is an argument and a result. A line has a multiple of four bytes, the least
-- significant byte of a word first, as `memcpy` lays it out. The capacity of `slots` stands for
-- `outstanding_`; a failed assert is `none`.
pub mod Lines
pub mod Slots
pub mod Timing
mod Tests
use ooo_superscalar_risc_sim.Common.{
  ℕ, zero, suc, ◌+◌, ◌-◌, ◌*◌, ◌/◌, ◌%◌, ◌^◌, Bool, true, false, not, ◌&&◌, Option, none, some,
  List, [], ◌∷◌, ◌++◌, map, if◌then◌else◌, ltb, leb, ◌==◌, length, get_or, set, take, replicate,
}
use ooo_superscalar_risc_sim.Common.Int.{ℤ, pos, negsuc, Word}

pub record Slot : Type 0 where
  pub valid : Bool
  pub write : Bool
  pub line_addr : Word
  pub dram_id : ℤ
  pub cycles_left : ℕ
  pub bytes : List ℕ

abbrev pub no_slot : Slot
no_slot = record {
  valid = false;
  write = false;
  line_addr = 0;
  dram_id = negsuc 0;
  cycles_left = 0;
  bytes = [];
}

-- `imem` is the image that instruction fills read, if one is set.
pub record DramSimple : Type 0 where
  pub line_bytes : ℕ
  pub latency : ℕ
  pub slots : List Slot
  pub accepted_this_cycle : Bool
  pub imem : Option (List Word)

abbrev pub at_least_one : ℤ → ℕ
at_least_one (pos n) = if ltb 0 n then n else 1
at_least_one (negsuc n) = 1

-- The assert that the line size is a power of two is left to the caller.
abbrev pub init : ℕ → ℤ → ℤ → DramSimple
init line_size outstanding latency_cycles = record {
  line_bytes = line_size;
  latency = at_least_one latency_cycles;
  slots = replicate (at_least_one outstanding) no_slot;
  accepted_this_cycle = false;
  imem = none;
}

abbrev pub reset : DramSimple → DramSimple
reset d = record d { slots = map (λ _. no_slot) d.slots; accepted_this_cycle = false }

-- The words of a line, into memory from a word index on; a word beyond the end is dropped.
unfoldable pub write_line : ℕ → List ℕ → List Word → List Word
write_line wi (a ∷ b ∷ c ∷ d ∷ rest) memory = write_line (wi + 1) rest (
    if ltb wi (length memory)
    then set memory wi (a + b * 256 + c * 65536 + d * 16777216)
    else memory)
write_line wi _ memory = memory

abbrev pub bytes_of : Word → List ℕ
bytes_of w = w % 256 ∷ w / 256 % 256 ∷ w / 65536 % 256 ∷ w / 16777216 % 256 ∷ []

-- `n` words from a word index on; beyond the end there is `missing`.
unfoldable pub read_line : Word → ℕ → ℕ → List Word → List ℕ
read_line missing wi zero memory = []
read_line missing wi (suc n) memory =
    bytes_of (if ltb wi (length memory) then get_or memory wi 0 else missing)
    ++ read_line missing (wi + 1) n memory

abbrev pub counted : Slot → Slot
counted s =
    if s.valid && ltb 0 s.cycles_left then record s { cycles_left = s.cycles_left - 1 } else s

abbrev pub committed : Slot → List Word → List Word
committed s memory =
    if s.valid && (s.cycles_left == 0 && s.write)
    then write_line (s.line_addr / 4) s.bytes memory
    else memory

-- A write reaches memory when its countdown ends, the slots in order.
unfoldable pub tick_slots : List Slot → List Word → List Slot × List Word
tick_slots [] memory = ([], memory)
tick_slots (s ∷ ss) memory =
    let (rest, memory') = tick_slots ss (committed (counted s) memory) in
    (counted s ∷ rest, memory')

unfoldable pub tick : DramSimple → List Word → DramSimple × List Word
tick d memory =
    let (ss, memory') = tick_slots d.slots memory in
    (record d { slots = ss; accepted_this_cycle = false }, memory')

-- The data of a request: what it writes, or the line as memory or the instruction image has it now. The
-- assert wants at least a line of data to write.
abbrev pub line_of : DramSimple → Bool → Word → List ℕ → Bool → List Word → Option (List ℕ)
line_of d true addr wdata from_imem memory =
    if leb d.line_bytes (length wdata) then some (take d.line_bytes wdata) else none
line_of d false addr wdata false memory = some (read_line 0 (addr / 4) (d.line_bytes / 4) memory)
line_of d false addr wdata true memory = elim d.imem [
  | none ↦ some (read_line 0 (addr / 4) (d.line_bytes / 4) memory)
  | some image ↦ some (read_line (2 ^ 32 - 1) (addr / 4) (d.line_bytes / 4) image)
]

-- The first free slot takes the request.
unfoldable pub accept_first : Slot → List Slot → Bool × List Slot
accept_first new [] = (false, [])
accept_first new (s ∷ ss) =
    let (done, rest) = accept_first new ss in if s.valid then (done, s ∷ rest) else (true, new ∷ ss)

abbrev pub request : DramSimple → Bool → Word → ℤ → List ℕ → Slot
request d is_write addr id line = record {
  valid = true;
  write = is_write;
  line_addr = addr;
  dram_id = id;
  cycles_left = d.latency;
  bytes = line;
}

abbrev pub any_free : List Slot → Bool
any_free [] = false
any_free (s ∷ ss) = let rest = any_free ss in if s.valid then rest else true

-- The assert is reached only if a slot is free.
unfoldable pub try_accept :
    DramSimple → Bool → Word → List ℕ → ℤ → Bool → List Word → Option (Bool × DramSimple)
try_accept d is_write addr wdata id from_imem memory =
    if d.accepted_this_cycle
    then some (false, d)
    else if not (any_free d.slots)
    then some (false, d)
    else elim (line_of d is_write addr wdata from_imem memory) [
      | none ↦ none
      | some line ↦
          let (done, ss) = accept_first (request d is_write addr id line) d.slots in
          some (done, record d { slots = ss; accepted_this_cycle = done })
    ]

-- The first slot whose countdown has ended gives its line.
unfoldable pub pop_first : List Slot → Option (ℤ × List ℕ) × List Slot
pop_first [] = (none, [])
pop_first (s ∷ ss) =
    let (found, rest) = pop_first ss in
    if s.valid && s.cycles_left == 0
    then (some (s.dram_id, s.bytes), no_slot ∷ ss)
    else (found, s ∷ rest)

abbrev pub try_pop_resp : DramSimple → Option (ℤ × List ℕ) × DramSimple
try_pop_resp d = let (found, ss) = pop_first d.slots in (found, record d { slots = ss })
