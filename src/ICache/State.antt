-- ===== src/ICache/State.antt =====
-- include/mem/icache.hpp: the state of the instruction cache, and its lookups from src/mem/icache.cpp.
use ooo_superscalar_risc_sim.Common.{
  ℕ, ◌+◌, ◌*◌, ◌/◌, ◌%◌, Bool, true, false, not, ◌&&◌, ◌||◌, Option, none, some, List, [], ◌∷◌,
  if◌then◌else◌, ltb, ◌==◌, get_or, set, replicate,
}
use ooo_superscalar_risc_sim.Common.Int.{ℤ, pos, negsuc, Word}
use ooo_superscalar_risc_sim.Common.Search.{find_index}
use ooo_superscalar_risc_sim.IdealMemory.{ImemResp}

pub record Way : Type 0 where
  pub valid : Bool
  pub reserved : Bool
  pub tag : Word
  pub bytes : List ℕ
  pub lru : ℕ

pub record Mshr : Type 0 where
  pub valid : Bool
  pub fill_sent : Bool
  pub fill_ready : Bool
  pub drop : Bool
  pub has_waiter : Bool
  pub line_addr : Word
  pub req_pc : Word
  pub set_no : ℕ
  pub way_no : ℕ
  pub line : List ℕ

pub record Pipe : Type 0 where
  pub valid : Bool
  pub pc : Word

pub record HitPend : Type 0 where
  pub valid : Bool
  pub drop : Bool
  pub cycles_left : ℕ
  pub pc : Word
  pub line : List ℕ

pub record ICache : Type 0 where
  pub line_bytes : ℕ
  pub sets : ℕ
  pub fetch_width : ℕ
  pub hit_latency : ℕ
  pub lru_clock : ℕ
  pub cache : List (List Way)
  pub mshrs : List Mshr
  pub pipe : Pipe
  pub hit_pend : HitPend
  pub resp : Option ImemResp
  pub dram_mshr : Option ℕ

abbrev pub no_way : Way
no_way = record { valid = false; reserved = false; tag = 0; bytes = []; lru = 0 }

abbrev pub no_mshr : Mshr
no_mshr = record {
  valid = false;
  fill_sent = false;
  fill_ready = false;
  drop = false;
  has_waiter = false;
  line_addr = 0;
  req_pc = 0;
  set_no = 0;
  way_no = 0;
  line = [];
}

abbrev pub no_pipe : Pipe
no_pipe = record { valid = false; pc = 0 }

abbrev pub no_hit_pend : HitPend
no_hit_pend = record { valid = false; drop = false; cycles_left = 0; pc = 0; line = [] }

abbrev at_least_one : ℤ → ℕ
at_least_one (pos n) = if ltb 0 n then n else 1
at_least_one (negsuc n) = 1

abbrev count_of : ℤ → ℕ
count_of (pos n) = n
count_of (negsuc n) = 0

abbrev pub init : ℕ → ℕ → ℕ → ℤ → ℤ → ℤ → ICache
init line_size set_count ways mshr_count width latency = record {
  line_bytes = line_size;
  sets = set_count;
  fetch_width = at_least_one width;
  hit_latency = at_least_one latency;
  lru_clock = 1;
  cache = replicate set_count (replicate ways (record no_way { bytes = replicate line_size 0 }));
  mshrs = replicate (count_of mshr_count) no_mshr;
  pipe = no_pipe;
  hit_pend = no_hit_pend;
  resp = none;
  dram_mshr = none;
}

unfoldable pub set_index : ICache → Word → ℕ
set_index c addr = addr / c.line_bytes % c.sets

unfoldable pub tag_of : ICache → Word → Word
tag_of c addr = addr / (c.line_bytes * c.sets)

abbrev pub ways_of : ICache → ℕ → List Way
ways_of c s = get_or c.cache s []

abbrev pub way_at : ICache → ℕ → ℕ → Way
way_at c s w = get_or (ways_of c s) w no_way

abbrev pub put_way : ℕ → ℕ → Way → ICache → ICache
put_way s w v c = record c { cache = set c.cache s (set (ways_of c s) w v) }

abbrev pub put_mshr : ℕ → Mshr → ICache → ICache
put_mshr i m c = record c { mshrs = set c.mshrs i m }

abbrev is_hit : Word → Way → Bool
is_hit t w = w.valid && (not w.reserved && w.tag == t)

unfoldable pub find_hit : ICache → ℕ → Word → Option ℕ
find_hit c s t = find_index (is_hit t) (ways_of c s)

abbrev is_unused : Way → Bool
is_unused w = not w.valid && not w.reserved

abbrev is_none : Option ℕ → Bool
is_none none = true
is_none (some v) = false

-- The loop for the least recently used way, its variables `w`, `victim` and `best` first.
unfoldable pub scan_lru : ℕ → Option ℕ → ℕ → List Way → Option ℕ
scan_lru w victim best [] = victim
scan_lru w victim best (x ∷ xs) =
    let better = not x.reserved && (is_none victim || ltb x.lru best) in
    scan_lru (w + 1) (if better then some w else victim) (if better then x.lru else best) xs

unfoldable pub find_victim : ICache → ℕ → Option ℕ
find_victim c s = elim (find_index is_unused (ways_of c s)) [
  | some w ↦ some w
  | none ↦ scan_lru 0 none 0 (ways_of c s)
]

unfoldable pub find_mshr : ICache → Word → Option ℕ
find_mshr c laddr = find_index (λ m. m.valid && m.line_addr == laddr) c.mshrs

unfoldable pub alloc_mshr : ICache → Option ℕ
alloc_mshr c = find_index (λ m. not m.valid) c.mshrs
