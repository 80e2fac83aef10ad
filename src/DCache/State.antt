-- ===== src/DCache/State.antt =====
-- include/mem/dcache.hpp: the state of the data cache, and the address split and lookups of
-- src/mem/dcache.cpp. An index that may be -1 is an Option. `mshrs` holds the entries that the loops
-- over `mshr_count_` visit; `drain_idx` and `cycles_left` are never negative.
use ooo_superscalar_risc_sim.Common.{
  ℕ, ◌+◌, ◌*◌, ◌/◌, ◌%◌, ◌^◌, Bool, true, false, not, ◌&&◌, ◌||◌, Option, none, some, List, [], ◌∷◌,
  if◌then◌else◌, ltb, ◌==◌, get_or, set, replicate,
}
use ooo_superscalar_risc_sim.Common.Int.{ℤ, pos, negsuc, Word}
use ooo_superscalar_risc_sim.Common.Search.{find_index}
use ooo_superscalar_risc_sim.MemTypes.{DataMemReq, default_req, DataMemResp}

pub record Way : Type 0 where
  pub valid : Bool
  pub dirty : Bool
  pub reserved : Bool
  pub tag : Word
  pub bytes : List ℕ
  pub lru : ℕ

pub record Waiter : Type 0 where
  pub req : DataMemReq
  pub drop : Bool

pub record Mshr : Type 0 where
  pub valid : Bool
  pub line_addr : Word
  pub set_no : ℕ
  pub way_no : ℕ
  pub need_wb : Bool
  pub wb_sent : Bool
  pub wb_done : Bool
  pub wb_addr : Word
  pub wb_data : List ℕ
  pub fill_sent : Bool
  pub fill_ready : Bool
  pub line : List ℕ
  pub waiters : List Waiter
  pub draining : Bool
  pub drain_idx : ℕ
  pub drain_line : List ℕ

pub record Pipe : Type 0 where
  pub valid : Bool
  pub req : DataMemReq

pub record HitPend : Type 0 where
  pub valid : Bool
  pub drop : Bool
  pub cycles_left : ℕ
  pub resp : DataMemResp

pub record DCache : Type 0 where
  pub line_bytes : ℕ
  pub sets : ℕ
  pub ufp_ports : ℕ
  pub mshr_waiters : ℕ
  pub load_hit_latency : ℕ
  pub lru_clock : ℕ
  pub cpu_accepts : ℕ
  pub cache : List (List Way)
  pub mshrs : List Mshr
  pub pipe : List Pipe
  pub hit_pend : List HitPend
  pub resp_q : List DataMemResp
  pub dram_mshr : Option ℕ
  pub dram_is_wb : Bool
  pub drain_mshr : Option ℕ

abbrev pub no_way : Way
no_way = record { valid = false; dirty = false; reserved = false; tag = 0; bytes = []; lru = 0 }

abbrev pub no_mshr : Mshr
no_mshr = record {
  valid = false;
  line_addr = 0;
  set_no = 0;
  way_no = 0;
  need_wb = false;
  wb_sent = false;
  wb_done = true;
  wb_addr = 0;
  wb_data = [];
  fill_sent = false;
  fill_ready = false;
  line = [];
  waiters = [];
  draining = false;
  drain_idx = 0;
  drain_line = [];
}

abbrev pub no_pipe : Pipe
no_pipe = record { valid = false; req = default_req }

abbrev pub no_resp : DataMemResp
no_resp = record { id = negsuc 0; rdata = 0; cookie = 0; is_write = false }

abbrev pub no_hit_pend : HitPend
no_hit_pend = record { valid = false; drop = false; cycles_left = 0; resp = no_resp }

abbrev pub at_least_one : ℤ → ℕ
at_least_one (pos n) = if ltb 0 n then n else 1
at_least_one (negsuc n) = 1

abbrev pub count_of : ℤ → ℕ
count_of (pos n) = n
count_of (negsuc n) = 0

-- What the constructor makes.
abbrev pub built : ℕ → ℕ → ℕ → ℤ → ℤ → ℤ → ℤ → DCache
built line_size set_count ways mshr_count ports waiters latency = record {
  line_bytes = line_size;
  sets = set_count;
  ufp_ports = at_least_one ports;
  mshr_waiters = at_least_one waiters;
  load_hit_latency = at_least_one latency;
  lru_clock = 1;
  cpu_accepts = 0;
  cache = replicate set_count (replicate ways (record no_way { bytes = replicate line_size 0 }));
  mshrs = replicate (count_of mshr_count) no_mshr;
  pipe = replicate (at_least_one ports) no_pipe;
  hit_pend = replicate (at_least_one ports) no_hit_pend;
  resp_q = [];
  dram_mshr = none;
  dram_is_wb = false;
  drain_mshr = none;
}

-- The assert wants a line size and counts of sets and ways that are positive.
abbrev pub init : ℕ → ℕ → ℕ → ℤ → ℤ → ℤ → ℤ → Option DCache
init line_size set_count ways mshr_count ports waiters latency =
    if ltb 0 line_size && (ltb 0 set_count && ltb 0 ways)
    then some (built line_size set_count ways mshr_count ports waiters latency)
    else none

-- The address split. `line_bytes_ * sets_` is assumed to fit an `int`.
unfoldable pub set_index : DCache → Word → ℕ
set_index d addr = addr / d.line_bytes % d.sets

unfoldable pub tag_of : DCache → Word → Word
tag_of d addr = addr / (d.line_bytes * d.sets)

unfoldable pub line_addr_of : DCache → ℕ → Word → Word
line_addr_of d s t = (t * d.sets + s) * d.line_bytes % 2 ^ 32

-- `cache_[s]` and `cache_[s][w]`.
abbrev pub ways_of : DCache → ℕ → List Way
ways_of d s = get_or d.cache s []

abbrev pub way_at : DCache → ℕ → ℕ → Way
way_at d s w = get_or (ways_of d s) w no_way

abbrev pub put_way : ℕ → ℕ → Way → DCache → DCache
put_way s w v d = record d { cache = set d.cache s (set (ways_of d s) w v) }

abbrev pub put_mshr : ℕ → Mshr → DCache → DCache
put_mshr i m d = record d { mshrs = set d.mshrs i m }

abbrev pub put_pipe : ℕ → Pipe → DCache → DCache
put_pipe p v d = record d { pipe = set d.pipe p v }

-- A reserved way is being filled and does not answer.
abbrev pub is_hit : Word → Way → Bool
is_hit t w = w.valid && (not w.reserved && w.tag == t)

unfoldable pub find_hit : DCache → ℕ → Word → Option ℕ
find_hit d s t = find_index (is_hit t) (ways_of d s)

abbrev pub is_unused : Way → Bool
is_unused w = not w.valid && not w.reserved

abbrev pub is_none : Option ℕ → Bool
is_none none = true
is_none (some v) = false

-- The loop for the least recently used way, its variables `w`, `victim` and `best` first.
unfoldable pub scan_lru : ℕ → Option ℕ → ℕ → List Way → Option ℕ
scan_lru w victim best [] = victim
scan_lru w victim best (x ∷ xs) =
    let better = not x.reserved && (is_none victim || ltb x.lru best) in
    scan_lru (w + 1) (if better then some w else victim) (if better then x.lru else best) xs

unfoldable pub find_victim : DCache → ℕ → Option ℕ
find_victim d s = elim (find_index is_unused (ways_of d s)) [
  | some w ↦ some w
  | none ↦ scan_lru 0 none 0 (ways_of d s)
]

unfoldable pub alloc_mshr : DCache → Option ℕ
alloc_mshr d = find_index (λ m. not m.valid) d.mshrs

abbrev pub is_for : Word → Mshr → Bool
is_for laddr m = m.valid && m.line_addr == laddr

unfoldable pub find_mshr : DCache → Word → Option ℕ
find_mshr d laddr = find_index (is_for laddr) d.mshrs
