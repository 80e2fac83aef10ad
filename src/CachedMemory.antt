-- ===== src/CachedMemory.antt =====
-- src/mem/memory_system.cpp and include/mem/memory_system.hpp: CachedMemorySystem, the two caches in
-- front of one memory. `MainMemory` is an argument and a result; a failed assert is `none`.
pub mod Route
mod Tests
use ooo_superscalar_risc_sim.Common.{
  ℕ, ◌+◌, ◌-◌, ◌*◌, ◌/◌, ◌%◌, ◌^◌, Bool, true, false, Option, none, some, List, [], if◌then◌else◌,
  ◌==◌, ◌>>=◌,
}
use mathlib.Core.Option
use ooo_superscalar_risc_sim.Common.Int.{ℤ, pos, negsuc, Word}
use ooo_superscalar_risc_sim.DCache
use ooo_superscalar_risc_sim.DCache.State.{DCache}
use ooo_superscalar_risc_sim.Dram
use ooo_superscalar_risc_sim.Dram.{DramSimple}
use ooo_superscalar_risc_sim.ICache
use ooo_superscalar_risc_sim.ICache.State.{ICache}
use ooo_superscalar_risc_sim.IdealMemory.{ImemResp}
use ooo_superscalar_risc_sim.MemTypes.{DataMemReq, DataMemResp}

pub record CachedMemorySystem : Type 0 where
  pub dram : DramSimple
  pub dcache : DCache
  pub icache : ICache

-- `CachedMemConfig`.
pub record CachedMemConfig : Type 0 where
  pub fetch_width : ℤ
  pub line_bytes : ℕ
  pub d_sets : ℕ
  pub d_ways : ℕ
  pub d_mshr : ℤ
  pub d_ufp : ℤ
  pub d_mshr_waiters : ℤ
  pub i_sets : ℕ
  pub i_ways : ℕ
  pub i_mshr : ℤ
  pub dram_outstanding : ℤ
  pub dram_lat : ℤ
  pub load_hit_latency : ℤ
  pub fetch_hit_latency : ℤ

abbrev pub default_config : CachedMemConfig
default_config = record {
  fetch_width = pos 4;
  line_bytes = 32;
  d_sets = 16;
  d_ways = 4;
  d_mshr = pos 4;
  d_ufp = pos 2;
  d_mshr_waiters = pos 4;
  i_sets = 16;
  i_ways = 4;
  i_mshr = pos 2;
  dram_outstanding = pos 4;
  dram_lat = pos 10;
  load_hit_latency = pos 1;
  fetch_hit_latency = pos 1;
}

unfoldable pub init : CachedMemConfig → Option CachedMemorySystem
init g = do
  dcache ←
      DCache.State.init g.line_bytes g.d_sets g.d_ways g.d_mshr g.d_ufp g.d_mshr_waiters
        g.load_hit_latency
  some (record {
    dram = Dram.init g.line_bytes g.dram_outstanding g.dram_lat;
    dcache = dcache;
    icache =
        ICache.State.init g.line_bytes g.i_sets g.i_ways g.i_mshr g.fetch_width g.fetch_hit_latency;
  })

abbrev pub dram_client_d : ℕ
dram_client_d = 0

abbrev pub dram_client_i : ℕ
dram_client_i = 1

-- `(client << 16) | (mid & 0xFFFF)`: the fields are disjoint.
unfoldable pub dram_id_of : ℕ → ℕ → ℤ
dram_id_of client mid = pos (client * 2 ^ 16 + mid % 2 ^ 16)

-- The bits of an `int`.
abbrev bits_of : ℤ → Word
bits_of (pos n) = n % 2 ^ 32
bits_of (negsuc n) = 2 ^ 32 - 1 - n % 2 ^ 32

-- `(dram_id >> 16) & 0xFFFF` and `dram_id & 0xFFFF`.
unfoldable pub client_of : ℤ → ℕ
client_of id = bits_of id / 2 ^ 16 % 2 ^ 16

unfoldable pub mid_of : ℤ → ℕ
mid_of id = bits_of id % 2 ^ 16

abbrev pub reset : CachedMemorySystem → CachedMemorySystem
reset s = record {
  dram = Dram.reset s.dram;
  dcache = DCache.reset s.dcache;
  icache = ICache.reset s.icache;
}

-- The data cache goes first.
unfoldable pub arbitrate_d : CachedMemorySystem → List Word → Option CachedMemorySystem
arbitrate_d s memory = do
  let d = s.dcache
  (done, dram') ←
      Dram.try_accept s.dram (DCache.Fills.dram_req_is_write d) (DCache.Fills.dram_req_addr d)
        (DCache.Fills.dram_req_data d) (dram_id_of dram_client_d (DCache.Fills.dram_req_id d)) false
        memory
  some (record s { dram = dram'; dcache = if done then DCache.Fills.dram_req_accepted d else d })

unfoldable pub arbitrate_i : CachedMemorySystem → List Word → Option CachedMemorySystem
arbitrate_i s memory = do
  let c = s.icache
  (done, dram') ←
      Dram.try_accept s.dram false (ICache.dram_req_addr c) []
        (dram_id_of dram_client_i (ICache.dram_req_id c)) true memory
  some (record s { dram = dram'; icache = if done then ICache.dram_req_accepted c else c })

unfoldable pub arbitrate_to_dram : CachedMemorySystem → List Word → Option CachedMemorySystem
arbitrate_to_dram s memory =
    if DCache.Fills.has_dram_req s.dcache
    then arbitrate_d s memory
    else if ICache.has_dram_req s.icache
    then arbitrate_i s memory
    else some s

-- An answer goes to the cache that its id names.
unfoldable pub route_to : Option (ℤ × List ℕ) → CachedMemorySystem → Option CachedMemorySystem
route_to none s = some s
route_to (some (id, line)) s =
    if client_of id == dram_client_d
    then (do
      d ← DCache.Fills.dram_resp s.dcache (pos (mid_of id)) line
      some (record s { dcache = d }))
    else (do c ← ICache.dram_resp s.icache (pos (mid_of id)) line; some (record s { icache = c }))

unfoldable pub route_dram_resps : CachedMemorySystem → Option CachedMemorySystem
route_dram_resps s =
    let (found, dram') = Dram.try_pop_resp s.dram in route_to found (record s { dram = dram' })

unfoldable pub tick : CachedMemorySystem → List Word → Option (CachedMemorySystem × List Word)
tick s memory = do
  let (dram', memory') = Dram.tick s.dram memory
  routed ← route_dram_resps (record s { dram = dram'; dcache = DCache.tick_begin s.dcache })
  asked ← arbitrate_to_dram routed memory'
  icache ← ICache.tick_end asked.icache
  some (record asked { dcache = DCache.tick_end asked.dcache; icache = icache }, memory')

unfoldable pub try_data_req : CachedMemorySystem → DataMemReq → Bool × CachedMemorySystem
try_data_req s req =
    let (ok, d) = DCache.Pipes.try_cpu_req s.dcache req in (ok, record s { dcache = d })

unfoldable pub pop_data_resps : CachedMemorySystem → List DataMemResp × CachedMemorySystem
pop_data_resps s = let (out, d) = DCache.pop_cpu_resps s.dcache in (out, record s { dcache = d })

unfoldable pub try_imem_req : CachedMemorySystem → Word → Bool × CachedMemorySystem
try_imem_req s pc = let (ok, c) = ICache.try_cpu_req s.icache pc in (ok, record s { icache = c })

unfoldable pub pop_imem_resp : CachedMemorySystem → Option ImemResp × CachedMemorySystem
pop_imem_resp s = let (out, c) = ICache.pop_cpu_resp s.icache in (out, record s { icache = c })

abbrev pub flush_on_redirect : CachedMemorySystem → CachedMemorySystem
flush_on_redirect s = record s { icache = ICache.flush s.icache }

abbrev pub flush_dcache_loads : CachedMemorySystem → CachedMemorySystem
flush_dcache_loads s = record s { dcache = DCache.flush_loads s.dcache }

abbrev pub writeback_dirty : CachedMemorySystem → List Word → CachedMemorySystem × List Word
writeback_dirty s memory =
    let (d, memory') = DCache.writeback_dirty_to_memory s.dcache memory in
    (record s { dcache = d }, memory')
