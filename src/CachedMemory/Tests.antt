-- ===== src/CachedMemory/Tests.antt =====
-- The memory system of the default configuration, whose instruction cache asks for the line at 64.
use ooo_superscalar_risc_sim.Common.{◌^◌, ◌<◌, ◌≡◌, refl, arith, some, [], ◌∷◌, true, false}
use ooo_superscalar_risc_sim.DCache
use ooo_superscalar_risc_sim.DCache.State.{built}
use ooo_superscalar_risc_sim.ICache
use ooo_superscalar_risc_sim.Common.Int.{pos}
use ooo_superscalar_risc_sim.Common.Search.{find_index}
use ooo_superscalar_risc_sim.Dram
use ooo_superscalar_risc_sim.CachedMemory.Route.{Arbitrated, arbitrate_to_dram-Arbitrated}
use ooo_superscalar_risc_sim.CachedMemory.{
  CachedMemorySystem, init, default_config, arbitrate_to_dram,
}

abbrev system : CachedMemorySystem
system = record {
  dram = Dram.init 32 (pos 4) (pos 10);
  dcache = built 32 16 4 (pos 4) (pos 2) (pos 4) (pos 1);
  icache = record (ICache.State.init 32 16 4 (pos 2) (pos 4) (pos 1)) {
    mshrs =
        ICache.State.no_mshr ∷ record ICache.State.no_mshr { valid = true; line_addr = 64 } ∷ [];
  };
}

constructed :
    init default_config
    ≡ some (record system { icache = ICache.State.init 32 16 4 (pos 2) (pos 4) (pos 1) })
unfolding init
constructed = refl

small_d : DCache.Fills.dram_req_id system.dcache < 2 ^ 16
unfolding DCache.Fills.dram_req_id DCache.Fills.pick_dram_mshr find_index
small_d = omega arith

small_i : ICache.dram_req_id system.icache < 2 ^ 16
unfolding ICache.dram_req_id ICache.pick find_index
small_i = omega arith

arbitrate_to_dram-Arbitrated_example : Arbitrated false true system [] (arbitrate_to_dram system [])
unfolding DCache.Fills.has_dram_req DCache.Fills.pick_dram_mshr ICache.has_dram_req ICache.pick
    find_index
arbitrate_to_dram-Arbitrated_example = arbitrate_to_dram-Arbitrated system [] small_d small_i
