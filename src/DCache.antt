-- ===== src/DCache.antt =====
-- src/mem/dcache.cpp and include/mem/dcache.hpp: the non-blocking data cache.
pub mod State
pub mod Line
pub mod Pipes
pub mod Fills
pub mod Shape
pub mod InFlight
pub mod Conserve
pub mod Sizes
pub mod Moves
pub mod Runs
pub mod Plain
pub mod Words
pub mod Filled
pub mod Victim
pub mod Address
pub mod Order
pub mod Pending
pub mod Asking
mod Tests
use ooo_superscalar_risc_sim.Common.{
  ℕ, zero, suc, ◌+◌, ◌-◌, ◌*◌, ◌/◌, Bool, true, false, not, ◌&&◌, none, List, [], ◌∷◌, ◌++◌, map,
  if◌then◌else◌, leb, ◌==◌, length, take, drop, replicate,
}
use ooo_superscalar_risc_sim.Common.Int.{Word}
use ooo_superscalar_risc_sim.Dram.{write_line}
use ooo_superscalar_risc_sim.MemTypes.{DataMemResp}
use ooo_superscalar_risc_sim.DCache.State.{
  Way, Waiter, Mshr, Pipe, HitPend, DCache, no_way, no_mshr, no_pipe, no_hit_pend, line_addr_of,
}
use ooo_superscalar_risc_sim.DCache.Pipes.{process_pipes}
use ooo_superscalar_risc_sim.DCache.Fills.{complete_from, step_drain}

abbrev pub reset : DCache → DCache
reset d = record d {
  cache = map (map (λ _. record no_way { bytes = replicate d.line_bytes 0 })) d.cache;
  mshrs = map (λ _. no_mshr) d.mshrs;
  pipe = map (λ _. no_pipe) d.pipe;
  hit_pend = map (λ _. no_hit_pend) d.hit_pend;
  resp_q = [];
  dram_mshr = none;
  dram_is_wb = false;
  drain_mshr = none;
  cpu_accepts = 0;
  lru_clock = 1;
}

abbrev pub tick_begin : DCache → DCache
tick_begin d = record d { cpu_accepts = 0 }

abbrev pub flush_hit : HitPend → HitPend
flush_hit h = if h.valid then record h { drop = true } else h

abbrev pub flush_pipe : Pipe → Pipe
flush_pipe p = if p.valid && not p.req.write then no_pipe else p

abbrev pub flush_waiter : Waiter → Waiter
flush_waiter w = if w.req.write then w else record w { drop = true }

abbrev pub flush_mshr : Mshr → Mshr
flush_mshr m = if m.valid then record m { waiters = map flush_waiter m.waiters } else m

unfoldable pub kept_resps : List DataMemResp → List DataMemResp
kept_resps [] = []
kept_resps (r ∷ rs) = let rest = kept_resps rs in if r.is_write then r ∷ rest else rest

-- Loads in flight lose their answers; stores keep theirs.
unfoldable pub flush_loads : DCache → DCache
flush_loads d = record d {
  hit_pend = map flush_hit d.hit_pend;
  pipe = map flush_pipe d.pipe;
  mshrs = map flush_mshr d.mshrs;
  resp_q = kept_resps d.resp_q;
}

abbrev is_dirty : Way → Bool
is_dirty w = w.valid && w.dirty

abbrev cleaned : Way → Way
cleaned w = if is_dirty w then record w { dirty = false } else w

-- The dirty ways of one set, in order; a word beyond the end of memory is dropped.
unfoldable pub writeback_ways : DCache → ℕ → List Way → List Word → List Word
writeback_ways d s [] memory = memory
writeback_ways d s (w ∷ ws) memory =
    writeback_ways d s ws
      (if is_dirty w then write_line (line_addr_of d s w.tag / 4) w.bytes memory else memory)

unfoldable pub writeback_sets : DCache → ℕ → List (List Way) → List Word → List Word
writeback_sets d s [] memory = memory
writeback_sets d s (row ∷ rows) memory =
    writeback_sets d (s + 1) rows (writeback_ways d s row memory)

-- `MainMemory` is an argument and a result.
unfoldable pub writeback_dirty_to_memory : DCache → List Word → DCache × List Word
writeback_dirty_to_memory d memory =
    (record d { cache = map (map cleaned) d.cache }, writeback_sets d 0 d.cache memory)

-- The answers of the hits whose latency ends.
unfoldable pub emit_hits : List HitPend → List HitPend × List DataMemResp
emit_hits [] = ([], [])
emit_hits (h ∷ hs) =
    let (rest, out) = emit_hits hs in
    let counted = record h { cycles_left = h.cycles_left - 1 } in
    if not h.valid
    then (h ∷ rest, out)
    else if leb h.cycles_left 1
    then (no_hit_pend ∷ rest, if h.drop then out else h.resp ∷ out)
    else (counted ∷ rest, out)

unfoldable pub tick_hits : DCache → DCache
tick_hits d =
    let (hs, out) = emit_hits d.hit_pend in record d { hit_pend = hs; resp_q = d.resp_q ++ out }

unfoldable pub tick_end : DCache → DCache
tick_end d =
    let looked = process_pipes (tick_hits d) in
    step_drain (complete_from 0 (length looked.mshrs) looked)

abbrev max_resp : DCache → ℕ
max_resp d = if leb d.ufp_ports 2 then 4 else d.ufp_ports

unfoldable pub pop_cpu_resps : DCache → List DataMemResp × DCache
pop_cpu_resps d = (take (max_resp d) d.resp_q, record d { resp_q = drop (max_resp d) d.resp_q })
