-- ===== src/DCache/Tests.antt =====
-- A cache of two sets of one way, lines of eight bytes, two ports and one miss entry.
use mathlib.Core.Option
use ooo_superscalar_risc_sim.Common.{
  ℕ, ◌+◌, ◌<◌, ◌≡◌, refl, arith, Bool, true, false, Option, some, List, [], ◌∷◌, replicate, get_or,
  get_or-replicate,
}
use ooo_superscalar_risc_sim.Common.Int.{pos, Word}
use ooo_superscalar_risc_sim.Common.Search.{find_index, sum_of}
use ooo_superscalar_risc_sim.LoadStoreQueue.Lanes.{all_lanes}
use ooo_superscalar_risc_sim.MemTypes.{DataMemReq, line_align, line_offset}
use ooo_superscalar_risc_sim.DCache.Address.{line_addr_of-split}
use ooo_superscalar_risc_sim.DCache.Filled.{word_after, complete_fill-word}
use ooo_superscalar_risc_sim.DCache.Fills.{
  pick_dram_mshr, has_dram_req, dram_req_id, dram_req_is_write, dram_req_accepted, dram_resp,
  complete_fill, resp_at, take_line, accepted_at, step_drain, drain_entry, next_waiter, waiter_resp,
  complete_from, merge_waiters, start_drain,
}
use ooo_superscalar_risc_sim.DCache.InFlight.{Test, req_weight, resp_weight, in_flight}
use ooo_superscalar_risc_sim.DCache.Line.{store_lane, apply_store_to_line, load_word_from_line}
use ooo_superscalar_risc_sim.DCache.Order.{IsNextRequest}
use ooo_superscalar_risc_sim.DCache.Asking.{run-IsNextRequest}
use ooo_superscalar_risc_sim.DCache.Pipes.{
  try_cpu_req, accept_at, free_port, process_pipes, process_from, process_pipe, look_up, look_up_at,
  join_mshr, store_hit, load_hit, miss, miss_at, new_mshr, resp_of,
}
use ooo_superscalar_risc_sim.DCache.Plain.{process_plain, process_pipes-process_plain}
use ooo_superscalar_risc_sim.DCache.Runs.{
  Call, send, begin, end, pop, dram_accept, dram_line, Run, run, fresh, run-balanced,
}
use ooo_superscalar_risc_sim.DCache.State.{
  DCache, init, built, Waiter, Mshr, no_mshr, ways_of, way_at, set_index, tag_of, line_addr_of,
  find_victim, find_mshr, find_hit, alloc_mshr, scan_lru,
}
use ooo_superscalar_risc_sim.DCache.Victim.{IsVictim, find_victim-IsVictim}
use ooo_superscalar_risc_sim.DCache.{tick_hits, emit_hits, tick_begin, tick_end}

abbrev cache : DCache
cache = built 8 2 1 (pos 1) (pos 2) (pos 4) (pos 1)

abbrev req : Bool → Word → Word → ℕ → DataMemReq
req w a v n = record { write = w; addr = a; wdata = v; wstrb = all_lanes; id = pos n; cookie = n }

abbrev zeros : List ℕ
zeros = replicate 8 0

-- A store of a word and a load of it, with the fill between them and the answers at the end.
abbrev calls : List Call
calls =
    begin
    ∷ send (req true 8 5 1)
    ∷ send (req false 8 0 2)
    ∷ end
    ∷ dram_accept
    ∷ dram_line (pos 0) zeros
    ∷ end
    ∷ end
    ∷ pop
    ∷ []

abbrev any_of : Test
any_of id cookie is_write = true

abbrev stores : Test
stores id cookie is_write = is_write

run-balanced_example :
    (d : DCache) × (init 8 2 1 (pos 1) (pos 2) (pos 4) (pos 1) ≡ some d)
    × (r : Run) × (run calls (fresh d) ≡ some r)
    × (sum_of (req_weight any_of) r.taken
        ≡ in_flight any_of r.cache + sum_of (resp_weight any_of) r.answered)
run-balanced_example =
    run-balanced any_of 8 2 1 (pos 1) (pos 2) (pos 4) (pos 1) calls (omega arith) (omega arith)
      (omega arith) (omega arith)

abbrev two_ports : DCache
two_ports = record cache {
  pipe =
      record { valid = true; req = req true 8 5 1 }
      ∷ record { valid = true; req = req false 8 0 2 }
      ∷ [];
}

process_pipes-process_plain_example : process_pipes two_ports ≡ process_plain 0 2 two_ports
process_pipes-process_plain_example = process_pipes-process_plain two_ports

-- The line at 8 has come for a store and a load.
abbrev entry : Mshr
entry = record no_mshr {
  valid = true;
  line_addr = 8;
  set_no = 1;
  way_no = 0;
  fill_sent = true;
  fill_ready = true;
  line = zeros;
  waiters =
      record { req = req true 8 5 1; drop = false }
      ∷ record { req = req false 8 0 2; drop = false }
      ∷ [];
}

abbrev arrived : DCache
arrived = record cache { mshrs = entry ∷ [] }

abbrev waiting_load : Waiter
waiting_load = record { req = req false 8 0 2; drop = false }

complete_fill-word_example :
    let way = way_at (complete_fill 0 arrived) 1 0 in
    let m' = get_or (complete_fill 0 arrived).mshrs 0 no_mshr in
    (way.valid ≡ true)
    × (way.reserved ≡ false)
    × (way.tag ≡ tag_of arrived 8)
    × (way.dirty ≡ true)
    × (load_word_from_line 8 way.bytes 12
        ≡ word_after 1 entry.waiters 12 (load_word_from_line 8 zeros 12))
    × (m'.draining ≡ true)
    × (m'.drain_idx ≡ 0)
    × (waiter_resp 8 m' waiting_load
        ≡ resp_of waiting_load.req (word_after 1 entry.waiters 8 (load_word_from_line 8 zeros 8)))
complete_fill-word_example =
    complete_fill-word 1 0 arrived 12 waiting_load refl (omega arith) refl refl
      (refl, λ j. omega (arith, get_or-replicate {A = ℕ} 8 j 0)) (omega arith)

find_victim-IsVictim_example : IsVictim (ways_of cache 1) (find_victim cache 1)
find_victim-IsVictim_example = find_victim-IsVictim cache 1

-- The entry has still to ask for its line.
abbrev asking : DCache
asking = record cache { mshrs = record entry { fill_sent = false; fill_ready = false } ∷ [] }

abbrev later : List Call
later = end ∷ begin ∷ send (req false 8 0 2) ∷ end ∷ pop ∷ []

run-IsNextRequest_example :
    IsNextRequest asking.mshrs (dram_req_id asking) (dram_req_is_write asking)
    × (r : Run) × (run later (fresh (dram_req_accepted asking)) ≡ some r)
    × (has_dram_req r.cache ≡ false)
unfolding has_dram_req pick_dram_mshr find_index
run-IsNextRequest_example = run-IsNextRequest asking later refl (omega arith)

line_addr_of-split_example :
    (set_index cache 20 < 2)
    × (line_addr_of cache (set_index cache 20) (tag_of cache 20) ≡ line_align 20 8)
line_addr_of-split_example = line_addr_of-split cache 3 29 20 refl refl (omega arith) (omega arith)

abbrev push : DataMemReq → DCache → DCache
push r d = (try_cpu_req d r).1

abbrev next : DCache → DCache
next d = tick_end (tick_begin d)

-- The line that memory returns to entry 0, which has asked for it.
abbrev filled : DCache → Option DCache
filled d = dram_resp (dram_req_accepted d) (pos 0) zeros

-- A load takes the only entry; a load of the same line takes port 0 and a store of 1 to another line
-- port 1, where it waits for the entry; the younger store of 2 to the same word comes into port 0.
abbrev waiting : DCache
waiting =
    push (req true 8 2 3)
      (next (push (req true 8 1 2) (push (req false 4 0 1) (next (push (req false 0 0 0) cache)))))

abbrev refilled : Option DCache
refilled = Option.bind (filled (next waiting)) (λ d. filled (next (next (next d))))

-- Ports are looked up in their order, not in the order of age: the younger store takes the entry and the
-- older one joins it, so the fill leaves the value of the older store.
older_store_wins :
    Option.map (λ d. (way_at (next d) 1 0).bytes) refilled
    ≡ some (1 ∷ 0 ∷ 0 ∷ 0 ∷ 0 ∷ 0 ∷ 0 ∷ 0 ∷ [])
unfolding Option.bind dram_resp resp_at take_line dram_req_accepted accepted_at pick_dram_mshr
    find_index tick_end step_drain drain_entry next_waiter waiter_resp complete_from complete_fill
    merge_waiters start_drain process_pipes process_from tick_hits emit_hits try_cpu_req accept_at
    free_port process_pipe look_up look_up_at join_mshr store_hit load_hit miss miss_at new_mshr
    find_mshr find_hit find_victim alloc_mshr scan_lru set_index tag_of line_addr_of line_align
    line_offset store_lane apply_store_to_line load_word_from_line
older_store_wins = refl
