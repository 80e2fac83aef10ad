-- ===== src/ICache/Tests.antt =====
-- A cache of two sets of one way, lines of eight bytes, one miss entry and fetch groups of four words.
use ooo_superscalar_risc_sim.Common.{
  ℕ, ◌+◌, ◌*◌, ◌<◌, ◌≤◌, ◌≡◌, refl, arith, none, some, List, [], ◌∷◌, replicate, length, get_or,
  true,
}
use ooo_superscalar_risc_sim.Common.Int.{pos}
use ooo_superscalar_risc_sim.IdealMemory.{ImemResp}
use ooo_superscalar_risc_sim.MemTypes.{line_align, line_offset}
use ooo_superscalar_risc_sim.ICache.Fetch.{build_resp_bounds}
use ooo_superscalar_risc_sim.ICache.Flushed.{
  Event, end, dram_accept, dram_line, happen, flush-no_resp,
}
use ooo_superscalar_risc_sim.ICache.State.{ICache, no_mshr, init}
use ooo_superscalar_risc_sim.ICache.{build_resp, group_size, fetch_word, flush, pop_cpu_resp}

abbrev cache : ICache
cache = init 8 2 1 (pos 1) (pos 4) (pos 1)

-- A fetch at 4 has missed, and its line is still to be asked for.
abbrev missed : ICache
missed = record cache {
  mshrs = record no_mshr { valid = true; has_waiter = true; req_pc = 4; line = replicate 8 0 } ∷ [];
}

abbrev events : List Event
events = dram_accept ∷ dram_line (pos 0) (replicate 8 7) ∷ end ∷ end ∷ []

flush-no_resp_example :
    (c' : ICache) × (happen events (flush missed) ≡ some c') × ((pop_cpu_resp c').0 ≡ none)
flush-no_resp_example = flush-no_resp missed events (omega arith)

abbrev line : List ℕ
line = 1 ∷ 0 ∷ 0 ∷ 0 ∷ 2 ∷ 0 ∷ 0 ∷ 0 ∷ []

build_resp_bounds_example :
    (r : ImemResp) × (build_resp cache 4 line ≡ some r)
    × (0 < r.count)
    × (r.count ≤ 4)
    × (length r.words ≡ r.count)
    × (4 + 4 * r.count ≤ 8)
    × (r.count < 4 → 4 + 4 * r.count ≡ 8)
    × ((i : ℕ) → i < r.count → get_or r.words i 0 ≡ fetch_word line (4 + 4 * i))
build_resp_bounds_example =
    build_resp_bounds cache 1 29 4 line refl refl (omega arith) refl (omega arith) refl

-- A program counter two bytes before the end of a line makes the copy read beyond it.
misaligned_fetch : build_resp cache 6 line ≡ none
unfolding build_resp group_size line_align line_offset
misaligned_fetch = refl
