-- ===== src/DCache/Order.antt =====
-- The order of the requests to memory.
use ooo_superscalar_risc_sim.Common.{
  ℕ, ◌<◌, ◌≡◌, refl, arith, Bool, true, false, Option, none, some, List, length, get_or,
  if◌then◌else◌,
}
use ooo_superscalar_risc_sim.Common.Search.{find_index, find_index-some, find_index-none}
use ooo_superscalar_risc_sim.DCache.Fills.{
  wants_wb, sends_wb, sends_fill, pick_dram_mshr, is_some, has_dram_req, dram_req_is_write,
  dram_req_id, or_else, id_or_zero, picked,
}
use ooo_superscalar_risc_sim.DCache.State.{DCache, Mshr, no_mshr}

-- The request that is put to memory is a write-back that is still to be sent, or a fill whose own
-- write-back is done, while no entry has a write-back to send.
abbrev pub IsNextRequest : List Mshr → ℕ → Bool → Type 0
IsNextRequest ms i is_write =
    (i < length ms)
    × ((get_or ms i no_mshr).valid ≡ true)
    × (if is_write
        then wants_wb (get_or ms i no_mshr) ≡ true
        else ((get_or ms i no_mshr).wb_done ≡ true)
          × ((get_or ms i no_mshr).fill_sent ≡ false)
          × ((j : ℕ) → j < length ms → sends_wb (get_or ms j no_mshr) ≡ false))

picked-IsNextRequest :
    (d : DCache) (o p : Option ℕ)
    → find_index sends_wb d.mshrs ≡ o
    → find_index sends_fill d.mshrs ≡ p
    → is_some (or_else o p) ≡ true
    → IsNextRequest d.mshrs (id_or_zero (or_else o p)) (wants_wb (picked d (or_else o p)))
picked-IsNextRequest d none none e f h = cc
picked-IsNextRequest d (some i) p e f h =
    let (inside, wants, _) = find_index-some sends_wb d.mshrs no_mshr i e in
    let w : wants_wb (get_or d.mshrs i no_mshr) ≡ true = ground arith in
    (inside, ground arith, rw w refl)
picked-IsNextRequest d none (some i) e f h =
    let (inside, wants, _) = find_index-some sends_fill d.mshrs no_mshr i f in
    let quiet =
      λ (j : ℕ) (l : j < length d.mshrs). find_index-none sends_wb d.mshrs no_mshr j e l in
    let w : wants_wb (get_or d.mshrs i no_mshr) ≡ false = ground (arith, quiet i inside) in
    (inside, ground arith, rw w (ground arith, ground arith, quiet))

-- What the cache asks of memory, while it asks.
pub has_dram_req-IsNextRequest :
    (d : DCache)
    → has_dram_req d ≡ true
    → IsNextRequest d.mshrs (dram_req_id d) (dram_req_is_write d)
unfolding has_dram_req dram_req_id dram_req_is_write pick_dram_mshr
has_dram_req-IsNextRequest d h =
    let o = find_index sends_wb d.mshrs in
    let p = find_index sends_fill d.mshrs in
    let asks : is_some (or_else o p) ≡ true = ground arith in
    picked-IsNextRequest d o p refl refl asks
