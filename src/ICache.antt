-- ===== src/ICache.antt =====
-- src/mem/icache.cpp and include/mem/icache.hpp: the non-blocking instruction cache. An index that may
-- be -1 is an Option; `mshrs` holds the entries that the loops over `mshr_count_` visit; a failed assert
-- or a read beyond the end of a line, which only a misaligned program counter makes, is `none`.
pub mod State
pub mod Quiet
pub mod Flushed
pub mod Fetch
mod Tests
use ooo_superscalar_risc_sim.Common.{
  ℕ, zero, suc, ◌+◌, ◌-◌, ◌*◌, ◌/◌, ◌%◌, ◌^◌, Bool, true, false, not, ◌&&◌, ◌||◌, Option, none,
  some, List, [], ◌∷◌, if◌then◌else◌, ltb, leb, ◌==◌, length, get_or, set, take, tabulate,
  replicate, map, ◌>>=◌,
}
use ooo_superscalar_risc_sim.Common.Int.{ℤ, Word, index}
use ooo_superscalar_risc_sim.Common.Search.{find_index}
use ooo_superscalar_risc_sim.IdealMemory.{ImemResp}
use ooo_superscalar_risc_sim.MemTypes.{line_align}
use ooo_superscalar_risc_sim.ICache.State.{
  Way, Mshr, Pipe, HitPend, ICache, no_way, no_mshr, no_pipe, no_hit_pend, set_index, tag_of,
  way_at, put_way, put_mshr, find_hit, find_victim, find_mshr, alloc_mshr,
}

abbrev pub reset : ICache → ICache
reset c = record c {
  cache = map (map (λ _. record no_way { bytes = replicate c.line_bytes 0 })) c.cache;
  mshrs = map (λ _. no_mshr) c.mshrs;
  pipe = no_pipe;
  hit_pend = no_hit_pend;
  resp = none;
  dram_mshr = none;
  lru_clock = 1;
}

abbrev pub flush_mshr : Mshr → Mshr
flush_mshr m = if m.valid then record m { drop = true; has_waiter = false } else m

-- What is on the way to the core is dropped; the fills go on.
unfoldable pub flush : ICache → ICache
flush c = record c {
  hit_pend = if c.hit_pend.valid then record c.hit_pend { drop = true } else c.hit_pend;
  pipe = no_pipe;
  resp = none;
  mshrs = map flush_mshr c.mshrs;
}

abbrev pub is_busy : Option ImemResp → Bool
is_busy none = false
is_busy (some r) = true

unfoldable pub can_accept : ICache → Bool
can_accept c = not c.pipe.valid && (not c.hit_pend.valid && not (is_busy c.resp))

unfoldable pub try_cpu_req : ICache → Word → Bool × ICache
try_cpu_req c at =
    if can_accept c
    then (true, record c { pipe = record { valid = true; pc = at } })
    else (false, c)

abbrev pub fetch_word : List ℕ → ℕ → Word
fetch_word line off =
    get_or line off 0
    + get_or line (off + 1) 0 * 256
    + get_or line (off + 2) 0 * 65536
    + get_or line (off + 3) 0 * 16777216

-- The words from an offset to the end of the line, at most a fetch group and at least one.
unfoldable pub group_size : ℕ → ℕ → ℕ → ℕ
group_size line_bytes fetch_width off =
    let max_words = (line_bytes - off) / 4 in
    let fitting = if ltb max_words fetch_width then max_words else fetch_width in
    if ltb fitting 1 then 1 else fitting

-- Each word is copied from four bytes of the line.
unfoldable pub build_resp : ICache → Word → List ℕ → Option ImemResp
build_resp c at line =
    let off = at - line_align at c.line_bytes in
    let n = group_size c.line_bytes c.fetch_width off in
    if leb (off + 4 * n) (length line)
    then some
        (record { pc = at; count = n; words = tabulate (λ i. fetch_word line (off + 4 * i)) 0 n })
    else none

-- With the free entry and the victim that were found, if any.
unfoldable pub miss_at : Option ℕ → Option ℕ → Word → ℕ → ICache → ICache
miss_at none victim at s c = record c { pipe = record { valid = true; pc = at } }
miss_at (some i) none at s c = record c { pipe = record { valid = true; pc = at } }
miss_at (some i) (some victim) at s c =
    put_way s victim (record (way_at c s victim) { reserved = true })
      (put_mshr i
        (record no_mshr {
          valid = true;
          line_addr = line_align at c.line_bytes;
          req_pc = at;
          set_no = s;
          way_no = victim;
          has_waiter = true;
          line = replicate c.line_bytes 0;
        })
        c)

-- With the way and the entry that hold the line, if any; the pipe is already empty.
unfoldable pub look_up_at : Option ℕ → Option ℕ → Word → ICache → ICache
look_up_at (some w) entry at c =
    let s = set_index c at in
    let way = record (way_at c s w) { lru = c.lru_clock } in
    record (put_way s w way c) {
      lru_clock = (c.lru_clock + 1) % 2 ^ 64;
      hit_pend = record {
        valid = true;
        drop = false;
        cycles_left = c.hit_latency;
        pc = at;
        line = way.bytes;
      };
    }
look_up_at none (some i) at c =
    let m = get_or c.mshrs i no_mshr in
    if m.fill_ready
    then record c { pipe = record { valid = true; pc = at } }
    else put_mshr i (record m { has_waiter = true; req_pc = at; drop = false }) c
look_up_at none none at c =
    let s = set_index c at in miss_at (alloc_mshr c) (find_victim c s) at s c

unfoldable pub process_pipe : ICache → ICache
process_pipe c =
    let at = c.pipe.pc in
    let c' = record c { pipe = no_pipe } in
    if not c.pipe.valid
    then c
    else look_up_at (find_hit c' (set_index c' at) (tag_of c' at))
        (find_mshr c' (line_align at c'.line_bytes)) at c'

abbrev pub sends_fill : Mshr → Bool
sends_fill m = m.valid && not m.fill_sent

unfoldable pub pick : ICache → Option ℕ
pick c = find_index sends_fill c.mshrs

abbrev is_some : Option ℕ → Bool
is_some none = false
is_some (some i) = true

unfoldable pub has_dram_req : ICache → Bool
has_dram_req c = not (is_some c.dram_mshr) && is_some (pick c)

abbrev picked : ICache → Option ℕ → Mshr
picked c none = no_mshr
picked c (some i) = get_or c.mshrs i no_mshr

unfoldable pub dram_req_addr : ICache → Word
dram_req_addr c = (picked c (pick c)).line_addr

unfoldable pub dram_req_id : ICache → ℕ
dram_req_id c = elim (pick c) [ none ↦ 0 | some i ↦ i ]

unfoldable pub accepted_at : Option ℕ → ICache → ICache
accepted_at none c = c
accepted_at (some i) c =
    record (put_mshr i (record (get_or c.mshrs i no_mshr) { fill_sent = true }) c) {
      dram_mshr = some i;
    }

unfoldable pub dram_req_accepted : ICache → ICache
dram_req_accepted c = accepted_at (pick c) c

abbrev pub is_at : Option ℕ → ℕ → Bool
is_at none i = false
is_at (some j) i = j == i

unfoldable pub resp_at : Option ℕ → List ℕ → ICache → Option ICache
resp_at none bytes c = some c
resp_at (some i) bytes c =
    let m = get_or c.mshrs i no_mshr in
    if not m.valid
    then some c
    else if ltb (length bytes) c.line_bytes
    then none
    else some
        (record (put_mshr i (record m { line = take c.line_bytes bytes; fill_ready = true }) c) {
          dram_mshr = if is_at c.dram_mshr i then none else c.dram_mshr;
        })

unfoldable pub dram_resp : ICache → ℤ → List ℕ → Option ICache
dram_resp c mshr_idx bytes = resp_at (index mshr_idx (length c.mshrs)) bytes c

-- The line goes into its way, once.
unfoldable pub install : Mshr → ICache → ICache
install m c =
    let w = way_at c m.set_no m.way_no in
    if w.reserved || (not w.valid || not (w.tag == tag_of c m.line_addr))
    then record (put_way m.set_no m.way_no
        (record {
          valid = true;
          reserved = false;
          tag = tag_of c m.line_addr;
          bytes = m.line;
          lru = c.lru_clock;
        })
        c) { lru_clock = (c.lru_clock + 1) % 2 ^ 64 }
    else put_way m.set_no m.way_no (record w { reserved = false }) c

-- An entry whose answer is still wanted waits until the core has taken the last one.
unfoldable pub complete_mshr : ℕ → ICache → Option ICache
complete_mshr i c =
    let m = get_or c.mshrs i no_mshr in
    let c' = install m c in
    if not m.fill_ready
    then some c
    else if m.drop || not m.has_waiter
    then some (put_mshr i no_mshr c')
    else if is_busy c.resp || c.hit_pend.valid
    then some c'
    else (build_resp c m.req_pc m.line >>= λ r.
        some (put_mshr i no_mshr (record c' { resp = some r })))

unfoldable pub complete_from : ℕ → ℕ → ICache → Option ICache
complete_from i zero c = some c
complete_from i (suc n) c =
    let m = get_or c.mshrs i no_mshr in
    (if m.valid && m.fill_ready then complete_mshr i c else some c) >>= λ c'.
    complete_from (i + 1) n c'

unfoldable pub tick_hit : ICache → Option ICache
tick_hit c =
    let h = c.hit_pend in
    let counted = record h { cycles_left = h.cycles_left - 1 } in
    if not h.valid
    then some c
    else if ltb 1 h.cycles_left
    then some (record c { hit_pend = counted })
    else if h.drop
    then some (record c { hit_pend = no_hit_pend })
    else if is_busy c.resp
    then some (record c { hit_pend = counted })
    else (build_resp c h.pc h.line >>= λ r.
        some (record c { resp = some r; hit_pend = no_hit_pend }))

unfoldable pub tick_end : ICache → Option ICache
tick_end c = tick_hit c >>= λ d. let c' = process_pipe d in complete_from 0 (length c'.mshrs) c'

unfoldable pub pop_cpu_resp : ICache → Option ImemResp × ICache
pop_cpu_resp c = (c.resp, record c { resp = none })
