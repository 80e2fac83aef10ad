-- ===== src/DCache/Pipes.antt =====
-- src/mem/dcache.cpp: requests of the core into the compare pipes, and the tag lookup of a cycle. A
-- store that hits leaves its line in a shadow, which the later ports of the same cycle read.
use ooo_superscalar_risc_sim.Common.{
  ℕ, zero, suc, ◌+◌, ◌%◌, ◌^◌, Bool, true, false, not, ◌&&◌, ◌||◌, Option, none, some, List, [],
  ◌∷◌, ◌++◌, if◌then◌else◌, leb, ◌==◌, length, get_or, set, replicate,
}
use mathlib.Core.Option
use ooo_superscalar_risc_sim.Common.Int.{Word}
use ooo_superscalar_risc_sim.MemTypes.{DataMemReq, DataMemResp, line_align}
use ooo_superscalar_risc_sim.DCache.Line.{apply_store_to_line, load_word_from_line}
use ooo_superscalar_risc_sim.DCache.State.{
  Mshr, Pipe, HitPend, DCache, no_mshr, no_pipe, no_hit_pend, set_index, tag_of, line_addr_of,
  way_at, put_way, put_mshr, put_pipe, find_hit, find_victim, alloc_mshr, find_mshr,
}

-- The first port whose pipe and pending hit are both free.
unfoldable pub free_port : List Pipe → List HitPend → Option ℕ
free_port [] hs = none
free_port (p ∷ ps) [] = none
free_port (p ∷ ps) (h ∷ hs) =
    let rest = Option.map suc (free_port ps hs) in
    if not p.valid && not h.valid then some 0 else rest

-- The request enters the compare pipe of the port, if one is free.
unfoldable pub accept_at : Option ℕ → DCache → DataMemReq → Bool × DCache
accept_at none d new = (false, d)
accept_at (some p) d new = (
  true,
  record d {
    pipe = set d.pipe p (record { valid = true; req = new });
    cpu_accepts = d.cpu_accepts + 1;
  },
)

unfoldable pub try_cpu_req : DCache → DataMemReq → Bool × DCache
try_cpu_req d new =
    if leb d.ufp_ports d.cpu_accepts
    then (false, d)
    else accept_at (free_port d.pipe d.hit_pend) d new

-- The copy of a line that a store of this cycle has changed.
pub record Shadow : Type 0 where
  pub set_no : ℕ
  pub way_no : ℕ
  pub line : List ℕ

-- The shadow's line if it is that of the way, else the way's own.
abbrev pub seen : Option Shadow → ℕ → ℕ → List ℕ → List ℕ
seen none s w own = own
seen (some sh) s w own = if sh.set_no == s && sh.way_no == w then sh.line else own

-- The request goes back into its pipe.
abbrev pub hold : ℕ → DataMemReq → DCache → DCache
hold p r d = put_pipe p (record { valid = true; req = r }) d

-- A miss on a line that is being fetched joins its waiters.
unfoldable pub join_mshr : ℕ → DataMemReq → ℕ → DCache → DCache
join_mshr p r i d =
    let m = get_or d.mshrs i no_mshr in
    if m.fill_ready || m.draining
    then hold p r d
    else if leb d.mshr_waiters (length m.waiters)
    then hold p r d
    else put_mshr i (record m { waiters = m.waiters ++ record { req = r; drop = false } ∷ [] }) d

-- `way.lru = lru_clock_++`.
abbrev pub touch : ℕ → ℕ → DCache → DCache
touch s w d = record (put_way s w (record (way_at d s w) { lru = d.lru_clock }) d) {
  lru_clock = (d.lru_clock + 1) % 2 ^ 64;
}

abbrev pub resp_of : DataMemReq → Word → DataMemResp
resp_of req v = record { id = req.id; rdata = v; cookie = req.cookie; is_write = req.write }

-- Both branches leave the stored line in the way and in the shadow.
unfoldable pub store_hit : ℕ → ℕ → DataMemReq → DCache → Option Shadow → DCache × Option Shadow
store_hit s w req d shadow =
    let way = way_at d s w in
    let stored = apply_store_to_line d.line_bytes (seen shadow s w way.bytes) req in
    (
      record (put_way s w (record way { bytes = stored; dirty = true }) d) {
        resp_q = d.resp_q ++ resp_of req 0 ∷ [];
      },
      some (record { set_no = s; way_no = w; line = stored }),
    )

-- A load that hits answers after the hit latency.
unfoldable pub load_hit : ℕ → ℕ → ℕ → DataMemReq → DCache → Option Shadow → DCache
load_hit p s w r d shadow =
    let word = load_word_from_line d.line_bytes (seen shadow s w (way_at d s w).bytes) r.addr in
    let hp = get_or d.hit_pend p no_hit_pend in
    if hp.valid then hold p r d else record d {
      hit_pend = set d.hit_pend p (record {
        valid = true;
        drop = false;
        cycles_left = d.load_hit_latency;
        resp = resp_of r word;
      });
    }

-- A new entry for a line: the way is reserved, and written back first if it is dirty.
unfoldable pub new_mshr : DataMemReq → ℕ → ℕ → DCache → Mshr
new_mshr r s victim d =
    let way = way_at d s victim in
    let dirty = way.valid && way.dirty in
    record no_mshr {
      valid = true;
      line_addr = line_align r.addr d.line_bytes;
      set_no = s;
      way_no = victim;
      line = replicate d.line_bytes 0;
      need_wb = dirty;
      wb_done = not dirty;
      wb_addr = if dirty then line_addr_of d s way.tag else 0;
      wb_data = if dirty then way.bytes else [];
      waiters = record { req = r; drop = false } ∷ [];
    }

-- With the free entry and the victim that were found, if any.
unfoldable pub miss_at : Option ℕ → Option ℕ → ℕ → DataMemReq → ℕ → DCache → DCache
miss_at none victim p r s d = hold p r d
miss_at (some i) none p r s d = hold p r d
miss_at (some i) (some victim) p r s d =
    put_way s victim (record (way_at d s victim) { reserved = true })
      (put_mshr i (new_mshr r s victim d) d)

unfoldable pub miss : ℕ → DataMemReq → ℕ → DCache → DCache
miss p r s d = miss_at (alloc_mshr d) (find_victim d s) p r s d

-- The lookup of a request that has left its pipe, with the entry and the way that hold its line, if any.
unfoldable pub look_up_at :
    Option ℕ → Option ℕ → ℕ → DataMemReq → DCache → Option Shadow → DCache × Option Shadow
look_up_at (some i) way p r d shadow = (join_mshr p r i d, shadow)
look_up_at none (some w) p r d shadow =
    let s = set_index d r.addr in
    if r.write
    then store_hit s w r (touch s w d) shadow
    else (load_hit p s w r (touch s w d) shadow, shadow)
look_up_at none none p r d shadow = (miss p r (set_index d r.addr) d, shadow)

unfoldable pub look_up : ℕ → DataMemReq → DCache → Option Shadow → DCache × Option Shadow
look_up p r d shadow =
    look_up_at (find_mshr d (line_align r.addr d.line_bytes))
      (find_hit d (set_index d r.addr) (tag_of d r.addr)) p r d shadow

unfoldable pub process_pipe : ℕ → DCache → Option Shadow → DCache × Option Shadow
process_pipe p d shadow =
    let slot = get_or d.pipe p no_pipe in
    if not slot.valid
    then (d, shadow)
    else look_up p slot.req (put_pipe p (record slot { valid = false }) d) shadow

-- `n` ports from `p` on.
unfoldable pub process_from : ℕ → ℕ → DCache → Option Shadow → DCache
process_from p zero d shadow = d
process_from p (suc n) d shadow =
    let (d', shadow') = process_pipe p d shadow in process_from (p + 1) n d' shadow'

unfoldable pub process_pipes : DCache → DCache
process_pipes d = process_from 0 d.ufp_ports d none
