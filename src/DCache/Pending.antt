-- ===== src/DCache/Pending.antt =====
-- No step but an answer of memory changes which entry memory is to answer.
use ooo_superscalar_risc_sim.Common.{
  ℕ, zero, suc, ◌+◌, ◌≡◌, ◌∙◌, refl, false, not, ◌||◌, Option, none, some, leb, length, get_or,
  if_lem, ◌&&◌, if◌then◌else◌, Bool,
}
use ooo_superscalar_risc_sim.MemTypes.{DataMemReq, line_align}
use ooo_superscalar_risc_sim.DCache.State.{
  Mshr, Pipe, DCache, no_mshr, no_pipe, no_hit_pend, put_pipe, find_mshr, find_hit, set_index,
  tag_of,
}
use ooo_superscalar_risc_sim.DCache.Pipes.{
  Shadow, join_mshr, store_hit, load_hit, miss_at, miss, look_up_at, look_up, process_pipe,
  process_from, process_pipes, touch, free_port, accept_at, try_cpu_req,
}
use ooo_superscalar_risc_sim.Common.Search.{find_index}
use ooo_superscalar_risc_sim.DCache.Fills.{
  start_drain, complete_fill, complete_from, drain_entry, is_draining, step_drain,
}
use ooo_superscalar_risc_sim.DCache.{tick_hits, tick_end}

-- The entry that memory is to answer stays.
abbrev pub SameAsk : DCache → DCache → Type 0
SameAsk d' d = d'.dram_mshr ≡ d.dram_mshr

SameAsk-trans : (a b c : DCache) → SameAsk a b → SameAsk b c → SameAsk a c
SameAsk-trans a b c x y = x ∙ y

join-SameAsk : (p : ℕ) (r : DataMemReq) (i : ℕ) (d : DCache) → SameAsk (join_mshr p r i d) d
unfolding join_mshr
join-SameAsk p r i d =
    let m : Mshr = get_or d.mshrs i no_mshr in
    if_lem (λ (t : DCache). SameAsk t d) (m.fill_ready || m.draining) refl
      (if_lem (λ (t : DCache). SameAsk t d) (leb d.mshr_waiters (length m.waiters)) refl refl)

load-SameAsk :
    (p s w : ℕ) (r : DataMemReq) (d : DCache) (shadow : Option Shadow)
    → SameAsk (load_hit p s w r d shadow) d
unfolding load_hit
load-SameAsk p s w r d shadow =
    if_lem (λ (t : DCache). SameAsk t d) (get_or d.hit_pend p no_hit_pend).valid refl refl

miss_at-SameAsk :
    (o v : Option ℕ) (p : ℕ) (r : DataMemReq) (s : ℕ) (d : DCache) → SameAsk (miss_at o v p r s d) d
unfolding miss_at
miss_at-SameAsk none v p r s d = refl
miss_at-SameAsk (some i) none p r s d = refl
miss_at-SameAsk (some i) (some victim) p r s d = refl

look_up_at-SameAsk :
    (o v : Option ℕ) (p : ℕ) (r : DataMemReq) (d : DCache) (shadow : Option Shadow)
    → SameAsk (look_up_at o v p r d shadow).0 d
unfolding look_up_at store_hit miss
look_up_at-SameAsk (some i) v p r d shadow = join-SameAsk p r i d
look_up_at-SameAsk none (some w) p r d shadow =
    if_lem (λ (t : DCache × Option Shadow). SameAsk t.0 d) r.write refl
      (load-SameAsk p (set_index d r.addr) w r (touch (set_index d r.addr) w d) shadow)
look_up_at-SameAsk none none p r d shadow = miss_at-SameAsk _ _ p r (set_index d r.addr) d

look_up-SameAsk :
    (p : ℕ) (r : DataMemReq) (d : DCache) (shadow : Option Shadow)
    → SameAsk (look_up p r d shadow).0 d
unfolding look_up
look_up-SameAsk p r d shadow =
    look_up_at-SameAsk (find_mshr d (line_align r.addr d.line_bytes))
      (find_hit d (set_index d r.addr) (tag_of d r.addr)) p r d shadow

process_pipe-SameAsk :
    (p : ℕ) (d : DCache) (shadow : Option Shadow) → SameAsk (process_pipe p d shadow).0 d
unfolding process_pipe
process_pipe-SameAsk p d shadow =
    let slot : Pipe = get_or d.pipe p no_pipe in
    let idle : Pipe = record slot { valid = false } in
    let d' : DCache = put_pipe p idle d in
    if_lem (λ (t : DCache × Option Shadow). SameAsk t.0 d) (not slot.valid) refl
      (SameAsk-trans (look_up p slot.req d' shadow).0 d' d (look_up-SameAsk p slot.req d' shadow)
        refl)

process_from-SameAsk :
    (p n : ℕ) (d : DCache) (shadow : Option Shadow) → SameAsk (process_from p n d shadow) d
unfolding process_from
process_from-SameAsk p zero d shadow = refl
process_from-SameAsk p (suc n) d shadow =
    let d' : DCache = (process_pipe p d shadow).0 in
    let shadow' : Option Shadow = (process_pipe p d shadow).1 in
    SameAsk-trans (process_from (p + 1) n d' shadow') d' d
      (process_from-SameAsk (p + 1) n d' shadow') (process_pipe-SameAsk p d shadow)

process_pipes-SameAsk : (d : DCache) → SameAsk (process_pipes d) d
unfolding process_pipes
process_pipes-SameAsk d = process_from-SameAsk 0 d.ufp_ports d none

complete_fill-SameAsk : (i : ℕ) (d : DCache) → SameAsk (complete_fill i d) d
unfolding complete_fill start_drain
complete_fill-SameAsk i d =
    let m : Mshr = get_or d.mshrs i no_mshr in
    if_lem (λ (t : DCache). SameAsk t d) (not m.fill_ready || m.draining) refl refl

complete_from-SameAsk : (i n : ℕ) (d : DCache) → SameAsk (complete_from i n d) d
unfolding complete_from
complete_from-SameAsk i zero d = refl
complete_from-SameAsk i (suc n) d =
    let m : Mshr = get_or d.mshrs i no_mshr in
    let d' : DCache = if m.valid && m.fill_ready then complete_fill i d else d in
    SameAsk-trans (complete_from (i + 1) n d') d' d (complete_from-SameAsk (i + 1) n d') (
      if_lem (λ (t : DCache). SameAsk t d) (m.valid && m.fill_ready) (complete_fill-SameAsk i d)
        refl)

drain_entry-SameAsk : (i : ℕ) (d : DCache) → SameAsk (drain_entry i d) d
unfolding drain_entry
drain_entry-SameAsk i d =
    let m : Mshr = get_or d.mshrs i no_mshr in
    if_lem (λ (t : DCache). SameAsk t d) (not m.valid || not m.draining) refl refl

step_drain-SameAsk : (d : DCache) → SameAsk (step_drain d) d
unfolding step_drain
step_drain-SameAsk d = go d.drain_mshr (find_index is_draining d.mshrs)
  where
    go :
        (o p : Option ℕ)
        → SameAsk
            (elim o [
              | some i ↦ drain_entry i d
              | none ↦ elim p [ some i ↦ drain_entry i d | none ↦ d ]
            ])
            d
    go (some i) p = drain_entry-SameAsk i d
    go none (some i) = drain_entry-SameAsk i d
    go none none = refl

pub tick_end-SameAsk : (d : DCache) → SameAsk (tick_end d) d
unfolding tick_end tick_hits
tick_end-SameAsk d =
    let looked = process_pipes (tick_hits d) in
    let filled = complete_from 0 (length looked.mshrs) looked in
    SameAsk-trans (step_drain filled) filled d (step_drain-SameAsk filled) (
      SameAsk-trans filled looked d (complete_from-SameAsk 0 (length looked.mshrs) looked)
        (SameAsk-trans looked (tick_hits d) d (process_pipes-SameAsk (tick_hits d)) refl))

accept_at-SameAsk : (o : Option ℕ) (d : DCache) (new : DataMemReq) → SameAsk (accept_at o d new).1 d
unfolding accept_at
accept_at-SameAsk none d new = refl
accept_at-SameAsk (some p) d new = refl

pub try_cpu_req-SameAsk : (d : DCache) (new : DataMemReq) → SameAsk (try_cpu_req d new).1 d
unfolding try_cpu_req
try_cpu_req-SameAsk d new =
    if_lem (λ (t : Bool × DCache). SameAsk t.1 d) _ refl
      (accept_at-SameAsk (free_port d.pipe d.hit_pend) d new)
