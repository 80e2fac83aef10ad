-- ===== src/DCache/Shape.antt =====
-- The tables of a data cache keep their sizes.
use ooo_superscalar_risc_sim.Common.{
  ℕ, zero, suc, ◌+◌, ◌≡◌, ◌∙◌, refl, false, not, ◌||◌, Option, none, some, leb, length, get_or, set,
  length-set, if_lem,
}
use ooo_superscalar_risc_sim.MemTypes.{DataMemReq, line_align}
use ooo_superscalar_risc_sim.DCache.State.{
  Mshr, Pipe, HitPend, DCache, no_mshr, no_pipe, no_hit_pend, put_pipe, put_mshr, find_mshr,
  find_hit, set_index, tag_of,
}
use ooo_superscalar_risc_sim.DCache.Pipes.{
  Shadow, join_mshr, store_hit, load_hit, miss_at, miss, look_up_at, look_up, process_pipe,
  process_from, process_pipes, touch,
}

abbrev pub SameShape : DCache → DCache → Type 0
SameShape d' d =
    (length d'.pipe ≡ length d.pipe)
    × (length d'.hit_pend ≡ length d.hit_pend)
    × (length d'.mshrs ≡ length d.mshrs)
    × (d'.line_bytes ≡ d.line_bytes)

pub SameShape-trans : (a b c : DCache) → SameShape a b → SameShape b c → SameShape a c
SameShape-trans a b c (x, y, z, w) (x', y', z', w') = (x ∙ x', y ∙ y', z ∙ z', w ∙ w')

hold-SameShape : (p : ℕ) (v : Pipe) (d : DCache) → SameShape (put_pipe p v d) d
hold-SameShape p v d = (length-set d.pipe p v, refl, refl, refl)

pub put_mshr-SameShape : (i : ℕ) (m : Mshr) (d : DCache) → SameShape (put_mshr i m d) d
put_mshr-SameShape i m d = (refl, refl, length-set d.mshrs i m, refl)

put_hit-SameShape :
    (p : ℕ) (h : HitPend) (d : DCache) → SameShape (record d { hit_pend = set d.hit_pend p h }) d
put_hit-SameShape p h d = (refl, length-set d.hit_pend p h, refl, refl)

join-SameShape : (p : ℕ) (r : DataMemReq) (i : ℕ) (d : DCache) → SameShape (join_mshr p r i d) d
unfolding join_mshr
join-SameShape p r i d =
    let m : Mshr = get_or d.mshrs i no_mshr in
    if_lem (λ (t : DCache). SameShape t d) (m.fill_ready || m.draining) (hold-SameShape p _ d)
      (if_lem (λ (t : DCache). SameShape t d) (leb d.mshr_waiters (length m.waiters))
        (hold-SameShape p _ d) (put_mshr-SameShape i _ d))

load-SameShape :
    (p s w : ℕ) (r : DataMemReq) (d : DCache) (shadow : Option Shadow)
    → SameShape (load_hit p s w r d shadow) d
unfolding load_hit
load-SameShape p s w r d shadow =
    if_lem (λ (t : DCache). SameShape t d) (get_or d.hit_pend p no_hit_pend).valid
      (hold-SameShape p _ d) (put_hit-SameShape p _ d)

miss_at-SameShape :
    (o v : Option ℕ) (p : ℕ) (r : DataMemReq) (s : ℕ) (d : DCache)
    → SameShape (miss_at o v p r s d) d
unfolding miss_at
miss_at-SameShape none v p r s d = hold-SameShape p _ d
miss_at-SameShape (some i) none p r s d = hold-SameShape p _ d
miss_at-SameShape (some i) (some victim) p r s d = put_mshr-SameShape i _ d

look_up_at-SameShape :
    (o v : Option ℕ) (p : ℕ) (r : DataMemReq) (d : DCache) (shadow : Option Shadow)
    → SameShape (look_up_at o v p r d shadow).0 d
unfolding look_up_at store_hit miss
look_up_at-SameShape (some i) v p r d shadow = join-SameShape p r i d
look_up_at-SameShape none (some w) p r d shadow =
    if_lem (λ (t : DCache × Option Shadow). SameShape t.0 d) r.write (refl, refl, refl, refl)
      (load-SameShape p (set_index d r.addr) w r (touch (set_index d r.addr) w d) shadow)
look_up_at-SameShape none none p r d shadow = miss_at-SameShape _ _ p r (set_index d r.addr) d

look_up-SameShape :
    (p : ℕ) (r : DataMemReq) (d : DCache) (shadow : Option Shadow)
    → SameShape (look_up p r d shadow).0 d
unfolding look_up
look_up-SameShape p r d shadow =
    look_up_at-SameShape (find_mshr d (line_align r.addr d.line_bytes))
      (find_hit d (set_index d r.addr) (tag_of d r.addr)) p r d shadow

pub process_pipe-SameShape :
    (p : ℕ) (d : DCache) (shadow : Option Shadow) → SameShape (process_pipe p d shadow).0 d
unfolding process_pipe
process_pipe-SameShape p d shadow =
    let slot : Pipe = get_or d.pipe p no_pipe in
    let idle : Pipe = record slot { valid = false } in
    let d' : DCache = put_pipe p idle d in
    if_lem (λ (t : DCache × Option Shadow). SameShape t.0 d) (not slot.valid)
      (refl, refl, refl, refl)
      (SameShape-trans (look_up p slot.req d' shadow).0 d' d
        (look_up-SameShape p slot.req d' shadow) (hold-SameShape p idle d))

process_from-SameShape :
    (p n : ℕ) (d : DCache) (shadow : Option Shadow) → SameShape (process_from p n d shadow) d
unfolding process_from
process_from-SameShape p zero d shadow = (refl, refl, refl, refl)
process_from-SameShape p (suc n) d shadow =
    let d' : DCache = (process_pipe p d shadow).0 in
    let shadow' : Option Shadow = (process_pipe p d shadow).1 in
    SameShape-trans (process_from (p + 1) n d' shadow') d' d
      (process_from-SameShape (p + 1) n d' shadow') (process_pipe-SameShape p d shadow)

pub process_pipes-SameShape : (d : DCache) → SameShape (process_pipes d) d
unfolding process_pipes
process_pipes-SameShape d = process_from-SameShape 0 d.ufp_ports d none
