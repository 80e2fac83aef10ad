-- ===== src/DCache/Plain.antt =====
-- The shadow of a cycle's stores shows what the cache holds, so the lookups could go without it.
use ooo_superscalar_risc_sim.Common.{
  ℕ, zero, suc, ◌+◌, ◌<◌, ◌≡◌, ◌∙◌, refl, sym, ap, ap₂, arith, Bool, true, false, not, ◌&&◌, ◌||◌,
  Option, none, some, List, [], ◌∷◌, if◌then◌else◌, ◌==◌, leb, length, get_or, set, if_lem,
  get_or-set_self, length-set,
}
use ooo_superscalar_risc_sim.Common.Search.{find_index-some, get_or-set_keeps}
use ooo_superscalar_risc_sim.MemTypes.{DataMemReq, line_align}
use ooo_superscalar_risc_sim.DCache.Line.{apply_store_to_line}
use ooo_superscalar_risc_sim.DCache.Pipes.{
  Shadow, seen, join_mshr, touch, store_hit, load_hit, miss_at, miss, look_up_at, look_up,
  process_pipe, process_from, process_pipes, hold,
}
use ooo_superscalar_risc_sim.DCache.State.{
  Way, Mshr, DCache, no_way, no_mshr, no_pipe, no_hit_pend, ways_of, way_at, put_way, put_pipe,
  is_hit, find_hit, find_victim, alloc_mshr, find_mshr, set_index, tag_of,
}

-- The lookups of a cycle without a shadow: each port reads the ways as the ports before it left them.
unfoldable pub process_plain : ℕ → ℕ → DCache → DCache
process_plain p zero d = d
process_plain p (suc n) d = process_plain (p + 1) n (process_pipe p d none).0

-- The shadow's line is that of its way.
abbrev Agrees : DCache → Option Shadow → Type 0
Agrees d none = Unit {0}
Agrees d (some sh) = sh.line ≡ (way_at d sh.set_no sh.way_no).bytes

seen-own :
    (d : DCache) (shadow : Option Shadow) (s w : ℕ)
    → Agrees d shadow
    → seen shadow s w (way_at d s w).bytes ≡ (way_at d s w).bytes
seen-own d none s w h = refl
seen-own d (some sh) s w h = go (sh.set_no == s && sh.way_no == w) refl
  where
    go :
        (b : Bool)
        → (sh.set_no == s && sh.way_no == w) ≡ b
        → (if b then sh.line else (way_at d s w).bytes) ≡ (way_at d s w).bytes
    go false e = refl
    go true e =
        let es : sh.set_no ≡ s = ground (arith, e) in
        let ew : sh.way_no ≡ w = ground (arith, e) in h ∙ ap₂ (λ a b. (way_at d a b).bytes) es ew

-- A write that keeps the bytes of its way keeps those of every way.
bytes-put_way :
    (s w : ℕ) (v : Way) (d : DCache) (s' w' : ℕ)
    → v.bytes ≡ (way_at d s w).bytes
    → (way_at (put_way s w v d) s' w').bytes ≡ (way_at d s' w').bytes
bytes-put_way s w v d s' w' e =
    get_or-set_keeps (λ (row : List Way). (get_or row w' no_way).bytes) d.cache s s'
      (set (ways_of d s) w v) []
      (get_or-set_keeps (λ (t : Way). t.bytes) (ways_of d s) w w' v no_way e)

Agrees-put_way :
    (s w : ℕ) (v : Way) (d : DCache) (shadow : Option Shadow)
    → v.bytes ≡ (way_at d s w).bytes
    → Agrees d shadow
    → Agrees (put_way s w v d) shadow
Agrees-put_way s w v d none e h = h
Agrees-put_way s w v d (some sh) e h = h ∙ sym (bytes-put_way s w v d sh.set_no sh.way_no e)

row_inside : (rows : List (List Way)) (s w : ℕ) → w < length (get_or rows s []) → s < length rows
row_inside [] s w h = absurd (omega arith)
row_inside (row ∷ rows) zero w h = omega arith
row_inside (row ∷ rows) (suc s) w h = omega (arith, row_inside rows s w h)

-- A way that is there holds what was written to it.
pub way_at-put_way :
    (s w : ℕ) (v : Way) (d : DCache) → w < length (ways_of d s) → way_at (put_way s w v d) s w ≡ v
way_at-put_way s w v d h =
    ap (λ (row : List Way). get_or row w no_way)
      (get_or-set_self d.cache s (set (ways_of d s) w v) [] (row_inside d.cache s w h))
    ∙ get_or-set_self (ways_of d s) w v no_way h

-- Two caches that differ in nothing that the shadow can see.
Agrees-cache :
    (d d' : DCache) (shadow : Option Shadow)
    → d'.cache ≡ d.cache
    → Agrees d shadow
    → Agrees d' shadow
Agrees-cache d d' none e h = h
Agrees-cache d d' (some sh) e h =
    h
    ∙ ap (λ (c : List (List Way)). (get_or (get_or c sh.set_no []) sh.way_no no_way).bytes) (sym e)

join_mshr-cache :
    (p : ℕ) (r : DataMemReq) (i : ℕ) (d : DCache) → (join_mshr p r i d).cache ≡ d.cache
unfolding join_mshr
join_mshr-cache p r i d =
    let m : Mshr = get_or d.mshrs i no_mshr in
    if_lem (λ (t : DCache). t.cache ≡ d.cache) (m.fill_ready || m.draining) refl
      (if_lem (λ (t : DCache). t.cache ≡ d.cache) (leb d.mshr_waiters (length m.waiters)) refl refl)

load_hit-cache :
    (p s w : ℕ) (r : DataMemReq) (d : DCache) (shadow : Option Shadow)
    → (load_hit p s w r d shadow).cache ≡ d.cache
unfolding load_hit
load_hit-cache p s w r d shadow =
    if_lem (λ (t : DCache). t.cache ≡ d.cache) (get_or d.hit_pend p no_hit_pend).valid refl refl

miss_at-Agrees :
    (o v : Option ℕ) (p : ℕ) (r : DataMemReq) (s : ℕ) (d : DCache) (shadow : Option Shadow)
    → Agrees d shadow
    → Agrees (miss_at o v p r s d) shadow
unfolding miss_at
miss_at-Agrees none v p r s d shadow h = Agrees-cache d (hold p r d) shadow refl h
miss_at-Agrees (some i) none p r s d shadow h = Agrees-cache d (hold p r d) shadow refl h
miss_at-Agrees (some i) (some victim) p r s d shadow h =
    Agrees-cache (put_way s victim (record (way_at d s victim) { reserved = true }) d)
      (miss_at (some i) (some victim) p r s d) shadow refl
      (Agrees-put_way s victim (record (way_at d s victim) { reserved = true }) d shadow refl h)

touch-Agrees :
    (s w : ℕ) (d : DCache) (shadow : Option Shadow) → Agrees d shadow → Agrees (touch s w d) shadow
touch-Agrees s w d shadow h =
    let v : Way = record (way_at d s w) { lru = d.lru_clock } in
    Agrees-cache (put_way s w v d) (touch s w d) shadow refl (Agrees-put_way s w v d shadow refl h)

-- One step with the shadow ends as the step without it, and its shadow shows its way.
record Mirrors (a b : DCache × Option Shadow) : Type 0 where
  same : a.0 ≡ b.0
  agrees : Agrees a.0 a.1

store_hit-Mirrors :
    (s w : ℕ) (r : DataMemReq) (d : DCache) (shadow : Option Shadow)
    → Agrees d shadow
    → w < length (ways_of d s)
    → Mirrors (store_hit s w r d shadow) (store_hit s w r d none)
unfolding store_hit
store_hit-Mirrors s w r d shadow h inside =
    let stored : List ℕ =
      apply_store_to_line d.line_bytes (seen shadow s w (way_at d s w).bytes) r in
    record {
      same = rw (seen-own d shadow s w h) refl;
      agrees = sym (
          ap (λ (t : Way). t.bytes)
            (way_at-put_way s w (record (way_at d s w) { bytes = stored; dirty = true }) d inside));
    }

load_hit-Mirrors :
    (p s w : ℕ) (r : DataMemReq) (d : DCache) (shadow : Option Shadow)
    → Agrees d shadow
    → Mirrors (load_hit p s w r d shadow, shadow) (load_hit p s w r d none, none)
unfolding load_hit
load_hit-Mirrors p s w r d shadow h = record {
  same = rw (seen-own d shadow s w h) refl;
  agrees = Agrees-cache d (load_hit p s w r d shadow) shadow (load_hit-cache p s w r d shadow) h;
}

both :
    (b : Bool) {x y x' y' : DCache × Option Shadow}
    → Mirrors x x'
    → Mirrors y y'
    → Mirrors (if b then x else y) (if b then x' else y')
both true p q = p
both false p q = q

length-ways_of-touch :
    (s w : ℕ) (d : DCache) → w < length (ways_of d s) → w < length (ways_of (touch s w d) s)
length-ways_of-touch s w d h = omega (
  arith,
  h,
  length-set (ways_of d s) w (record (way_at d s w) { lru = d.lru_clock }),
  ap length (
      get_or-set_self d.cache s (set (ways_of d s) w (record (way_at d s w) { lru = d.lru_clock }))
        [] (row_inside d.cache s w h)),
)

look_up_at-Mirrors :
    (o v : Option ℕ) (p : ℕ) (r : DataMemReq) (d : DCache) (shadow : Option Shadow)
    → Agrees d shadow
    → find_hit d (set_index d r.addr) (tag_of d r.addr) ≡ v
    → Mirrors (look_up_at o v p r d shadow) (look_up_at o v p r d none)
unfolding look_up_at miss find_hit
look_up_at-Mirrors (some i) v p r d shadow h e = record {
  same = refl;
  agrees = Agrees-cache d (join_mshr p r i d) shadow (join_mshr-cache p r i d) h;
}
look_up_at-Mirrors none none p r d shadow h e =
    let s = set_index d r.addr in
    record {
      same = refl;
      agrees = miss_at-Agrees (alloc_mshr d) (find_victim d s) p r s d shadow h;
    }
look_up_at-Mirrors none (some w) p r d shadow h e =
    let s = set_index d r.addr in
    let (inside, _, _) = find_index-some (is_hit (tag_of d r.addr)) (ways_of d s) no_way w e in
    let h' : Agrees (touch s w d) shadow = touch-Agrees s w d shadow h in
    both r.write
      (store_hit-Mirrors s w r (touch s w d) shadow h' (length-ways_of-touch s w d inside))
      (load_hit-Mirrors p s w r (touch s w d) shadow h')

process_pipe-Mirrors :
    (p : ℕ) (d : DCache) (shadow : Option Shadow)
    → Agrees d shadow
    → Mirrors (process_pipe p d shadow) (process_pipe p d none)
unfolding process_pipe look_up
process_pipe-Mirrors p d shadow h =
    let slot = get_or d.pipe p no_pipe in
    let d' = put_pipe p (record slot { valid = false }) d in
    both (not slot.valid) (record { same = refl; agrees = h })
      (look_up_at-Mirrors (find_mshr d' (line_align slot.req.addr d'.line_bytes))
        (find_hit d' (set_index d' slot.req.addr) (tag_of d' slot.req.addr)) p slot.req d' shadow
        (Agrees-cache d d' shadow refl h) refl)

process_from-plain :
    (p n : ℕ) (d : DCache) (shadow : Option Shadow)
    → Agrees d shadow
    → process_from p n d shadow ≡ process_plain p n d
unfolding process_from process_plain
process_from-plain p zero d shadow h = refl
process_from-plain p (suc n) d shadow h =
    let m = process_pipe-Mirrors p d shadow h in
    process_from-plain (p + 1) n (process_pipe p d shadow).0 (process_pipe p d shadow).1 m.agrees
    ∙ ap (process_plain (p + 1) n) m.same

-- The lookups of a cycle end as the lookups without a shadow do, where each port reads the cache as the
-- ports before it left it: a load sees the stores of lower ports in the same cycle, and no others.
pub process_pipes-process_plain : (d : DCache) → process_pipes d ≡ process_plain 0 d.ufp_ports d
unfolding process_pipes
process_pipes-process_plain d = process_from-plain 0 d.ufp_ports d none tt
