-- ===== src/DCache/InFlight.antt =====
-- The requests of a data cache that are still to be answered or whose answer is still to be taken, and
-- how the lookup of a cycle moves them.
use ooo_superscalar_risc_sim.Common.{
  ℕ, zero, suc, ◌+◌, ◌<◌, ◌≡◌, ◌∙◌, refl, ap, arith, Bool, true, false, not, ◌&&◌, Option, none,
  some, List, [], ◌∷◌, ◌++◌, if◌then◌else◌, length, get_or, set, drop, length-set, if_lem,
  get_or_beyond, get_or-set_self, Bool-cases, inl, inr,
}
use ooo_superscalar_risc_sim.Common.Int.{ℤ}
use ooo_superscalar_risc_sim.Common.Search.{sum_of, sum_of-append, sum_of-set, find_index-some}
use ooo_superscalar_risc_sim.MemTypes.{DataMemReq, DataMemResp, line_align}
use ooo_superscalar_risc_sim.DCache.Line.{load_word_from_line}
use ooo_superscalar_risc_sim.DCache.Shape.{process_pipe-SameShape}
use ooo_superscalar_risc_sim.DCache.State.{
  Waiter, Mshr, Pipe, HitPend, DCache, no_mshr, no_pipe, no_hit_pend, put_pipe, put_mshr, find_mshr,
  find_hit, alloc_mshr, find_victim, set_index, is_for, tag_of, way_at,
}
use ooo_superscalar_risc_sim.DCache.Pipes.{
  Shadow, hold, join_mshr, store_hit, load_hit, miss, look_up_at, miss_at, look_up, process_pipe,
  process_from, process_pipes, new_mshr, touch, resp_of, seen,
}

-- Which requests are counted: a test of the id, the cookie and whether it is a store.
abbrev pub Test : Type 0
Test = ℤ → ℕ → Bool → Bool

module _ (q : Test) where
  abbrev pub req_weight : DataMemReq → ℕ
  req_weight r = if q r.id r.cookie r.write then 1 else 0

  abbrev pub resp_weight : DataMemResp → ℕ
  resp_weight r = if q r.id r.cookie r.is_write then 1 else 0

  abbrev pub pipe_weight : Pipe → ℕ
  pipe_weight p = if p.valid then req_weight p.req else 0

  abbrev pub hit_weight : HitPend → ℕ
  hit_weight h = if h.valid && not h.drop then resp_weight h.resp else 0

  abbrev pub waiter_weight : Waiter → ℕ
  waiter_weight w = if w.drop then 0 else req_weight w.req

  -- The waiters that a miss entry has still to answer.
  abbrev pub remaining : Mshr → List Waiter
  remaining m = if m.draining then drop m.drain_idx m.waiters else m.waiters

  abbrev pub mshr_weight : Mshr → ℕ
  mshr_weight m = if m.valid then sum_of waiter_weight (remaining m) else 0

  unfoldable pub in_flight : DCache → ℕ
  in_flight d =
      sum_of pipe_weight d.pipe
      + sum_of hit_weight d.hit_pend
      + sum_of mshr_weight d.mshrs
      + sum_of resp_weight d.resp_q

  hold-in_flight :
      (p : ℕ) (r : DataMemReq) (d : DCache)
      → p < length d.pipe
      → (get_or d.pipe p no_pipe).valid ≡ false
      → in_flight (hold p r d) ≡ in_flight d + req_weight r
  unfolding in_flight
  hold-in_flight p r d h free =
      ground (arith, sum_of-set pipe_weight d.pipe p (record { valid = true; req = r }) no_pipe h)

  pub put_mshr-in_flight :
      (i : ℕ) (m : Mshr) (d : DCache)
      → i < length d.mshrs
      → in_flight (put_mshr i m d) + mshr_weight (get_or d.mshrs i no_mshr)
        ≡ in_flight d + mshr_weight m
  unfolding in_flight
  put_mshr-in_flight i m d h = omega (arith, sum_of-set mshr_weight d.mshrs i m no_mshr h)

  join-in_flight :
      (p : ℕ) (r : DataMemReq) (i : ℕ) (d : DCache)
      → p < length d.pipe
      → (get_or d.pipe p no_pipe).valid ≡ false
      → i < length d.mshrs
      → (get_or d.mshrs i no_mshr).valid ≡ true
      → in_flight (join_mshr p r i d) ≡ in_flight d + req_weight r
  unfolding join_mshr sum_of
  join-in_flight p r i d h free hi taken =
      let m = get_or d.mshrs i no_mshr in
      let new : List Waiter = record { req = r; drop = false } ∷ [] in
      ground (
        arith,
        hold-in_flight p r d h free,
        put_mshr-in_flight i (record m { waiters = m.waiters ++ new }) d hi,
        sum_of-append waiter_weight m.waiters new,
      )

  store-in_flight :
      (s w : ℕ) (r : DataMemReq) (d : DCache) (shadow : Option Shadow)
      → in_flight (store_hit s w r d shadow).0 ≡ in_flight d + req_weight r
  unfolding in_flight store_hit sum_of
  store-in_flight s w r d shadow =
      omega (arith, sum_of-append resp_weight d.resp_q (resp_of r 0 ∷ []))

  put_hit-in_flight :
      (p : ℕ) (v : HitPend) (d : DCache)
      → p < length d.hit_pend
      → in_flight (record d { hit_pend = set d.hit_pend p v })
          + hit_weight (get_or d.hit_pend p no_hit_pend)
        ≡ in_flight d + hit_weight v
  unfolding in_flight
  put_hit-in_flight p v d h = omega (arith, sum_of-set hit_weight d.hit_pend p v no_hit_pend h)

  touch-in_flight : (s w : ℕ) (d : DCache) → in_flight (touch s w d) ≡ in_flight d
  unfolding in_flight
  touch-in_flight s w d = refl

  load-in_flight :
      (p s w : ℕ) (r : DataMemReq) (d : DCache) (shadow : Option Shadow)
      → p < length d.pipe
      → p < length d.hit_pend
      → (get_or d.pipe p no_pipe).valid ≡ false
      → in_flight (load_hit p s w r d shadow) ≡ in_flight d + req_weight r
  unfolding load_hit
  load-in_flight p s w r d shadow h hh free =
      let new : HitPend = record {
        valid = true;
        drop = false;
        cycles_left = d.load_hit_latency;
        resp =
            resp_of r
              (load_word_from_line d.line_bytes (seen shadow s w (way_at d s w).bytes) r.addr);
      } in
      ground (arith, hold-in_flight p r d h free, put_hit-in_flight p new d hh)

  miss_at-in_flight :
      (o v : Option ℕ) (p : ℕ) (r : DataMemReq) (s : ℕ) (d : DCache)
      → p < length d.pipe
      → (get_or d.pipe p no_pipe).valid ≡ false
      → alloc_mshr d ≡ o
      → in_flight (miss_at o v p r s d) ≡ in_flight d + req_weight r
  unfolding miss_at new_mshr sum_of in_flight alloc_mshr
  miss_at-in_flight none v p r s d h free e = hold-in_flight p r d h free
  miss_at-in_flight (some i) none p r s d h free e = hold-in_flight p r d h free
  miss_at-in_flight (some i) (some victim) p r s d h free e =
      let (inside, unused, _) = find_index-some (λ m. not m.valid) d.mshrs no_mshr i e in
      ground (arith, unused, put_mshr-in_flight i (new_mshr r s victim d) d inside)

  look_up_at-in_flight :
      (o v : Option ℕ) (p : ℕ) (r : DataMemReq) (d : DCache) (shadow : Option Shadow)
      → p < length d.pipe
      → p < length d.hit_pend
      → (get_or d.pipe p no_pipe).valid ≡ false
      → find_mshr d (line_align r.addr d.line_bytes) ≡ o
      → in_flight (look_up_at o v p r d shadow).0 ≡ in_flight d + req_weight r
  unfolding look_up_at find_mshr miss
  look_up_at-in_flight (some i) v p r d shadow h hh free e =
      let laddr = line_align r.addr d.line_bytes in
      let (inside, for_it, _) = find_index-some (is_for laddr) d.mshrs no_mshr i e in
      join-in_flight p r i d h free inside (ground arith)
  look_up_at-in_flight none (some w) p r d shadow h hh free e =
      let s = set_index d r.addr in
      let d' : DCache = touch s w d in
      let same : in_flight d' ≡ in_flight d = touch-in_flight s w d in
      if_lem (λ (t : DCache × Option Shadow). in_flight t.0 ≡ in_flight d + req_weight r) r.write
        (omega (arith, same, store-in_flight s w r d' shadow))
        (omega (arith, same, load-in_flight p s w r d' shadow h hh free))
  look_up_at-in_flight none none p r d shadow h hh free e =
      miss_at-in_flight (alloc_mshr d) (find_victim d (set_index d r.addr)) p r (set_index d r.addr)
        d h free refl

  pub valid_inside :
      (p : ℕ) (d : DCache) → (get_or d.pipe p no_pipe).valid ≡ true → p < length d.pipe
  valid_inside p d e = ground (arith, get_or_beyond d.pipe p no_pipe)

  pub pipe-in_flight :
      (p : ℕ) (v : Pipe) (d : DCache)
      → p < length d.pipe
      → in_flight (put_pipe p v d) + pipe_weight (get_or d.pipe p no_pipe)
        ≡ in_flight d + pipe_weight v
  unfolding in_flight
  pipe-in_flight p v d h = omega (arith, sum_of-set pipe_weight d.pipe p v no_pipe h)

  -- The lookup of one port moves its request, if its pipe has one, and neither adds nor loses any.
  process_pipe-in_flight :
      (p : ℕ) (d : DCache) (shadow : Option Shadow)
      → length d.hit_pend ≡ length d.pipe
      → in_flight (process_pipe p d shadow).0 ≡ in_flight d
  unfolding process_pipe look_up
  process_pipe-in_flight p d shadow same =
      let slot = get_or d.pipe p no_pipe in
      elim (Bool-cases slot.valid) [
        | inr e ↦ simp e refl
        | inl e ↦
            let inside : p < length d.pipe = valid_inside p d e in
            let idle : Pipe = record slot { valid = false } in
            let d' : DCache = put_pipe p idle d in
            let moved =
              look_up_at-in_flight (find_mshr d' (line_align slot.req.addr d.line_bytes))
                (find_hit d' (set_index d' slot.req.addr) (tag_of d' slot.req.addr)) p slot.req d'
                shadow (omega (arith, length-set d.pipe p idle)) (omega (arith, same))
                (ap (λ (t : Pipe). t.valid) (get_or-set_self d.pipe p idle no_pipe inside)) refl in
            simp e (ground (arith, moved, pipe-in_flight p idle d inside))
      ]

  process_from-in_flight :
      (p n : ℕ) (d : DCache) (shadow : Option Shadow)
      → length d.hit_pend ≡ length d.pipe
      → in_flight (process_from p n d shadow) ≡ in_flight d
  unfolding process_from
  process_from-in_flight p zero d shadow same = refl
  process_from-in_flight p (suc n) d shadow same =
      let (a, b, _, _) = process_pipe-SameShape p d shadow in
      process_from-in_flight (p + 1) n (process_pipe p d shadow).0 (process_pipe p d shadow).1
        (omega (arith, same, a, b))
      ∙ process_pipe-in_flight p d shadow same

  pub process_pipes-in_flight :
      (d : DCache) → length d.hit_pend ≡ length d.pipe → in_flight (process_pipes d) ≡ in_flight d
  unfolding process_pipes
  process_pipes-in_flight d same = process_from-in_flight 0 d.ufp_ports d none same
