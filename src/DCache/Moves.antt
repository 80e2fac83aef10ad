-- ===== src/DCache/Moves.antt =====
-- How the calls of the core and of memory, and a flush, move the requests of a data cache.
use ooo_superscalar_risc_sim.Common.{
  ℕ, zero, suc, ◌+◌, ◌<◌, ◌≤◌, ◌≡◌, refl, ap, arith, Bool, true, false, not, ◌&&◌, Option, none,
  some, List, [], ◌∷◌, map, if◌then◌else◌, leb, length, get_or, take, drop, if_lem,
}
use mathlib.Core.Option
use ooo_superscalar_risc_sim.Common.Int.{ℤ}
use ooo_superscalar_risc_sim.Common.Search.{sum_of, sum_of-set, sum_of-set_same}
use ooo_superscalar_risc_sim.MemTypes.{DataMemReq, DataMemResp}
use ooo_superscalar_risc_sim.DCache.Fills.{accepted_at, resp_at, take_line, wants_wb, is_at}
use ooo_superscalar_risc_sim.DCache.InFlight.{
  Test, req_weight, resp_weight, pipe_weight, hit_weight, waiter_weight, mshr_weight, in_flight,
}
use ooo_superscalar_risc_sim.DCache.Pipes.{free_port, accept_at, try_cpu_req}
use ooo_superscalar_risc_sim.DCache.Shape.{SameShape, put_mshr-SameShape}
use ooo_superscalar_risc_sim.DCache.State.{
  Waiter, Mshr, Pipe, HitPend, DCache, no_mshr, no_pipe, put_mshr,
}
use ooo_superscalar_risc_sim.DCache.{
  pop_cpu_resps, flush_loads, flush_hit, flush_pipe, flush_mshr, flush_waiter, kept_resps,
}

free_port-free :
    (ps : List Pipe) (hs : List HitPend) (p : ℕ)
    → free_port ps hs ≡ some p
    → (p < length ps) × ((get_or ps p no_pipe).valid ≡ false)
unfolding free_port
free_port-free [] hs p e = cc
free_port-free (x ∷ ps) [] p e = cc
free_port-free (x ∷ ps) (h ∷ hs) p e = go (free_port-free ps hs) (free_port ps hs) refl p e
  where
    go :
        ((k : ℕ)
          → free_port ps hs ≡ some k
          → (k < length ps) × ((get_or ps k no_pipe).valid ≡ false))
        → (o : Option ℕ) → free_port ps hs ≡ o
        → (p : ℕ) → (if not x.valid && not h.valid then some 0 else Option.map suc o) ≡ some p
        → (p < suc (length ps)) × ((get_or (x ∷ ps) p no_pipe).valid ≡ false)
    go ih none eo zero e = ground arith
    go ih none eo (suc p) e = absurd (ground arith)
    go ih (some k) eo zero e = ground arith
    go ih (some k) eo (suc p) e = let (a, b) = ih p (ground (arith, eo)) in (omega arith, b)

module _ (q : Test) where
  accept_at-in_flight :
      (o : Option ℕ) (d : DCache) (new : DataMemReq)
      → free_port d.pipe d.hit_pend ≡ o
      → in_flight q (accept_at o d new).1
        ≡ in_flight q d + (if (accept_at o d new).0 then req_weight q new else 0)
  unfolding accept_at in_flight
  accept_at-in_flight none d new e = omega arith
  accept_at-in_flight (some p) d new e =
      let (inside, free) = free_port-free d.pipe d.hit_pend p e in
      ground (
        arith,
        free,
        sum_of-set (pipe_weight q) d.pipe p (record { valid = true; req = new }) no_pipe inside,
      )

  -- What a call of memory leaves: the same requests, and tables of the same sizes.
  abbrev pub Kept : DCache → DCache → Type 0
  Kept d d' = (in_flight q d' ≡ in_flight q d) × SameShape d' d

  abbrev pub IsKept : DCache → Option DCache → Type 0
  IsKept d o = (d' : DCache) × (o ≡ some d') × Kept d d'

  put_mshr-Kept :
      (i : ℕ) (m : Mshr) (d : DCache)
      → mshr_weight q m ≡ mshr_weight q (get_or d.mshrs i no_mshr)
      → Kept d (put_mshr i m d)
  unfolding in_flight
  put_mshr-Kept i m d e = (
    omega (arith, sum_of-set_same (mshr_weight q) d.mshrs i m no_mshr e),
    put_mshr-SameShape i m d,
  )

  pub accepted_at-Kept : (o : Option ℕ) (d : DCache) → Kept d (accepted_at o d)
  unfolding accepted_at in_flight
  accepted_at-Kept none d = (refl, (refl, refl, refl, refl))
  accepted_at-Kept (some i) d =
      let m : Mshr = get_or d.mshrs i no_mshr in
      if_lem (λ (t : DCache). Kept d t) (wants_wb m)
        (put_mshr-Kept i (record m { wb_sent = true }) d refl)
        (put_mshr-Kept i (record m { fill_sent = true }) d refl)

  take_line-IsKept :
      (i : ℕ) (bytes : List ℕ) (d : DCache)
      → d.line_bytes ≤ length bytes
      → IsKept d (take_line i (get_or d.mshrs i no_mshr) bytes d)
  unfolding take_line
  take_line-IsKept i bytes d h =
      let m : Mshr = get_or d.mshrs i no_mshr in
      let m' : Mshr = record m { line = take d.line_bytes bytes; fill_ready = true } in
      (put_mshr i m' d, ground arith, put_mshr-Kept i m' d refl)

  pub resp_at-IsKept :
      (o : Option ℕ) (bytes : List ℕ) (d : DCache)
      → d.line_bytes ≤ length bytes
      → IsKept d (resp_at o bytes d)
  unfolding resp_at in_flight
  resp_at-IsKept none bytes d h = (d, refl, (refl, (refl, refl, refl, refl)))
  resp_at-IsKept (some i) bytes d h =
      let m : Mshr = get_or d.mshrs i no_mshr in
      let done : Mshr = record m { wb_done = true } in
      let idle : DCache = record d { dram_mshr = none; dram_is_wb = false } in
      if_lem (IsKept d) (not m.valid) (d, refl, (refl, (refl, refl, refl, refl)))
        (if_lem (IsKept d) (is_at d.dram_mshr i)
          (if_lem (IsKept d) d.dram_is_wb
            (put_mshr i done idle, refl, put_mshr-Kept i done idle refl)
            (take_line-IsKept i bytes idle h))
          (if_lem (IsKept d) (m.wb_sent && not m.wb_done)
            (put_mshr i done d, refl, put_mshr-Kept i done d refl) (take_line-IsKept i bytes d h)))

  pub try_cpu_req-in_flight :
      (d : DCache) (new : DataMemReq)
      → in_flight q (try_cpu_req d new).1
        ≡ in_flight q d + (if (try_cpu_req d new).0 then req_weight q new else 0)
  unfolding try_cpu_req
  try_cpu_req-in_flight d new =
      if_lem
        (λ (t : Bool × DCache).
          in_flight q t.1 ≡ in_flight q d + (if t.0 then req_weight q new else 0))
        (leb d.ufp_ports d.cpu_accepts) (omega arith)
        (accept_at-in_flight (free_port d.pipe d.hit_pend) d new refl)

  sum_of-take_drop :
      {A : Type 0} (f : A → ℕ) (n : ℕ) (xs : List A)
      → sum_of f (take n xs) + sum_of f (drop n xs) ≡ sum_of f xs
  unfolding sum_of
  sum_of-take_drop f zero xs = omega arith
  sum_of-take_drop f (suc n) [] = refl
  sum_of-take_drop f (suc n) (x ∷ xs) = omega (arith, sum_of-take_drop f n xs)

  pub pop_cpu_resps-in_flight :
      (d : DCache)
      → sum_of (resp_weight q) (pop_cpu_resps d).0 + in_flight q (pop_cpu_resps d).1 ≡ in_flight q d
  unfolding pop_cpu_resps in_flight
  pop_cpu_resps-in_flight d = omega (
    arith,
    sum_of-take_drop (resp_weight q) (if leb d.ufp_ports 2 then 4 else d.ufp_ports) d.resp_q,
  )

  sum_of-map :
      {A : Type 0} (f : A → ℕ) (g : A → A) (xs : List A)
      → ((x : A) → f (g x) ≡ f x)
      → sum_of f (map g xs) ≡ sum_of f xs
  unfolding sum_of
  sum_of-map f g [] h = refl
  sum_of-map f g (x ∷ xs) h = omega (arith, h x, sum_of-map f g xs h)

  drop-map : {A : Type 0} (g : A → A) (n : ℕ) (xs : List A) → drop n (map g xs) ≡ map g (drop n xs)
  drop-map g zero xs = refl
  drop-map g (suc n) [] = refl
  drop-map g (suc n) (x ∷ xs) = drop-map g n xs

  module _ (stores : (id : ℤ) (cookie : ℕ) → q id cookie false ≡ false) where
    waiter_weight-flush : (w : Waiter) → waiter_weight q (flush_waiter w) ≡ waiter_weight q w
    waiter_weight-flush w = ground (arith, stores w.req.id w.req.cookie)

    mshr_weight-flush : (m : Mshr) → mshr_weight q (flush_mshr m) ≡ mshr_weight q m
    mshr_weight-flush m = ground (
      arith,
      sum_of-map (waiter_weight q) flush_waiter m.waiters waiter_weight-flush,
      sum_of-map (waiter_weight q) flush_waiter (drop m.drain_idx m.waiters) waiter_weight-flush,
      ap (sum_of (waiter_weight q)) (drop-map flush_waiter m.drain_idx m.waiters),
    )

    pipe_weight-flush : (p : Pipe) → pipe_weight q (flush_pipe p) ≡ pipe_weight q p
    pipe_weight-flush p = ground (arith, stores p.req.id p.req.cookie)

    sum_of-kept_resps :
        (rs : List DataMemResp) → sum_of (resp_weight q) (kept_resps rs) ≡ sum_of (resp_weight q) rs
    unfolding kept_resps sum_of
    sum_of-kept_resps [] = refl
    sum_of-kept_resps (r ∷ rs) = ground (arith, stores r.id r.cookie, sum_of-kept_resps rs)

    hit_weight-flush : (h : HitPend) → hit_weight q (flush_hit h) ≡ 0
    hit_weight-flush h = ground arith

    sum_of-flush_hit : (hs : List HitPend) → sum_of (hit_weight q) (map flush_hit hs) ≡ 0
    unfolding sum_of
    sum_of-flush_hit [] = refl
    sum_of-flush_hit (h ∷ hs) = omega (arith, hit_weight-flush h, sum_of-flush_hit hs)

    -- With a test that picks stores only, a flush takes away what is among the pending hits, which are
    -- the answers of loads, and leaves every other request and answer.
    pub flush_loads-in_flight :
        (d : DCache)
        → in_flight q (flush_loads d) + sum_of (hit_weight q) d.hit_pend ≡ in_flight q d
    unfolding flush_loads in_flight
    flush_loads-in_flight d = omega (
      arith,
      sum_of-map (pipe_weight q) flush_pipe d.pipe pipe_weight-flush,
      sum_of-map (mshr_weight q) flush_mshr d.mshrs mshr_weight-flush,
      sum_of-kept_resps d.resp_q,
      sum_of-flush_hit d.hit_pend,
    )
