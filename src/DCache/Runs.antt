-- ===== src/DCache/Runs.antt =====
-- Over any sequence of calls that the core and memory make, every request that the data cache has taken
-- is answered once or still in flight.
use ooo_superscalar_risc_sim.Common.{
  ℕ, zero, suc, ◌+◌, ◌≤◌, ◌<◌, ◌≡◌, ◌∙◌, refl, sym, arith, Bool, Option, none, some, List, [], ◌∷◌,
  ◌++◌, if◌then◌else◌, length, replicate, length-replicate, length-set, if_lem, ◌>>=◌,
}
use ooo_superscalar_risc_sim.Common.Int.{ℤ, index}
use ooo_superscalar_risc_sim.Common.Search.{sum_of, sum_of-append}
use ooo_superscalar_risc_sim.MemTypes.{DataMemReq, DataMemResp}
use ooo_superscalar_risc_sim.DCache.Conserve.{tick_end-in_flight}
use ooo_superscalar_risc_sim.DCache.Fills.{pick_dram_mshr, dram_req_accepted, dram_resp}
use ooo_superscalar_risc_sim.DCache.InFlight.{
  Test, req_weight, resp_weight, pipe_weight, hit_weight, mshr_weight, in_flight,
}
use ooo_superscalar_risc_sim.DCache.Moves.{
  accepted_at-Kept, resp_at-IsKept, try_cpu_req-in_flight, pop_cpu_resps-in_flight,
}
use ooo_superscalar_risc_sim.DCache.Pipes.{free_port, accept_at, try_cpu_req}
use ooo_superscalar_risc_sim.DCache.Shape.{SameShape, SameShape-trans}
use ooo_superscalar_risc_sim.DCache.Sizes.{tick_end-SameShape}
use ooo_superscalar_risc_sim.DCache.State.{
  DCache, init, built, no_mshr, no_pipe, no_hit_pend, at_least_one, count_of,
}
use ooo_superscalar_risc_sim.DCache.{tick_begin, tick_end, pop_cpu_resps}

-- What the core and memory call.
pub data Call : Type 0 where
  send : DataMemReq → Call
  begin end pop dram_accept : Call
  dram_line : ℤ → List ℕ → Call

-- The cache, the requests that it has taken and the answers that it has given.
pub record Run : Type 0 where
  pub cache : DCache
  pub taken : List DataMemReq
  pub answered : List DataMemResp

unfoldable pub call : Call → Run → Option Run
call (send new) r =
    let (ok, d) = try_cpu_req r.cache new in
    some (record r { cache = d; taken = if ok then new ∷ r.taken else r.taken })
call begin r = some (record r { cache = tick_begin r.cache })
call end r = some (record r { cache = tick_end r.cache })
call pop r =
    let (out, d) = pop_cpu_resps r.cache in
    some (record r { cache = d; answered = r.answered ++ out })
call dram_accept r = some (record r { cache = dram_req_accepted r.cache })
call (dram_line i bytes) r = do d ← dram_resp r.cache i bytes; some (record r { cache = d })

unfoldable pub run : List Call → Run → Option Run
run [] r = some r
run (c ∷ cs) r = do r' ← call c r; run cs r'

-- Memory answers with whole lines.
abbrev pub FullLine : ℕ → Call → Type 0
FullLine n (dram_line i bytes) = n ≤ length bytes
FullLine n _ = Unit

abbrev pub FullLines : ℕ → List Call → Type 0
FullLines n [] = Unit
FullLines n (c ∷ cs) = FullLine n c × FullLines n cs

accept_at-SameShape :
    (o : Option ℕ) (d : DCache) (new : DataMemReq) → SameShape (accept_at o d new).1 d
unfolding accept_at
accept_at-SameShape none d new = (refl, refl, refl, refl)
accept_at-SameShape (some p) d new = (length-set d.pipe p _, refl, refl, refl)

try_cpu_req-SameShape : (d : DCache) (new : DataMemReq) → SameShape (try_cpu_req d new).1 d
unfolding try_cpu_req
try_cpu_req-SameShape d new =
    if_lem (λ (t : Bool × DCache). SameShape t.1 d) _ (refl, refl, refl, refl)
      (accept_at-SameShape (free_port d.pipe d.hit_pend) d new)

pop_cpu_resps-SameShape : (d : DCache) → SameShape (pop_cpu_resps d).1 d
unfolding pop_cpu_resps
pop_cpu_resps-SameShape d = (refl, refl, refl, refl)

sum_of-replicate : {A : Type 0} (f : A → ℕ) (n : ℕ) (x : A) → f x ≡ 0 → sum_of f (replicate n x) ≡ 0
unfolding sum_of
sum_of-replicate f zero x h = refl
sum_of-replicate f (suc n) x h = omega (arith, h, sum_of-replicate f n x h)

module _ (q : Test) where
  abbrev taken_weight : Run → ℕ
  taken_weight r = sum_of (req_weight q) r.taken

  abbrev answered_weight : Run → ℕ
  answered_weight r = sum_of (resp_weight q) r.answered

  -- What has been taken on the way from `r` is what is more in flight or answered.
  abbrev Balanced : Run → Run → Type 0
  Balanced r r' =
      taken_weight r' + in_flight q r.cache + answered_weight r
      ≡ taken_weight r + in_flight q r'.cache + answered_weight r'

  abbrev Calls : Run → Option Run → Type 0
  Calls r o = (r' : Run) × (o ≡ some r') × Balanced r r' × SameShape r'.cache r.cache

  tick_begin-in_flight : (d : DCache) → in_flight q (tick_begin d) ≡ in_flight q d
  unfolding in_flight
  tick_begin-in_flight d = refl

  call-Calls :
      (n : ℕ) (c : Call) (r : Run)
      → length r.cache.hit_pend ≡ length r.cache.pipe
      → r.cache.line_bytes ≤ n
      → FullLine n c
      → Calls r (call c r)
  unfolding call sum_of dram_req_accepted dram_resp
  call-Calls n (send new) r same e full = (
    _,
    refl,
    ground (arith, try_cpu_req-in_flight q r.cache new),
    try_cpu_req-SameShape r.cache new,
  )
  call-Calls n begin r same e full =
      (_, refl, omega (arith, tick_begin-in_flight r.cache), (refl, refl, refl, refl))
  call-Calls n end r same e full =
      (_, refl, omega (arith, tick_end-in_flight q r.cache same), tick_end-SameShape r.cache)
  call-Calls n pop r same e full = (
    _,
    refl,
    omega (
      arith,
      pop_cpu_resps-in_flight q r.cache,
      sum_of-append (resp_weight q) r.answered (pop_cpu_resps r.cache).0,
    ),
    pop_cpu_resps-SameShape r.cache,
  )
  call-Calls n dram_accept r same e full =
      let (kept, shape) = accepted_at-Kept q (pick_dram_mshr r.cache) r.cache in
      (_, refl, omega (arith, kept), shape)
  call-Calls n (dram_line i bytes) r same e full =
      let (d, done, (kept, shape)) =
        resp_at-IsKept q (index i (length r.cache.mshrs)) bytes r.cache (omega (arith, e, full)) in
      (record r { cache = d }, rw done refl, omega (arith, kept), shape)

  run-Calls :
      (n : ℕ) (cs : List Call) (r : Run)
      → length r.cache.hit_pend ≡ length r.cache.pipe
      → r.cache.line_bytes ≤ n
      → FullLines n cs
      → Calls r (run cs r)
  unfolding run
  run-Calls n [] r same e full = (r, refl, refl, (refl, refl, refl, refl))
  run-Calls n (c ∷ cs) r same e (now, later) =
      let (r', done, even, (pipes, hits, entries, bytes)) = call-Calls n c r same e now in
      let (r'', done', even', shape') =
        run-Calls n cs r' (omega (arith, same, pipes, hits)) (omega (arith, e, bytes)) later in
      (
        r'',
        rw done done',
        omega (arith, even, even'),
        SameShape-trans r''.cache r'.cache r.cache shape' (pipes, hits, entries, bytes),
      )

abbrev pub fresh : DCache → Run
fresh d = record { cache = d; taken = []; answered = [] }

built-in_flight :
    (q : Test) (line_size set_count ways : ℕ) (mshr_count ports waiters latency : ℤ)
    → in_flight q (built line_size set_count ways mshr_count ports waiters latency) ≡ 0
unfolding in_flight sum_of
built-in_flight q line_size set_count ways mshr_count ports waiters latency = omega (
  arith,
  sum_of-replicate (pipe_weight q) (at_least_one ports) no_pipe refl,
  sum_of-replicate (hit_weight q) (at_least_one ports) no_hit_pend refl,
  sum_of-replicate (mshr_weight q) (count_of mshr_count) no_mshr refl,
)

-- A cache whose line size and counts of sets and ways are positive is constructed, and no sequence of
-- requests, beginnings and ends of cycles, collections of answers, and memory's acceptances and answers
-- with at least whole lines fails an assertion, as long as it has no flush, reset or write-back of the
-- cache; and of the requests that a test of id, cookie and kind picks, those that the cache has taken
-- are as many as those still in flight and the answers that it has given.
pub run-balanced :
    (q : Test) (line_size set_count ways : ℕ) (mshr_count ports waiters latency : ℤ)
    (cs : List Call)
    → 0 < line_size
    → 0 < set_count
    → 0 < ways
    → FullLines line_size cs
    → (d : DCache) × (init line_size set_count ways mshr_count ports waiters latency ≡ some d)
      × (r : Run) × (run cs (fresh d) ≡ some r)
      × (sum_of (req_weight q) r.taken ≡ in_flight q r.cache + sum_of (resp_weight q) r.answered)
unfolding sum_of
run-balanced q line_size set_count ways mshr_count ports waiters latency cs lines sets some_way
      full =
    let d = built line_size set_count ways mshr_count ports waiters latency in
    let (r, done, even, _) =
      run-Calls q line_size cs (fresh d)
        (length-replicate (at_least_one ports) no_hit_pend
          ∙ sym (length-replicate (at_least_one ports) no_pipe))
        (omega arith) full in
    (
      d,
      ground arith,
      r,
      done,
      omega (
        arith,
        even,
        built-in_flight q line_size set_count ways mshr_count ports waiters latency,
      ),
    )
