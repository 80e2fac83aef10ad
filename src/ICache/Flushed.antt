-- ===== src/ICache/Flushed.antt =====
-- After a flush the instruction cache answers nothing that was asked before.
use ooo_superscalar_risc_sim.Common.{
  ap, ◌∙◌, ℕ, ◌≤◌, ◌≡◌, refl, arith, true, false, Option, none, some, List, [], ◌∷◌, if◌then◌else◌,
  ltb, length, get_or, take, Bool-cases, inl, inr, le→ltb, ◌>>=◌,
}
use ooo_superscalar_risc_sim.Common.Int.{ℤ, index}
use ooo_superscalar_risc_sim.ICache.Quiet.{
  IsQuiet, Alike-IsQuiet, put_mshr-IsQuiet, flush-IsQuiet, Stays, tick_hit-Stays,
  process_pipe-IsQuiet, complete_from-Stays,
}
use ooo_superscalar_risc_sim.ICache.State.{Mshr, ICache, no_mshr, put_mshr}
use ooo_superscalar_risc_sim.ICache.{
  flush, pick, accepted_at, dram_req_accepted, resp_at, dram_resp, tick_end, process_pipe,
  complete_from, pop_cpu_resp, is_at,
}

-- What memory and the clock do to the cache.
pub data Event : Type 0 where
  end dram_accept : Event
  dram_line : ℤ → List ℕ → Event

unfoldable pub happens : Event → ICache → Option ICache
happens end c = tick_end c
happens dram_accept c = some (dram_req_accepted c)
happens (dram_line i bytes) c = dram_resp c i bytes

unfoldable pub happen : List Event → ICache → Option ICache
happen [] c = some c
happen (e ∷ es) c = do c' ← happens e c; happen es c'

-- Memory answers with whole lines.
abbrev pub FullLines : ℕ → List Event → Type 0
FullLines n [] = Unit
FullLines n (dram_line i bytes ∷ es) = (n ≤ length bytes) × FullLines n es
FullLines n (_ ∷ es) = FullLines n es

accepted_at-IsQuiet :
    (n : ℕ) (o : Option ℕ) (c : ICache) → IsQuiet n c → IsQuiet n (accepted_at o c)
unfolding accepted_at
accepted_at-IsQuiet n none c h = h
accepted_at-IsQuiet n (some i) c h =
    let v = record (get_or c.mshrs i no_mshr) { fill_sent = true } in
    Alike-IsQuiet n (accepted_at (some i) c) (put_mshr i v c)
      (record {
        same_resp = refl;
        same_pipe = refl;
        same_hit = refl;
        same_mshrs = refl;
        same_size = refl;
      })
      (put_mshr-IsQuiet n i v c (h.unwanted i) h)

resp_at-IsQuiet :
    (n : ℕ) (o : Option ℕ) (bytes : List ℕ) (c : ICache)
    → n ≤ length bytes
    → IsQuiet n c
    → (c' : ICache) × (resp_at o bytes c ≡ some c') × IsQuiet n c'
unfolding resp_at
resp_at-IsQuiet n none bytes c full h = (c, refl, h)
resp_at-IsQuiet n (some i) bytes c full h =
    let m : Mshr = get_or c.mshrs i no_mshr in
    let v : Mshr = record m { line = take c.line_bytes bytes; fill_ready = true } in
    let whole : ltb (length bytes) c.line_bytes ≡ false =
      le→ltb (length bytes) c.line_bytes (omega (arith, h.size, full)) in
    elim (Bool-cases m.valid) [
      | inr e ↦ (c, simp e refl, h)
      | inl e ↦ (
        record (put_mshr i v c) { dram_mshr = if is_at c.dram_mshr i then none else c.dram_mshr },
        simp (e, whole) refl,
        Alike-IsQuiet n _ (put_mshr i v c)
            (record {
              same_resp = refl;
              same_pipe = refl;
              same_hit = refl;
              same_mshrs = refl;
              same_size = refl;
            })
            (put_mshr-IsQuiet n i v c (h.unwanted i) h),
      )
    ]

tick_end-Stays : (n : ℕ) (c : ICache) → IsQuiet n c → Stays n (tick_end c)
unfolding tick_end
tick_end-Stays n c h =
    let (d, ticked, q) = tick_hit-Stays n c h in
    let (c', done, h') =
      complete_from-Stays n 0 (length (process_pipe d).mshrs) (process_pipe d)
        (process_pipe-IsQuiet n d q) in
    (
      c',
      ap (λ o. o >>= λ e. complete_from 0 (length (process_pipe e).mshrs) (process_pipe e)) ticked
          ∙ done,
      h',
    )

happen-IsQuiet :
    (n : ℕ) (es : List Event) (c : ICache)
    → FullLines n es
    → IsQuiet n c
    → (c' : ICache) × (happen es c ≡ some c') × IsQuiet n c'
unfolding happen happens dram_req_accepted dram_resp
happen-IsQuiet n [] c full h = (c, refl, h)
happen-IsQuiet n (end ∷ es) c full h =
    let (c', done, h') = tick_end-Stays n c h in
    let (c'', done', h'') = happen-IsQuiet n es c' full h' in (c'', rw done done', h'')
happen-IsQuiet n (dram_accept ∷ es) c full h =
    happen-IsQuiet n es (dram_req_accepted c) full (accepted_at-IsQuiet n (pick c) c h)
happen-IsQuiet n (dram_line i bytes ∷ es) c (now, later) h =
    let (c', done, h') = resp_at-IsQuiet n (index i (length c.mshrs)) bytes c now h in
    let (c'', done', h'') = happen-IsQuiet n es c' later h' in (c'', rw done done', h'')

-- After a flush, whatever the clock and memory do while the core asks for nothing more, the cache has
-- no answer for the core, and memory's whole lines never make it fail.
pub flush-no_resp :
    (c : ICache) (es : List Event)
    → FullLines c.line_bytes es
    → (c' : ICache) × (happen es (flush c) ≡ some c') × ((pop_cpu_resp c').0 ≡ none)
unfolding pop_cpu_resp
flush-no_resp c es full =
    let (c', done, h) = happen-IsQuiet c.line_bytes es (flush c) full (flush-IsQuiet c) in
    (c', done, h.no_resp)
