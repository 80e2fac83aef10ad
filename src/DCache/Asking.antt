-- ===== src/DCache/Asking.antt =====
-- The requests of a data cache to memory: one at a time.
use ooo_superscalar_risc_sim.Common.{
  ℕ, ◌≡◌, ◌∙◌, refl, false, not, Option, none, some, get_or, if_lem, ap, ◌&&◌, List, [], ◌∷◌, Bool,
  true,
}
use ooo_superscalar_risc_sim.DCache.State.{DCache, no_mshr}
use ooo_superscalar_risc_sim.DCache.Fills.{
  pick_dram_mshr, dram_req_accepted, wants_wb, is_some, has_dram_req, dram_req_is_write,
  dram_req_id, accepted_at,
}
use ooo_superscalar_risc_sim.DCache.{pop_cpu_resps}
use ooo_superscalar_risc_sim.DCache.Runs.{
  Call, send, begin, end, pop, dram_accept, dram_line, Run, call, run, fresh,
}
use ooo_superscalar_risc_sim.DCache.Order.{IsNextRequest, has_dram_req-IsNextRequest}
use ooo_superscalar_risc_sim.DCache.Pending.{tick_end-SameAsk, try_cpu_req-SameAsk}

accepted_at-is_some :
    (o : Option ℕ) (d : DCache)
    → is_some d.dram_mshr ≡ true
    → is_some (accepted_at o d).dram_mshr ≡ true
unfolding accepted_at
accepted_at-is_some none d h = h
accepted_at-is_some (some i) d h =
    if_lem (λ (t : DCache). is_some t.dram_mshr ≡ true) (wants_wb (get_or d.mshrs i no_mshr)) refl
      refl

-- Anything but an answer of memory.
abbrev pub NoAnswer : Call → Type 0
NoAnswer (dram_line i bytes) = ⊥
NoAnswer _ = Unit

abbrev pub NoAnswers : List Call → Type 0
NoAnswers [] = Unit
NoAnswers (c ∷ cs) = NoAnswer c × NoAnswers cs

abbrev Waits : Option Run → Type 0
Waits o = (r : Run) × (o ≡ some r) × (is_some r.cache.dram_mshr ≡ true)

call-Waits : (c : Call) (r : Run) → NoAnswer c → is_some r.cache.dram_mshr ≡ true → Waits (call c r)
unfolding call pop_cpu_resps dram_req_accepted
call-Waits (send new) r quiet h = (_, refl, ap is_some (try_cpu_req-SameAsk r.cache new) ∙ h)
call-Waits begin r quiet h = (_, refl, h)
call-Waits end r quiet h = (_, refl, ap is_some (tick_end-SameAsk r.cache) ∙ h)
call-Waits pop r quiet h = (_, refl, h)
call-Waits dram_accept r quiet h = (_, refl, accepted_at-is_some (pick_dram_mshr r.cache) r.cache h)
call-Waits (dram_line i bytes) r quiet h = absurd quiet

run-Waits :
    (cs : List Call) (r : Run) → NoAnswers cs → is_some r.cache.dram_mshr ≡ true → Waits (run cs r)
unfolding run
run-Waits [] r quiet h = (r, refl, h)
run-Waits (c ∷ cs) r (now, later) h =
    let (r', done, h') = call-Waits c r now h in
    let (r'', done', h'') = run-Waits cs r' later h' in (r'', rw done done', h'')

accepted_at-asks :
    (o : Option ℕ) (d : DCache) → is_some o ≡ true → is_some (accepted_at o d).dram_mshr ≡ true
unfolding accepted_at
accepted_at-asks none d h = cc
accepted_at-asks (some i) d h =
    if_lem (λ (t : DCache). is_some t.dram_mshr ≡ true) (wants_wb (get_or d.mshrs i no_mshr)) refl
      refl

picks : (b c : Bool) → (not b && c) ≡ true → c ≡ true
picks true c h = cc
picks false c h = h

-- What the cache asks of memory, while it asks: the entry is in use; a write-back is one that is still to
-- be sent; a fill is of an entry whose own write-back is done, and no entry has a write-back to send. Once
-- memory accepts it, the cache asks for nothing more, whatever requests, ends of cycles, collections of
-- answers and acceptances follow, as long as memory does not answer and there is no flush, reset or
-- write-back of the cache.
pub run-IsNextRequest :
    (d : DCache) (cs : List Call)
    → has_dram_req d ≡ true
    → NoAnswers cs
    → IsNextRequest d.mshrs (dram_req_id d) (dram_req_is_write d)
      × (r : Run) × (run cs (fresh (dram_req_accepted d)) ≡ some r)
      × (has_dram_req r.cache ≡ false)
unfolding has_dram_req dram_req_accepted
run-IsNextRequest d cs asks quiet =
    let some_one : is_some (pick_dram_mshr d) ≡ true =
      picks (is_some d.dram_mshr) (is_some (pick_dram_mshr d)) asks in
    let (r, done, waits) =
      run-Waits cs (fresh (dram_req_accepted d)) quiet
        (accepted_at-asks (pick_dram_mshr d) d some_one) in
    (has_dram_req-IsNextRequest d asks, r, done, rw waits refl)
