-- ===== src/CachedMemory/Route.antt =====
-- Requests of the two caches to memory, and the way back of the answers.
use ooo_superscalar_risc_sim.Common.{
  Bool, true, false, not, ◌&&◌, [], ap, sym, subst, if◌then◌else◌, ℕ, ◌^◌, ◌<◌, ◌≡◌, refl, arith,
  Option, none, some, List, ◌>>=◌,
}
use ooo_superscalar_risc_sim.Common.Int.{ℤ, pos, Word}
use mathlib.Core.Option
use ooo_superscalar_risc_sim.DCache.Fills.{
  has_dram_req, dram_req_is_write, dram_req_addr, dram_req_data, dram_req_id, dram_req_accepted,
  dram_resp,
}
use ooo_superscalar_risc_sim.Dram.{DramSimple, line_of, any_free, try_accept}
use ooo_superscalar_risc_sim.Dram.Slots.{Requested, try_accept-Requested}
use ooo_superscalar_risc_sim.DCache.State.{DCache}
use ooo_superscalar_risc_sim.ICache
use ooo_superscalar_risc_sim.ICache.State.{ICache}
use ooo_superscalar_risc_sim.CachedMemory.{
  CachedMemorySystem, dram_client_d, dram_client_i, dram_id_of, client_of, mid_of, route_to,
  arbitrate_d, arbitrate_i, arbitrate_to_dram,
}

fields_of-dram_id_of :
    (client mid : ℕ)
    → client < 2 ^ 15
    → mid < 2 ^ 16
    → (client_of (dram_id_of client mid) ≡ client) × (mid_of (dram_id_of client mid) ≡ mid)
unfolding client_of mid_of dram_id_of
fields_of-dram_id_of client mid c m = (omega arith, omega arith)

abbrev pub to_dcache : CachedMemorySystem → Option DCache → Option CachedMemorySystem
to_dcache s none = none
to_dcache s (some d) = some (record s { dcache = d })

abbrev pub to_icache : CachedMemorySystem → Option ICache → Option CachedMemorySystem
to_icache s none = none
to_icache s (some c) = some (record s { icache = c })

-- An answer that carries the id of a request of the data cache goes to the data cache, to the entry that
-- asked, and leaves the instruction cache alone; and the other way round for the instruction cache.
route_to-dram_id_of :
    (s : CachedMemorySystem) (mid : ℕ) (line : List ℕ)
    → mid < 2 ^ 16
    → (route_to (some (dram_id_of dram_client_d mid, line)) s
        ≡ to_dcache s (dram_resp s.dcache (pos mid) line))
      × (route_to (some (dram_id_of dram_client_i mid, line)) s
          ≡ to_icache s (ICache.dram_resp s.icache (pos mid) line))
unfolding route_to
route_to-dram_id_of s mid line small =
    let (cd, md) = fields_of-dram_id_of dram_client_d mid (omega arith) small in
    let (ci, mi) = fields_of-dram_id_of dram_client_i mid (omega arith) small in
    (
      simp (cd, md) (go_d (dram_resp s.dcache (pos mid) line)),
      simp (ci, mi) (go_i (ICache.dram_resp s.icache (pos mid) line)),
    )
  where
    go_d : (o : Option DCache) → (o >>= λ d. some (record s { dcache = d })) ≡ to_dcache s o
    go_d none = refl
    go_d (some d) = refl

    go_i : (o : Option ICache) → (o >>= λ c. some (record s { icache = c })) ≡ to_icache s o
    go_i none = refl
    go_i (some c) = refl

-- The caches of a result, if there is one.
abbrev Caches : Option CachedMemorySystem → DCache × ICache → Type 0
Caches none caches = Unit
Caches (some t) caches = (t.dcache, t.icache) ≡ caches

-- Can memory take a request now?
abbrev pub can_take : CachedMemorySystem → Bool
can_take s = not s.dram.accepted_this_cycle && any_free s.dram.slots

abbrev pub AskResult : Type 0
AskResult = Option CachedMemorySystem

-- Memory is asked for the line at an address, under an id such that an answer to that id, whatever
-- state the system is in by then, is `answer`; the caches are then `caches`, by whether memory takes it.
abbrev pub Asked :
    Bool
    → Word
    → List ℕ
    → Bool
    → (Bool → DCache × ICache)
    → (CachedMemorySystem → List ℕ → AskResult)
    → CachedMemorySystem
    → List Word
    → AskResult
    → Type 0
Asked w addr bytes from_imem caches answer s memory r =
    (id : ℤ) × Requested s.dram w addr id (line_of s.dram w addr bytes from_imem memory)
      (can_take s) (Option.map (λ t. (can_take s, t.dram)) r)
    × Caches r (caches (can_take s))
    × ((s' : CachedMemorySystem) (line : List ℕ) → route_to (some (id, line)) s' ≡ answer s' line)

-- The data cache asks if it has a request, and only else the instruction cache.
abbrev pub Arbitrated : Bool → Bool → CachedMemorySystem → List Word → AskResult → Type 0
Arbitrated true i s memory r =
    let d = s.dcache in
    Asked (dram_req_is_write d) (dram_req_addr d) (dram_req_data d) false
      (λ taken. (if taken then dram_req_accepted d else d, s.icache))
      (λ s' line. to_dcache s' (dram_resp s'.dcache (pos (dram_req_id d)) line)) s memory r
Arbitrated false true s memory r =
    let c = s.icache in
    Asked false (ICache.dram_req_addr c) [] true
      (λ taken. (s.dcache, if taken then ICache.dram_req_accepted c else c))
      (λ s' line. to_icache s' (ICache.dram_resp s'.icache (pos (ICache.dram_req_id c)) line)) s
      memory r
Arbitrated false false s memory r = r ≡ some s

module _ (d : DramSimple) (w : Bool) (addr : Word) (id : ℤ)
    (next : Bool → DramSimple → CachedMemorySystem) (caches : Bool → DCache × ICache)
    (keeps : (b : Bool) (m : DramSimple) → (next b m).dram ≡ m)
    (sides : (b : Bool) (m : DramSimple) → ((next b m).dcache, (next b m).icache) ≡ caches b) where
  abbrev Passed : Option (List ℕ) → Bool → Option (Bool × DramSimple) → Type 0
  Passed line free o =
      Requested d w addr id line free
        (Option.map (λ t. (free, t.dram)) (o >>= λ p. some (next p.0 p.1)))
      × Caches (o >>= λ p. some (next p.0 p.1)) (caches free)

  passed :
      (line : Option (List ℕ)) (free : Bool) (o : Option (Bool × DramSimple))
      → Requested d w addr id line free o
      → Passed line free o
  passed line false o e =
      subst (Passed line false) (sym e) (ap (λ m. some (false, m)) (keeps false d), sides false d)
  passed none true o e = subst (Passed none true) (sym e) (refl, tt)
  passed (some line) true o (ss, e, joined) =
      let m : DramSimple = record d { slots = ss; accepted_this_cycle = true } in
      subst (Passed (some line) true) (sym e)
        ((ss, ap (λ t. some (true, t)) (keeps true m), joined), sides true m)

-- One request goes to memory in a cycle: the data cache's if it has one, and only else the instruction
-- cache's; without one nothing changes. Memory takes it exactly if it took none in this cycle and has a
-- slot free, and the cache that asked, no other, then notes that it was accepted. It carries an id such
-- that an answer to that id, whatever state the system is in by then, goes to the cache and the entry
-- that asked, and to no other; entry numbers are below 2^16.
pub arbitrate_to_dram-Arbitrated :
    (s : CachedMemorySystem) (memory : List Word)
    → dram_req_id s.dcache < 2 ^ 16
    → ICache.dram_req_id s.icache < 2 ^ 16
    → Arbitrated
        (has_dram_req s.dcache)
        (ICache.has_dram_req s.icache)
        s
        memory
        (arbitrate_to_dram s memory)
unfolding arbitrate_to_dram arbitrate_d arbitrate_i
arbitrate_to_dram-Arbitrated s memory small_d small_i =
    go (has_dram_req s.dcache) (ICache.has_dram_req s.icache)
  where
    d : DCache
    d = s.dcache

    c : ICache
    c = s.icache

    go :
        (x y : Bool)
        → Arbitrated x y s memory
            (if x then arbitrate_d s memory else if y then arbitrate_i s memory else some s)
    go true y =
        let id : ℤ = dram_id_of dram_client_d (dram_req_id d) in
        let (asked, kept) =
          passed s.dram (dram_req_is_write d) (dram_req_addr d) id
            (λ b m. record s { dram = m; dcache = if b then dram_req_accepted d else d })
            (λ b. (if b then dram_req_accepted d else d, s.icache)) (λ b m. refl) (λ b m. refl)
            (line_of s.dram (dram_req_is_write d) (dram_req_addr d) (dram_req_data d) false memory)
            (can_take s)
            (try_accept s.dram (dram_req_is_write d) (dram_req_addr d) (dram_req_data d) id false
              memory)
            (try_accept-Requested s.dram (dram_req_is_write d) (dram_req_addr d) (dram_req_data d)
              id false memory) in
        (id, asked, kept, λ s' line. (route_to-dram_id_of s' (dram_req_id d) line small_d).0)
    go false true =
        let id : ℤ = dram_id_of dram_client_i (ICache.dram_req_id c) in
        let (asked, kept) =
          passed s.dram false (ICache.dram_req_addr c) id
            (λ b m. record s { dram = m; icache = if b then ICache.dram_req_accepted c else c })
            (λ b. (s.dcache, if b then ICache.dram_req_accepted c else c)) (λ b m. refl)
            (λ b m. refl) (line_of s.dram false (ICache.dram_req_addr c) [] true memory)
            (can_take s) (try_accept s.dram false (ICache.dram_req_addr c) [] id true memory)
            (try_accept-Requested s.dram false (ICache.dram_req_addr c) [] id true memory) in
        (id, asked, kept, λ s' line. (route_to-dram_id_of s' (ICache.dram_req_id c) line small_i).1)
    go false false = refl
