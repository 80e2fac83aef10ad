-- ===== src/Dram/Slots.antt =====
-- The requests that the memory holds, in slot order.
use ooo_superscalar_risc_sim.Common.{
  ℕ, suc, ◌≡◌, refl, ap, Bool, true, false, not, ◌&&◌, Option, none, some, List, [], ◌∷◌, ◌++◌,
  if◌then◌else◌, ◌==◌, length,
}
use ooo_superscalar_risc_sim.Common.Int.{ℤ, Word}
use ooo_superscalar_risc_sim.Dram.{
  Slot, DramSimple, line_of, accept_first, request, any_free, try_accept, pop_first, try_pop_resp,
}

abbrev pub held : List Slot → List Slot
held [] = []
held (s ∷ ss) = let rest = held ss in if s.valid then s ∷ rest else rest

-- One request more, the others in order and unchanged.
abbrev pub Joined : Slot → List Slot → List Slot → Type 0
Joined new ss ss' =
    (before : List Slot) × (after : List Slot) × (held ss ≡ before ++ after)
    × (held ss' ≡ before ++ new ∷ after)

abbrev pub Accepted : Slot → List Slot → Bool × List Slot → Bool → Type 0
Accepted new ss (done, ss') true = (done ≡ true) × Joined new ss ss'
Accepted new ss (done, ss') false = length (held ss) ≡ length ss

accept_first-Accepted :
    (new : Slot) (ss : List Slot)
    → new.valid ≡ true
    → Accepted new ss (accept_first new ss) (any_free ss)
unfolding accept_first
accept_first-Accepted new [] v = refl
accept_first-Accepted new (s ∷ ss) v =
    go s.valid refl (any_free ss) (accept_first new ss) (accept_first-Accepted new ss v)
  where
    go :
        (b : Bool)
        → s.valid ≡ b
        → (f : Bool) (r : Bool × List Slot) → Accepted new ss r f
        → Accepted new
            (s ∷ ss)
            (if b then (r.0, s ∷ r.1) else (true, new ∷ ss))
            (if b then f else true)
    go true h true (done, ss') (e, (before, after, l, m)) =
        (e, (s ∷ before, after, simp h (ap (λ t. s ∷ t) l), simp h (ap (λ t. s ∷ t) m)))
    go true h false r full = simp h (ap suc full)
    go false h f r ih = (refl, ([], held ss, simp h refl, simp v refl))

-- What a request does, by what its data is and by whether a request can be taken.
abbrev pub Requested :
    DramSimple → Bool → Word → ℤ → Option (List ℕ) → Bool → Option (Bool × DramSimple) → Type 0
Requested d w addr id line false r = r ≡ some (false, d)
Requested d w addr id none true r = r ≡ none
Requested d w addr id (some line) true r =
    (ss : List Slot) × (r ≡ some (true, record d { slots = ss; accepted_this_cycle = true }))
    × Joined (request d w addr id line) d.slots ss

-- A request is taken exactly when none was in this cycle and a slot is free; it then waits for the whole
-- latency with the line that it writes or that memory has now, and no other request changes. A refusal
-- changes nothing. Only a write of less than a line fails the assertion.
pub try_accept-Requested :
    (d : DramSimple) (w : Bool) (addr : Word) (wdata : List ℕ) (id : ℤ) (from_imem : Bool)
    (memory : List Word)
    → Requested d w addr id
        (line_of d w addr wdata from_imem memory)
        (not d.accepted_this_cycle && any_free d.slots)
        (try_accept d w addr wdata id from_imem memory)
unfolding try_accept
try_accept-Requested d w addr wdata id from_imem memory =
    go d.accepted_this_cycle (any_free d.slots) (line_of d w addr wdata from_imem memory)
      (λ line. accept_first-Accepted (request d w addr id line) d.slots refl)
  where
    tried : Bool → Bool → Option (List ℕ) → Option (Bool × DramSimple)
    tried a f o = if a then some (false, d) else if not f then some (false, d) else elim o [
      | none ↦ none
      | some line ↦
          let (done, ss) = accept_first (request d w addr id line) d.slots in
          some (done, record d { slots = ss; accepted_this_cycle = done })
    ]

    go :
        (a f : Bool) (o : Option (List ℕ))
        → ((line : List ℕ)
            → Accepted
                (request d w addr id line)
                d.slots
                (accept_first (request d w addr id line) d.slots)
                f)
        → Requested d w addr id o (not a && f) (tried a f o)
    go true f o h = refl
    go false false o h = refl
    go false true none h = refl
    go false true (some line) h =
        let r = accept_first (request d w addr id line) d.slots in
        let (e, joined) = h line in
        (r.1, ap (λ b. some (b, record d { slots = r.1; accepted_this_cycle = b })) e, joined)

-- The first request whose countdown has ended, and the others.
abbrev pub first_done : List Slot → Option (ℤ × List ℕ) × List Slot
first_done [] = (none, [])
first_done (s ∷ ss) =
    let rest = first_done ss in
    if s.cycles_left == 0 then (some (s.dram_id, s.bytes), ss) else (rest.0, s ∷ rest.1)

-- The response is that of the first request whose countdown has ended; only that one leaves.
pub try_pop_resp_refines :
    (d : DramSimple)
    → ((try_pop_resp d).0, held (try_pop_resp d).1.slots) ≡ first_done (held d.slots)
unfolding pop_first
try_pop_resp_refines d = go d.slots
  where
    step :
        (s : Slot) (ss : List Slot) (v : Bool)
        → s.valid ≡ v
        → (z : Bool) → (s.cycles_left == 0) ≡ z
        → ((pop_first ss).0, held (pop_first ss).1) ≡ first_done (held ss)
        → ((pop_first (s ∷ ss)).0, held (pop_first (s ∷ ss)).1) ≡ first_done (held (s ∷ ss))
    step s ss true h true z ih = simp (h, z) refl
    step s ss true h false z ih =
        simp (h, z) (ap (λ (r : Option (ℤ × List ℕ) × List Slot). (r.0, s ∷ r.1)) ih)
    step s ss false h z e ih = simp h ih

    go : (ss : List Slot) → ((pop_first ss).0, held (pop_first ss).1) ≡ first_done (held ss)
    go [] = refl
    go (s ∷ ss) = step s ss s.valid refl (s.cycles_left == 0) refl (go ss)
