-- ===== src/Rob/Contents.antt =====
-- The queue of instructions that a reorder buffer holds, read off its circular buffer, and how
-- each change of the buffer shows in it.
use Prim.Native.String.{String}
use native.Mathlib.Nat.{mod-lt, add-zero, mod-eq_of_lt}
use native.Mathlib.Numerals.{add-one}
use ooo_superscalar_risc_sim.Common.{
  ℕ, zero, suc, ◌+◌, ◌-◌, ◌%◌, ◌<◌, ◌≡◌, ◌≢◌, ◌∙◌, sym, ap, ap₂, true, none, some, List, [], ◌∷◌,
  ◌++◌, arith, length, get_or, set, get_or-set_self, get_or-set_ne, if◌then◌else◌,
}
use ooo_superscalar_risc_sim.Common.Circular.{
  window, length-window, window_congr, window_snoc, window-mod, distance, distance_add,
}
use ooo_superscalar_risc_sim.Common.Int.{ℤ, Word}
use ooo_superscalar_risc_sim.Rob.{RobEntry, ReorderBuffer, blank, entered, freed}
use ooo_superscalar_risc_sim.Rob.Invariant.{slot, IsValid, dispatched, retired, completed}
use ooo_superscalar_risc_sim.Rob.InOrder.{Instr, waiting, finish}

abbrev pub view : RobEntry → Instr
view e = record { op = e.op; dest_reg = e.dest_reg; result = if e.done then some e.value else none }

abbrev pub seen : List RobEntry → ℕ → Instr
seen buffer i = view (get_or buffer i blank)

-- The instructions in flight, the oldest first.
abbrev pub contents : ReorderBuffer → List Instr
contents r = window (seen r.buffer) r.capacity r.head r.active_count

pub length-contents : (r : ReorderBuffer) → length (contents r) ≡ r.active_count
length-contents r = length-window (seen r.buffer) r.capacity r.head r.active_count

-- Two readings that differ only in the result of the `k`-th place.
finish-window :
    (f g : ℕ → Instr) (cap h n k : ℕ) (x : Word)
    → k < n
    → g ((h + k) % cap) ≡ (let i = f ((h + k) % cap) in record i { result = some x })
    → ((j : ℕ) → j < n → j ≢ k → g ((h + j) % cap) ≡ f ((h + j) % cap))
    → window g cap h n ≡ finish k x (window f cap h n)
finish-window f g cap h zero k x lt at_k rest = absurd (omega arith)
finish-window f g cap h (suc n) zero x lt at_k rest =
    let start : h + 0 ≡ h = omega arith in
    ap₂ ◌∷◌ (rw start at at_k) (
      window_congr g f cap (h + 1) n (λ j a.
        let shift : h + 1 + j ≡ h + suc j = omega arith in
        rw shift (rest (suc j) (omega arith) (omega arith))))
finish-window f g cap h (suc n) (suc k) x lt at_k rest =
    let start : h + 0 ≡ h = omega arith in
    ap₂ ◌∷◌ (rw start at (rest 0 (omega arith) (omega arith))) (
      finish-window f g cap (h + 1) n k x (omega arith)
        (let shift : h + 1 + k ≡ h + suc k = omega arith in rw shift at_k)
        (λ j a ne.
          let shift : h + 1 + j ≡ h + suc j = omega arith in
          rw shift (rest (suc j) (omega arith) (omega arith))))

module _ {r : ReorderBuffer} (v : IsValid r) where
  -- The slots of the window are not the slot at distance `j`, from `n` on.
  pub place_ne :
      (k j : ℕ)
      → k < r.capacity
      → j < r.capacity
      → k ≢ j
      → (r.head + k) % r.capacity ≢ (r.head + j) % r.capacity
  place_ne k j a b ne e = ne (
      sym (distance_add r.capacity r.head v.head_in k a)
      ∙ ap (distance r.capacity r.head) e
      ∙ distance_add r.capacity r.head v.head_in j b)

  place-lt : (k : ℕ) → (r.head + k) % r.capacity < length r.buffer
  place-lt k = rw v.sized (mod-lt (r.head + k) (omega (arith, v.head_in)))

  -- A write to the slot at distance `j` shows in the window at no other place.
  elsewhere :
      (e : RobEntry) (j k : ℕ)
      → j < r.capacity
      → k < r.capacity
      → k ≢ j
      → seen (set r.buffer ((r.head + j) % r.capacity) e) ((r.head + k) % r.capacity)
        ≡ seen r.buffer ((r.head + k) % r.capacity)
  elsewhere e j k a b ne = ap view (
      get_or-set_ne r.buffer ((r.head + j) % r.capacity) ((r.head + k) % r.capacity) e blank
        (place_ne j k a b (λ p. ne (sym p))))

  there :
      (e : RobEntry) (j : ℕ)
      → seen (set r.buffer ((r.head + j) % r.capacity) e) ((r.head + j) % r.capacity) ≡ view e
  there e j = ap view (get_or-set_self r.buffer ((r.head + j) % r.capacity) e blank (place-lt j))

  pub contents-dispatched :
      (operation : String) (reg : ℤ)
      → r.active_count < r.capacity
      → contents (dispatched r operation reg) ≡ contents r ++ waiting operation reg ∷ []
  contents-dispatched operation reg room =
      rw (v.tail_at, add-one)
        (window_snoc (seen (set r.buffer at e)) r.capacity r.head r.active_count
          ∙ ap₂ (λ (q : List Instr) (x : Instr). q ++ x ∷ [])
              (window_congr (seen (set r.buffer at e)) (seen r.buffer) r.capacity r.head
                r.active_count
                (λ k lt. elsewhere e r.active_count k room (omega arith) (omega arith)))
              (there e r.active_count))
    where
      at : ℕ
      at = (r.head + r.active_count) % r.capacity

      e : RobEntry
      e = entered (slot r at) operation reg

  head_read : r.head % r.capacity ≡ r.head
  head_read = mod-eq_of_lt v.head_in

  pub contents-front :
      0 < r.active_count
      → contents r
        ≡ view (slot r r.head) ∷ window (seen r.buffer) r.capacity (r.head + 1) (r.active_count - 1)
  contents-front pos =
      let e : r.active_count ≡ suc (r.active_count - 1) = omega arith in
      ap (window (seen r.buffer) r.capacity r.head) e
      ∙ ap
          (λ t.
            seen r.buffer t ∷ window (seen r.buffer) r.capacity (r.head + 1) (r.active_count - 1))
          head_read

  pub contents-retired :
      0 < r.active_count
      → contents (retired r) ≡ window (seen r.buffer) r.capacity (r.head + 1) (r.active_count - 1)
  contents-retired pos =
      window-mod (seen (set r.buffer r.head e)) r.capacity (r.head + 1) (r.active_count - 1)
      ∙ window_congr (seen (set r.buffer r.head e)) (seen r.buffer) r.capacity (r.head + 1)
          (r.active_count - 1) kept
    where
      e : RobEntry
      e = freed (slot r r.head)

      start : (r.head + 0) % r.capacity ≡ r.head
      start = rw add-zero head_read

      kept :
          (k : ℕ)
          → k < r.active_count - 1
          → seen (set r.buffer r.head e) ((r.head + 1 + k) % r.capacity)
            ≡ seen r.buffer ((r.head + 1 + k) % r.capacity)
      kept k lt =
          let shift : r.head + 1 + k ≡ r.head + suc k = omega arith in
          rw shift (
            rw start at (
              elsewhere e 0 (suc k) (omega (arith, v.head_in)) (omega (arith, v.fits))
                (omega arith)))

  pub contents-completed :
      (k : ℕ) (x : Word)
      → k < r.active_count
      → contents (completed r ((r.head + k) % r.capacity) x) ≡ finish k x (contents r)
  contents-completed k x lt =
      finish-window (seen r.buffer) (seen (set r.buffer at e)) r.capacity r.head r.active_count k x
        lt (there e k)
        (λ j a ne. elsewhere e k j (omega (arith, v.fits)) (omega (arith, v.fits)) ne)
    where
      at : ℕ
      at = (r.head + k) % r.capacity

      e : RobEntry
      e = record (slot r at) { value = x; done = true }
