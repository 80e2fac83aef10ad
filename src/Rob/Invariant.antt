-- ===== src/Rob/Invariant.antt =====
-- What holds of every reachable reorder buffer: the busy slots are the `active_count` slots from the
-- head on, so no assert of dispatch, commit or undispatch fails.
use Prim.Native.String.{String}
use native.Mathlib.Nat.{mod-lt, mod-add-mod}
use native.Mathlib.Decide.{ℕ_discrete}
use ooo_superscalar_risc_sim.Common.{
  ℕ, ◌+◌, ◌-◌, ◌%◌, ◌≤◌, ◌<◌, ◌≡◌, ◌≢◌, ◌∙◌, sym, ap, Bool, true, false, none, some, arith, ltb,
  length, get_or, set, length-set, length-replicate, get_or-replicate, get_elem?-eq-get_or,
  get_or-set_self, get_or-set_ne, ◌⊎◌,
}
use ooo_superscalar_risc_sim.Common.Circular.{
  distance, distance_add, distance_inj, distance-next, distance-next_self,
}
use ooo_superscalar_risc_sim.Common.Int.{ℤ, Word}
use ooo_superscalar_risc_sim.Rob.{
  RobEntry, ReorderBuffer, blank, init, freed, entered, dispatch, write_result, Retired, commit,
  age_from_head,
}

abbrev pub slot : ReorderBuffer → ℕ → RobEntry
slot r i = get_or r.buffer i blank

abbrev pub is_busy : ReorderBuffer → ℕ → Bool
is_busy r i = (slot r i).busy

pub record IsValid (r : ReorderBuffer) : Type 0 where
  pub sized : length r.buffer ≡ r.capacity
  pub head_in : r.head < r.capacity
  pub tail_at : r.tail ≡ (r.head + r.active_count) % r.capacity
  pub fits : r.active_count ≤ r.capacity
  pub live : (i : ℕ) → i < r.capacity → is_busy r i ≡ ltb (age_from_head r i) r.active_count

pub init-IsValid : (size : ℕ) → 0 < size → IsValid (init size)
unfolding init
init-IsValid size h = record {
  sized = length-replicate size blank;
  head_in = h;
  tail_at = omega arith;
  fits = omega arith;
  live = λ i lt. rw (is_busy, get_or-replicate size i blank) (ground arith);
}

pub tail-lt : {r : ReorderBuffer} → IsValid r → r.tail < r.capacity
tail-lt {r} v = rw v.tail_at (mod-lt (r.head + r.active_count) (omega arith))

-- With room the slot at the tail is free.
pub tail_free :
    {r : ReorderBuffer} → IsValid r → r.active_count < r.capacity → is_busy r r.tail ≡ false
tail_free {r} v room = v.live r.tail (tail-lt v) ∙ beyond
  where
    at_end : age_from_head r r.tail ≡ r.active_count
    at_end = rw v.tail_at (distance_add r.capacity r.head v.head_in r.active_count room)

    beyond : ltb (age_from_head r r.tail) r.active_count ≡ false
    beyond = ground (arith, at_end)

-- The buffer after a successful dispatch.
abbrev pub dispatched : ReorderBuffer → String → ℤ → ReorderBuffer
dispatched r operation reg = record r {
  buffer = set r.buffer r.tail (entered (slot r r.tail) operation reg);
  tail = (r.tail + 1) % r.capacity;
  active_count = r.active_count + 1;
}

pub dispatch_room :
    {r : ReorderBuffer} (operation : String) (reg : ℤ)
    → IsValid r
    → r.active_count < r.capacity
    → dispatch r operation reg ≡ some (some r.tail, dispatched r operation reg)
unfolding dispatch
dispatch_room {r} operation reg v room =
    ground
      (arith, get_elem?-eq-get_or r.buffer r.tail blank (rw v.sized (tail-lt v)), tail_free v room)

pub dispatched-IsValid :
    {r : ReorderBuffer} (operation : String) (reg : ℤ)
    → IsValid r
    → r.active_count < r.capacity
    → IsValid (dispatched r operation reg)
dispatched-IsValid {r} operation reg v room = record {
  sized = length-set r.buffer r.tail (entered (slot r r.tail) operation reg) ∙ v.sized;
  head_in = v.head_in;
  tail_at =
      rw v.tail_at (
        mod-add-mod (r.head + r.active_count) r.capacity 1
        ∙ ap (λ t. t % r.capacity) (omega arith));
  fits = omega arith;
  live = live';
}
  where
    at_end : age_from_head r r.tail ≡ r.active_count
    at_end = rw v.tail_at (distance_add r.capacity r.head v.head_in r.active_count room)

    far : (i : ℕ) → i < r.capacity → i ≢ r.tail → age_from_head r i ≢ r.active_count
    far i lt ne e =
        ne (distance_inj r.capacity r.head v.head_in i r.tail lt (tail-lt v) (e ∙ sym at_end))

    live' :
        (i : ℕ)
        → i < r.capacity
        → (get_or (set r.buffer r.tail (entered (slot r r.tail) operation reg)) i blank).busy
          ≡ ltb (age_from_head r i) (r.active_count + 1)
    live' i lt = elim (ℕ_discrete i r.tail) [
      | yes e ↦
          rw
            (
              e,
              at_end,
              get_or-set_self r.buffer r.tail (entered (slot r r.tail) operation reg) blank
                  (rw v.sized (tail-lt v)),
            )
            (ground arith)
      | no ne ↦
          rw
            (
              get_or-set_ne r.buffer r.tail i (entered (slot r r.tail) operation reg) blank
                  (λ e. ne (sym e)),
              v.live i lt,
            )
            (ground (arith, far i lt ne))
    ]

-- The buffer after its oldest entry has left.
abbrev pub retired : ReorderBuffer → ReorderBuffer
retired r = record r {
  buffer = set r.buffer r.head (freed (slot r r.head));
  head = (r.head + 1) % r.capacity;
  active_count = r.active_count - 1;
}

abbrev pub receipt : ReorderBuffer → Retired
receipt r =
    let e = slot r r.head in record { dest_reg = e.dest_reg; value = e.value; rob_id = r.head }

-- What `commit` does: nothing if the buffer is empty or its oldest entry is not done.
pub commit_cases :
    {r : ReorderBuffer}
    → IsValid r
    → ((0 < r.active_count)
        × ((slot r r.head).done ≡ true)
        × (commit r ≡ some (some (receipt r), retired r)))
      ⊎ (((r.active_count ≡ 0) ⊎ ((slot r r.head).done ≡ false)) × (commit r ≡ some (none, r)))
unfolding commit
commit_cases {r} v =
    ground (arith, get_elem?-eq-get_or r.buffer r.head blank (rw v.sized v.head_in))

pub retired-IsValid : {r : ReorderBuffer} → IsValid r → 0 < r.active_count → IsValid (retired r)
retired-IsValid {r} v some_left = record {
  sized = length-set r.buffer r.head (freed (slot r r.head)) ∙ v.sized;
  head_in = mod-lt (r.head + 1) (omega arith);
  tail_at = rw v.tail_at (
      ap (λ t. t % r.capacity) (omega arith)
      ∙ sym (mod-add-mod (r.head + 1) r.capacity (r.active_count - 1)));
  fits = omega arith;
  live = live';
}
  where
    live' :
        (i : ℕ)
        → i < r.capacity
        → (get_or (set r.buffer r.head (freed (slot r r.head))) i blank).busy
          ≡ ltb (distance r.capacity ((r.head + 1) % r.capacity) i) (r.active_count - 1)
    live' i lt = elim (ℕ_discrete i r.head) [
      | yes e ↦
          rw
            (
              e,
              get_or-set_self r.buffer r.head (freed (slot r r.head)) blank (rw v.sized v.head_in),
              distance-next_self r.capacity r.head v.head_in,
            )
            (ground arith)
      | no ne ↦
          rw
            (
              get_or-set_ne r.buffer r.head i (freed (slot r r.head)) blank (λ e. ne (sym e)),
              v.live i lt,
            )
            (ground (arith, distance-next r.capacity r.head i v.head_in lt ne))
    ]

-- Writing a result leaves the busy slots as they are.
abbrev pub completed : ReorderBuffer → ℕ → Word → ReorderBuffer
completed r id x = record r {
  buffer = set r.buffer id (record (slot r id) { value = x; done = true });
}

pub write_result_cases :
    {r : ReorderBuffer} (id : ℕ) (x : Word)
    → IsValid r
    → id < r.capacity
    → ((is_busy r id ≡ true) × (write_result r id x ≡ some (completed r id x)))
      ⊎ ((is_busy r id ≡ false) × (write_result r id x ≡ some r))
unfolding write_result
write_result_cases {r} id x v lt =
    ground (arith, get_elem?-eq-get_or r.buffer id blank (rw v.sized lt))

pub completed-IsValid :
    {r : ReorderBuffer} (id : ℕ) (x : Word)
    → IsValid r
    → id < r.capacity
    → IsValid (completed r id x)
completed-IsValid {r} id x v inside = record {
  sized = length-set r.buffer id (record (slot r id) { value = x; done = true }) ∙ v.sized;
  head_in = v.head_in;
  tail_at = v.tail_at;
  fits = v.fits;
  live = live';
}
  where
    live' :
        (i : ℕ)
        → i < r.capacity
        → (get_or (set r.buffer id (record (slot r id) { value = x; done = true })) i blank).busy
          ≡ ltb (age_from_head r i) r.active_count
    live' i lt = elim (ℕ_discrete i id) [
      | yes e ↦
          rw
            (
              e,
              get_or-set_self r.buffer id (record (slot r id) { value = x; done = true }) blank
                  (rw v.sized inside),
            )
            (v.live id inside)
      | no ne ↦
          rw
            (get_or-set_ne r.buffer id i (record (slot r id) { value = x; done = true }) blank
              (λ e. ne (sym e)))
            (v.live i lt)
    ]
