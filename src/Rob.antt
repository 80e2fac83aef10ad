-- ===== src/Rob.antt =====
-- src/reorder_buffer.cpp and include/reorder_buffer.hpp: the reorder buffer, a circular buffer of
-- in-flight instructions from `head` (the oldest) on. `none` is a failed assertion or an access out
-- of range; a method that changes the buffer returns the new one.
pub mod Invariant
pub mod InOrder
pub mod Contents
pub mod Refine
pub mod Squash
pub mod Undo
mod Tests
use Prim.Native.String.{String}
use ooo_superscalar_risc_sim.Common.{
  ℕ, ◌+◌, ◌-◌, ◌%◌, Bool, true, false, not, ◌&&◌, ◌||◌, Option, none, some, List, [], ◌∷◌,
  if◌then◌else◌, ltb, leb, ◌==◌, get_elem?, set, replicate,
}
use ooo_superscalar_risc_sim.Common.Circular.{distance}
use ooo_superscalar_risc_sim.Common.Int.{ℤ, pos, Word}

pub record RobEntry : Type 0 where
  pub busy : Bool
  pub op : String
  pub dest_reg : ℤ
  pub value : Word
  pub done : Bool

pub record ReorderBuffer : Type 0 where
  pub buffer : List RobEntry
  pub capacity : ℕ
  pub head : ℕ
  pub tail : ℕ
  pub active_count : ℕ

-- A value-initialised entry.
abbrev pub blank : RobEntry
blank = record { busy = false; op = ""; dest_reg = pos 0; value = 0; done = false }

-- The constructor.
pub init : ℕ → ReorderBuffer
init size = record {
  buffer = replicate size blank;
  capacity = size;
  head = 0;
  tail = 0;
  active_count = 0;
}

-- `commit` and the squash leave the other fields of a slot as they are.
abbrev pub freed : RobEntry → RobEntry
freed e = record e { busy = false; done = false }

-- The entry that `dispatch` writes: `value` keeps what the slot held.
abbrev pub entered : RobEntry → String → ℤ → RobEntry
entered e operation reg = record e { busy = true; op = operation; dest_reg = reg; done = false }

-- `some (none, r)` is the result -1. The asserts hold the slot in range, free, and the count in range.
pub dispatch : ReorderBuffer → String → ℤ → Option (Option ℕ × ReorderBuffer)
dispatch r operation reg =
    if r.active_count == r.capacity then some (none, r) else elim (get_elem? r.buffer r.tail) [
      | none ↦ none
      | some e ↦
          if e.busy || leb r.capacity r.active_count
          then none
          else some (
            some r.tail,
            record r {
              buffer = set r.buffer r.tail (entered e operation reg);
              tail = (r.tail + 1) % r.capacity;
              active_count = r.active_count + 1;
            },
          )
    ]

-- The slot behind the tail.
abbrev pub last : ReorderBuffer → ℕ
last r = (r.tail + r.capacity - 1) % r.capacity

pub undispatch : ReorderBuffer → ℕ → Bool × ReorderBuffer
undispatch r rob_id = if r.active_count == 0 then (false, r) else elim (get_elem? r.buffer rob_id) [
  | none ↦ (false, r)
  | some e ↦
      if rob_id == last r && e.busy
      then (
        true,
        record r {
          buffer = set r.buffer rob_id (freed e);
          tail = last r;
          active_count = r.active_count - 1;
        },
      )
      else (false, r)
]

pub has_space : ReorderBuffer → Bool
has_space r = ltb r.active_count r.capacity

unfoldable pub write_result : ReorderBuffer → ℕ → Word → Option ReorderBuffer
write_result r rob_id computed = elim (get_elem? r.buffer rob_id) [
  | none ↦ none
  | some e ↦ some (
      if e.busy
      then record r { buffer = set r.buffer rob_id (record e { value = computed; done = true }) }
      else r)
]

-- What `commit` hands out through its reference arguments.
pub record Retired : Type 0 where
  pub dest_reg : ℤ
  pub value : Word
  pub rob_id : ℕ

-- `some (none, r)` is the result false.
pub commit : ReorderBuffer → Option (Option Retired × ReorderBuffer)
commit r = if r.active_count == 0 then some (none, r) else elim (get_elem? r.buffer r.head) [
  | none ↦ none
  | some e ↦
      if e.done
      then some (
        some (record { dest_reg = e.dest_reg; value = e.value; rob_id = r.head }),
        record r {
          buffer = set r.buffer r.head (freed e);
          head = (r.head + 1) % r.capacity;
          active_count = r.active_count - 1;
        },
      )
      else some (none, r)
]

pub is_empty : ReorderBuffer → Bool
is_empty r = r.active_count == 0

-- How many entries stand before the tag, from the head.
abbrev pub age_from_head : ReorderBuffer → ℕ → ℕ
age_from_head r tag = distance r.capacity r.head tag

abbrev pub is_younger : ReorderBuffer → ℕ → ℕ → Bool
is_younger r a b = ltb (age_from_head r b) (age_from_head r a)

-- The loop of `squashYoungerThan` over the slots from `i` on: how many it freed, and the slots.
pub squash_from : ReorderBuffer → ℕ → ℕ → List RobEntry → ℕ × List RobEntry
squash_from r tag i [] = (0, [])
squash_from r tag i (e ∷ es) =
    let (n, rest) = squash_from r tag (i + 1) es in
    if e.busy && is_younger r i tag then (n + 1, freed e ∷ rest) else (n, e ∷ rest)

pub busy_count : List RobEntry → ℕ
busy_count [] = 0
busy_count (e ∷ es) = (if e.busy then 1 else 0) + busy_count es

-- The tag must be in range and in flight, and the slots left busy must be the survivors.
pub squash_younger_than : ReorderBuffer → ℕ → Option (ℕ × ReorderBuffer)
squash_younger_than r tag = elim (get_elem? r.buffer tag) [
  | none ↦ none
  | some e ↦
      let (n, slots) = squash_from r tag 0 r.buffer in
      let survivors = age_from_head r tag + 1 in
      if e.busy && (busy_count slots == survivors)
      then some
          (n, record r { buffer = slots; tail = (tag + 1) % r.capacity; active_count = survivors })
      else none
]

-- Whether the asserts of `checkInvariant` pass.
pub check_invariant : ReorderBuffer → Bool
check_invariant r =
    leb r.active_count r.capacity
    && ltb r.head r.capacity
    && ltb r.tail r.capacity
    && (busy_count r.buffer == r.active_count)
