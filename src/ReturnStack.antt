-- ===== src/ReturnStack.antt =====
-- src/return_address_stack.cpp and include/return_address_stack.hpp: the circular stack of return
-- addresses. A push onto a full stack overwrites the oldest address.
pub mod Backward
pub mod Refine
mod Tests
use ooo_superscalar_risc_sim.Common.{
  ℕ, zero, suc, ◌+◌, ◌-◌, ◌%◌, Bool, true, false, Option, none, some, List, [], ◌∷◌, if◌then◌else◌,
  ltb, ◌==◌, get_or, set, replicate,
}

pub record ReturnAddressStack : Type 0 where
  pub stack : List ℕ
  pub capacity : ℕ
  pub tos : ℕ
  pub count : ℕ

pub init : ℕ → ReturnAddressStack
init size = record { stack = replicate size 0; capacity = size; tos = 0; count = 0 }

pub push : ReturnAddressStack → ℕ → ReturnAddressStack
push s return_pc = record s {
  stack = set s.stack s.tos return_pc;
  tos = (s.tos + 1) % s.capacity;
  count = if ltb s.count s.capacity then s.count + 1 else s.count;
}

-- The index under the top. The sum is above zero wherever the code computes it.
abbrev pub below : ReturnAddressStack → ℕ
below s = (s.tos + s.capacity - 1) % s.capacity

pub pop : ReturnAddressStack → Option ℕ × ReturnAddressStack
pop s =
    if s.count == 0
    then (none, s)
    else (some (get_or s.stack (below s) 0), record s { tos = below s; count = s.count - 1 })

pub peek : ReturnAddressStack → Option ℕ
peek s = if s.count == 0 then none else some (get_or s.stack (below s) 0)

pub restore_state : ReturnAddressStack → ℕ → ℕ → ReturnAddressStack
restore_state s saved_tos saved_count = record s { tos = saved_tos; count = saved_count }

-- The copy loop of `restoreFull`: `n` slots, zero where the saved stack is shorter.
pub copied : ℕ → List ℕ → List ℕ
copied zero xs = []
copied (suc n) [] = 0 ∷ copied n []
copied (suc n) (x ∷ xs) = x ∷ copied n xs

pub restore_full : ReturnAddressStack → ℕ → ℕ → List ℕ → ReturnAddressStack
unfolding copied
restore_full s saved_tos saved_count saved_stack = record s {
  stack = copied s.capacity saved_stack;
  tos = saved_tos;
  count = saved_count;
}

pub get_snapshot : ReturnAddressStack → ℕ × ℕ
get_snapshot s = (s.tos, s.count)

pub get_full_snapshot : ReturnAddressStack → ℕ × ℕ × List ℕ
get_full_snapshot s = (s.tos, s.count, s.stack)
