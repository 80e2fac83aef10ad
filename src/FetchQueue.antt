-- ===== src/FetchQueue.antt =====
-- src/instruction_fetch_queue.cpp and include/instruction_fetch_queue.hpp: the circular queue between
-- fetch and decode.
pub mod Fifo
pub mod Refine
mod Tests
use ooo_superscalar_risc_sim.Common.{
  ℕ, ◌+◌, ◌-◌, ◌%◌, Bool, true, false, Option, none, some, List, [], if◌then◌else◌, ◌==◌, get_or,
  set, replicate,
}
use ooo_superscalar_risc_sim.Types.{FetchedInstruction, default_instruction}

pub record InstructionFetchQueue : Type 0 where
  pub queue : List FetchedInstruction
  pub capacity : ℕ
  pub head : ℕ
  pub tail : ℕ
  pub active_count : ℕ

pub init : ℕ → InstructionFetchQueue
init size = record {
  queue = replicate size default_instruction;
  capacity = size;
  head = 0;
  tail = 0;
  active_count = 0;
}

pub enqueue : InstructionFetchQueue → FetchedInstruction → Bool × InstructionFetchQueue
enqueue q inst = if q.active_count == q.capacity then (false, q) else (
  true,
  record q {
    queue = set q.queue q.tail inst;
    tail = (q.tail + 1) % q.capacity;
    active_count = q.active_count + 1;
  },
)

-- The front of the queue. The read is in range while the queue is valid.
abbrev pub front : InstructionFetchQueue → FetchedInstruction
front q = get_or q.queue q.head default_instruction

pub peek : InstructionFetchQueue → Option FetchedInstruction
peek q = if q.active_count == 0 then none else some (front q)

pub dequeue : InstructionFetchQueue → Option FetchedInstruction × InstructionFetchQueue
dequeue q = if q.active_count == 0 then (none, q) else (
  some (front q),
  record q { head = (q.head + 1) % q.capacity; active_count = q.active_count - 1 },
)

pub flush : InstructionFetchQueue → InstructionFetchQueue
flush q = record q { head = 0; tail = 0; active_count = 0 }

pub is_full : InstructionFetchQueue → Bool
is_full q = q.active_count == q.capacity

pub is_empty : InstructionFetchQueue → Bool
is_empty q = q.active_count == 0

pub get_occupancy : InstructionFetchQueue → ℕ
get_occupancy q = q.active_count
