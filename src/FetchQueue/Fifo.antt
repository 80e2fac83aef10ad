-- ===== src/FetchQueue/Fifo.antt =====
-- What the fetch queue promises: a bounded first-in first-out queue, the oldest instruction first.
use ooo_superscalar_risc_sim.Common.{
  ℕ, Bool, true, false, Option, none, some, List, [], ◌∷◌, ◌++◌, if◌then◌else◌, ◌==◌, length,
}
use ooo_superscalar_risc_sim.Types.{FetchedInstruction}

-- The calls of a client, and what it sees of each.
pub data Call : Type 0 where
  enqueues : FetchedInstruction → Call
  peeks dequeues flushes : Call

pub data Reply : Type 0 where
  accepted : Bool → Reply
  out : Option FetchedInstruction → Reply
  done : Reply

abbrev pub enqueue :
    ℕ → List FetchedInstruction → FetchedInstruction → Bool × List FetchedInstruction
enqueue cap l i = if length l == cap then (false, l) else (true, l ++ i ∷ [])

abbrev pub dequeue : List FetchedInstruction → Option FetchedInstruction × List FetchedInstruction
dequeue [] = (none, [])
dequeue (x ∷ l) = (some x, l)

unfoldable pub run : ℕ → List FetchedInstruction → List Call → List Reply
run cap l [] = []
run cap l (enqueues i ∷ cs) = let (b, l') = enqueue cap l i in accepted b ∷ run cap l' cs
run cap l (peeks ∷ cs) = out (dequeue l).0 ∷ run cap l cs
run cap l (dequeues ∷ cs) = let (i, l') = dequeue l in out i ∷ run cap l' cs
run cap l (flushes ∷ cs) = done ∷ run cap [] cs
