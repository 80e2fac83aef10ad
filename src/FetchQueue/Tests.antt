-- ===== src/FetchQueue/Tests.antt =====
-- Calls on a queue of one slot.
use ooo_superscalar_risc_sim.Common.{◌≡◌, List, [], ◌∷◌, arith}
use ooo_superscalar_risc_sim.Types.{default_instruction}
use ooo_superscalar_risc_sim.FetchQueue.Fifo
use ooo_superscalar_risc_sim.FetchQueue.Fifo.{Call, enqueues, peeks, dequeues, flushes}
use ooo_superscalar_risc_sim.FetchQueue.{init}
use ooo_superscalar_risc_sim.FetchQueue.Refine.{init-IsValid, run, run_refines}

abbrev script : List Call
script =
    enqueues (record default_instruction { pc = 4 })
    ∷ enqueues (record default_instruction { pc = 8 })
    ∷ peeks
    ∷ dequeues
    ∷ dequeues
    ∷ enqueues (record default_instruction { pc = 12 })
    ∷ flushes
    ∷ dequeues
    ∷ []

run_refines_example : run (init 1) script ≡ Fifo.run 1 [] script
unfolding init
run_refines_example = run_refines script (init-IsValid 1 (omega arith))
