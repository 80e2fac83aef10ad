-- ===== src/ReturnStack/Tests.antt =====
-- Three pushes on a stack of two, and pops to beyond its bottom.
use ooo_superscalar_risc_sim.Common.{◌≡◌, List, [], ◌∷◌, arith}
use ooo_superscalar_risc_sim.ReturnStack.{init, restore_full, get_full_snapshot}
use ooo_superscalar_risc_sim.ReturnStack.Refine.{
  init-IsValid, Call, pushes, pops, run, bounded_run, pops_refine, restore_full-run,
}

abbrev script : List Call
script = pushes 4 ∷ pushes 8 ∷ pushes 12 ∷ pops ∷ pops ∷ pops ∷ []

pops_refine_example : (run (init 2) script).0 ≡ bounded_run 2 [] script
unfolding init
pops_refine_example = pops_refine script (init-IsValid 2 (omega arith))

restore_full-run_example :
    let (saved_tos, saved_count, saved_stack) = get_full_snapshot (init 2) in
    restore_full (run (init 2) script).1 saved_tos saved_count saved_stack ≡ init 2
restore_full-run_example = restore_full-run script (init-IsValid 2 (omega arith))
