-- ===== src/Checkpoints/Tests.antt =====
-- A checkpoint of three registers that sees a commit of its own mapping and a later save.
use ooo_superscalar_risc_sim.Common.{◌≡◌, refl, none, some, List, [], ◌∷◌, arith}
use ooo_superscalar_risc_sim.Common.Int.{pos}
use ooo_superscalar_risc_sim.Rat.{RegisterAliasTable}
use ooo_superscalar_risc_sim.Checkpoints.{init, restore}
use ooo_superscalar_risc_sim.Checkpoints.Tracking.{
  init-IsValid, Event, saves, commits, drops, step, run, commits_on, restore-run,
}

abbrev table : RegisterAliasTable
table = record { rat = none ∷ some 1 ∷ some 2 ∷ []; num_logical_regs = 3 }

abbrev history : List Event
history =
    commits (pos 1) 1 ∷ saves 3 (none ∷ none ∷ none ∷ []) ∷ commits (pos 2) 5 ∷ drops (pos 0) ∷ []

restore-run_example :
    restore (run (step (init 4 3) (saves 2 table.rat)) history) (pos 2)
    ≡ some (commits_on table history).rat
restore-run_example =
    restore-run {c = init 4 3} table 2 history (init-IsValid 4 3) (unfold init in omega arith)
      (unfold init in refl) refl refl (omega arith, ((λ e. cc), tt))
