-- ===== src/Gshare/Tests.antt =====
-- A predictor of four counters and two entries, trained on two branches that share an entry.
use ooo_superscalar_risc_sim.Common.{
  ℕ, ◌+◌, ◌≤◌, ◌≡◌, Bool, true, false, some, List, [], ◌∷◌, arith, get_or, if◌then◌else◌,
}
use ooo_superscalar_risc_sim.Gshare.{Gshare, predict}
use ooo_superscalar_risc_sim.Gshare.Targets.{Outcome, train, last_target, predict-train}

abbrev outcomes : List Outcome
outcomes =
    record { pc = 0x100; taken = true; target = 0x40 }
    ∷ record { pc = 0x108; taken = true; target = 0x80 }
    ∷ record { pc = 0x100; taken = false; target = 0 }
    ∷ []

predict-train_example :
    (p : Gshare) × (taken : Bool) × (target : ℕ) × (train 4 2 outcomes ≡ some p)
    × ((i : ℕ) → get_or p.pht i 0 ≤ 3)
    × (predict p 0x100 ≡ some (taken, target))
    × ((if taken then last_target 0x100 outcomes else some (0x100 + 4)) ≡ some target)
predict-train_example =
    predict-train 4 2 (omega arith) (omega arith) (omega arith) (omega arith) outcomes (omega arith)
      0x100 (omega arith)
