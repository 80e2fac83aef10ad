-- ===== src/Rat/Tests.antt =====
-- The theorems on a small alias table.
use ooo_superscalar_risc_sim.Common.{
  ◌↔◌, ◌<◌, ◌≡◌, refl, none, some, [], ◌∷◌, arith, if◌then◌else◌, ◌==◌, get_or,
}
use ooo_superscalar_risc_sim.Common.Int.{pos}
use ooo_superscalar_risc_sim.Rat.{RatMap, RegisterAliasTable, lookup, rename, restore_state_scrub}
use ooo_superscalar_risc_sim.Rat.Laws.{Absent, IsValid, lookup-rename, lookup-restore_state_scrub}

abbrev table : RegisterAliasTable
table = record { rat = none ∷ some 4 ∷ none ∷ some 6 ∷ []; num_logical_regs = 4 }

abbrev saved : RatMap
saved = some 1 ∷ some 4 ∷ some 5 ∷ none ∷ []

table-IsValid : IsValid table
table-IsValid = record { sized = refl }

lookup-rename_example :
    lookup (rename table (pos 2) 9) (pos 2) ≡ (if 2 == 2 then some 9 else lookup table (pos 2))
lookup-rename_example = lookup-rename {t = table} 2 2 9 table-IsValid (omega arith)

lookup-restore_state_scrub_example :
    (lookup (restore_state_scrub table saved (5 ∷ [])) (pos 1) ≡ some 4)
    ↔ ((0 < 1) × (get_or saved 1 none ≡ some 4) × Absent 4 (5 ∷ []))
lookup-restore_state_scrub_example =
    lookup-restore_state_scrub table saved (5 ∷ []) 1 4 refl (omega arith)
