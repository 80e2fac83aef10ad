-- ===== src/Station/Tests.antt =====
-- A station of three slots, one of them free.
use ooo_superscalar_risc_sim.Common.{◌≡◌, true, false, List, [], ◌∷◌, arith, map}
use ooo_superscalar_risc_sim.Common.Int.{pos, negsuc}
use ooo_superscalar_risc_sim.Station.{
  Operand, RsEntry, no_entry, wake_entry, update_from_cdb, issue_ready_instruction,
}
use ooo_superscalar_risc_sim.Station.Live.{
  live, pick, Issued, update_from_cdb_refines, issue_ready_instruction_refines,
}

abbrev here : Operand
here = record { ready = true; tag = negsuc 0; value = 3 }

abbrev awaited : Operand
awaited = record { ready = false; tag = pos 2; value = 0 }

abbrev station : List RsEntry
station =
    record { valid = true; inst_id = 7; src1 = here; src2 = awaited }
    ∷ no_entry
    ∷ record { valid = true; inst_id = 8; src1 = here; src2 = here }
    ∷ []

update_from_cdb_refines_example :
    live (update_from_cdb station (pos 2) 5) ≡ map (wake_entry (pos 2) 5) (live station)
update_from_cdb_refines_example = update_from_cdb_refines station (pos 2) 5

issue_ready_instruction_refines_example :
    Issued station (issue_ready_instruction station) (pick (live station))
issue_ready_instruction_refines_example = issue_ready_instruction_refines station (omega arith)
