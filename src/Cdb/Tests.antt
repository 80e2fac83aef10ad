-- ===== src/Cdb/Tests.antt =====
-- An arbiter of three lanes and one bus slot, with a beat pending in lane 2.
use ooo_superscalar_risc_sim.Common.{
  ℕ, ◌≤◌, ◌<◌, ◌≡◌, refl, true, false, some, List, [], ◌∷◌, arith, length, get_or, ◌⊎◌, replicate,
}
use ooo_superscalar_risc_sim.Common.Int.{pos}
use ooo_superscalar_risc_sim.Cdb.{CdbProducer, no_producer, CdbArbiter, lane, request, Selection}
use ooo_superscalar_risc_sim.Cdb.Loop.{Sound}
use ooo_superscalar_risc_sim.Cdb.Beats.{IsValid, mem, cycle, cycle_no_loss}
use ooo_superscalar_risc_sim.Cdb.Liveness.{Schedule, served_in, pending-served_in}

abbrev beat : CdbProducer
beat = record { valid = true; rob_id = pos 1; value = 5; source = 0; slot = pos 2 }

abbrev arbiter : CdbArbiter
arbiter = record {
  cdb_width = 1;
  num_producers = 3;
  rr_ptr = 0;
  pending_valid = false ∷ false ∷ true ∷ [];
  pending = no_producer ∷ no_producer ∷ beat ∷ [];
  last_grant = false ∷ false ∷ false ∷ [];
}

abbrev offers : List CdbProducer
offers = beat ∷ beat ∷ no_producer ∷ []

arbiter-IsValid : IsValid arbiter
arbiter-IsValid = record {
  wide = omega arith;
  some_lane = omega arith;
  pointer = omega arith;
  flags = refl;
  beats = refl;
}

cycle_no_loss_example :
    (s : Selection) × (a' : CdbArbiter) × (cycle arbiter offers offers ≡ some (s, a'))
    × IsValid a'
    × (length s.granted_indices ≤ 1)
    × Sound (request arbiter offers) 3 (replicate 3 false) s.granted_indices
    × ((length s.granted_indices ≡ 1)
        ⊎ ((i : ℕ) → i < 3 → request arbiter offers i ≡ true → mem s.granted_indices i ≡ true))
    × ((i : ℕ)
        → i < 3
        → request arbiter offers i ≡ true
        → mem s.granted_indices i ≡ false
        → (get_or arbiter.pending_valid i false ≡ false
            → get_or offers i no_producer ≡ get_or offers i no_producer)
        → (get_or a'.pending_valid i false ≡ true)
          × (get_or a'.pending i no_producer ≡ lane arbiter offers i))
cycle_no_loss_example = cycle_no_loss {a = arbiter} offers offers arbiter-IsValid refl refl

abbrev busy_bus : Schedule
busy_bus = (offers, offers) ∷ (offers, offers) ∷ (offers, offers) ∷ []

pending-served_in_example : served_in arbiter 2 busy_bus ≡ true
pending-served_in_example =
    pending-served_in arbiter 2 busy_bus arbiter-IsValid (omega arith) refl (omega arith)
      (omega arith)
