-- ===== src/Engine/Bus.antt =====
-- src/execution_engine.cpp: the engine's side of the common data bus and of the resolve bus, the
-- cycle of the pipes and the squash.
use ooo_superscalar_risc_sim.Common.{
  ℕ, ◌+◌, Bool, true, ◌&&◌, Option, none, some, List, [], ◌∷◌, map, if◌then◌else◌, get_elem?, set,
}
use ooo_superscalar_risc_sim.Common.Int.{ℤ, pos, Word}
use ooo_superscalar_risc_sim.Cdb.{CdbProducer, no_producer, tag_in}
use ooo_superscalar_risc_sim.Rat.{contains}
use ooo_superscalar_risc_sim.Engine.{
  Stage, no_stage, ExecutionUnit, output, output_valid, consumed, advance, ExecutionEngine,
}

-- What unit `i` offers on its lane.
abbrev pub producer : ℕ → ExecutionUnit → CdbProducer
producer i u =
    if output_valid u && (output u).offer_cdb
    then record {
      valid = true;
      rob_id = (output u).rob_id;
      value = (output u).value;
      source = 0;
      slot = pos i;
    }
    else record no_producer { source = 0; slot = pos i }

-- The lanes of the units from index `i` on.
unfoldable pub producers_from : ℕ → List ExecutionUnit → List CdbProducer
producers_from i [] = []
producers_from i (u ∷ us) = producer i u ∷ producers_from (i + 1) us

abbrev pub collect_producers_fixed : ExecutionEngine → List CdbProducer
collect_producers_fixed e = producers_from 0 e.units

unfoldable pub valid_only : List CdbProducer → List CdbProducer
valid_only [] = []
valid_only (p ∷ ps) = let rest = valid_only ps in if p.valid then p ∷ rest else rest

abbrev pub collect_producers : ExecutionEngine → List CdbProducer
collect_producers e = valid_only (collect_producers_fixed e)

-- A unit without an entry in the argument is ready.
unfoldable pub lanes_ready : List ExecutionUnit → List Bool → List Bool
lanes_ready [] ready = []
lanes_ready (u ∷ us) [] = true ∷ lanes_ready us []
lanes_ready (u ∷ us) (b ∷ ready) = b ∷ lanes_ready us ready

unfoldable pub set_lane_ready : ExecutionEngine → List Bool → ExecutionEngine
set_lane_ready e ready = record e { lane_ready = lanes_ready e.units ready }

pub record BrResolve : Type 0 where
  pub slot : ℤ
  pub rob_id : ℤ
  pub value : Word
  pub offer_cdb : Bool

abbrev pub resolve_of : ℕ → Stage → BrResolve
resolve_of i s = record {
  slot = pos i;
  rob_id = s.rob_id;
  value = s.value;
  offer_cdb = s.offer_cdb;
}

unfoldable pub resolves_from : ℕ → List ExecutionUnit → List BrResolve
resolves_from i [] = []
resolves_from i (u ∷ us) =
    let rest = resolves_from (i + 1) us in
    if output_valid u && (output u).is_control then resolve_of i (output u) ∷ rest else rest

abbrev pub collect_branch_resolves : ExecutionEngine → List BrResolve
collect_branch_resolves e = resolves_from 0 e.units

-- One unit in `applyCdbAndAdvance`: a granted output leaves, then the pipe moves if its lane is
-- ready. The assert in `consumeOutput` holds here, since the output is tested first.
abbrev pub clocked : Bool → Bool → ExecutionUnit → ExecutionUnit
clocked granted ready u = advance ready (if output_valid u && granted then consumed u else u)

-- A unit beyond the lane flags is ready.
unfoldable pub clock_from : List ℕ → ℕ → List Bool → List ExecutionUnit → List ExecutionUnit
clock_from granted i ready [] = []
clock_from granted i [] (u ∷ us) =
    clocked (contains granted i) true u ∷ clock_from granted (i + 1) [] us
clock_from granted i (b ∷ ready) (u ∷ us) =
    clocked (contains granted i) b u ∷ clock_from granted (i + 1) ready us

unfoldable pub apply_cdb_and_advance : ExecutionEngine → List ℕ → ExecutionEngine
apply_cdb_and_advance e granted = record e { units = clock_from granted 0 e.lane_ready e.units }

abbrev pub tick : ExecutionEngine → ExecutionEngine
tick e = apply_cdb_and_advance e []

-- The asserts want an index in range and a valid output.
unfoldable pub release_slot : ExecutionEngine → ℕ → Option ExecutionEngine
release_slot e i = elim (get_elem? e.units i) [
  | none ↦ none
  | some u ↦ if output_valid u then some (record e { units = set e.units i (consumed u) }) else none
]

abbrev pub squash_stage : List ℤ → Stage → Stage
squash_stage tags s = if s.valid && tag_in tags s.rob_id then no_stage else s

abbrev pub squash_unit : List ℤ → ExecutionUnit → ExecutionUnit
squash_unit tags u = record u { pipe = map (squash_stage tags) u.pipe }

unfoldable pub squash_rob_tags : ExecutionEngine → List ℤ → ExecutionEngine
squash_rob_tags e tags = record e { units = map (squash_unit tags) e.units }
