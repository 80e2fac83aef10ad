-- ===== src/Cdb.antt =====
-- src/cdb_arbiter.cpp and include/cdb_arbiter.hpp: the arbiter of the common data bus. Each producer
-- lane offers one result; a result that is not granted waits in the lane's pending beat.
pub mod Loop
pub mod Fairness
pub mod Beats
pub mod Liveness
mod Tests
use ooo_superscalar_risc_sim.Common.{
  ℕ, zero, suc, ◌+◌, ◌-◌, ◌%◌, Bool, true, false, not, ◌&&◌, ◌||◌, Option, none, some, List, [],
  ◌∷◌, map, if◌then◌else◌, ltb, leb, ◌==◌, length, get_or, set, replicate, tabulate,
}
use ooo_superscalar_risc_sim.Common.Int.{ℤ, pos, negsuc, eq_ℤ, Word}
use ooo_superscalar_risc_sim.Types.{CdbResult}

pub record CdbProducer : Type 0 where
  pub valid : Bool
  pub rob_id : ℤ
  pub value : Word
  pub source : ℕ
  pub slot : ℤ

abbrev pub no_producer : CdbProducer
no_producer = record { valid = false; rob_id = negsuc 0; value = 0; source = 0; slot = negsuc 0 }

pub record CdbArbiter : Type 0 where
  pub cdb_width : ℕ
  pub num_producers : ℕ
  pub rr_ptr : ℕ
  pub pending_valid : List Bool
  pub pending : List CdbProducer
  pub last_grant : List Bool

pub reset : CdbArbiter → CdbArbiter
reset a = record a {
  rr_ptr = 0;
  pending_valid = replicate a.num_producers false;
  pending = replicate a.num_producers no_producer;
  last_grant = replicate a.num_producers false;
}

-- The asserts want a positive width and a positive number of producers.
pub init : ℕ → ℕ → Option CdbArbiter
unfolding reset
init cdb_width num_producers =
    if ltb 0 cdb_width && ltb 0 num_producers
    then some (
        reset (record {
          cdb_width = cdb_width;
          num_producers = num_producers;
          rr_ptr = 0;
          pending_valid = [];
          pending = [];
          last_grant = [];
        }))
    else none

pub tag_in : List ℤ → ℤ → Bool
tag_in [] t = false
tag_in (x ∷ xs) t = eq_ℤ x t || tag_in xs t

-- The loop of `invalidateTags` over the lanes: the flags and the beats.
pub invalidate_from : List ℤ → List Bool → List CdbProducer → List Bool × List CdbProducer
invalidate_from tags [] ps = ([], ps)
invalidate_from tags (b ∷ bs) [] = (b ∷ bs, [])
invalidate_from tags (b ∷ bs) (p ∷ ps) =
    let (bs', ps') = invalidate_from tags bs ps in
    if b && tag_in tags p.rob_id then (false ∷ bs', no_producer ∷ ps') else (b ∷ bs', p ∷ ps')

pub invalidate_tags : CdbArbiter → List ℤ → CdbArbiter
invalidate_tags a tags =
    let (flags, beats) = invalidate_from tags a.pending_valid a.pending in
    record a { pending_valid = flags; pending = beats }

-- What lane `i` offers: its pending beat, or else its live producer.
abbrev pub lane : CdbArbiter → List CdbProducer → ℕ → CdbProducer
lane a producers i =
    if get_or a.pending_valid i false
    then get_or a.pending i no_producer
    else if (get_or producers i no_producer).valid
    then get_or producers i no_producer
    else no_producer

abbrev pub request : CdbArbiter → List CdbProducer → ℕ → Bool
request a producers i = get_or a.pending_valid i false || (get_or producers i no_producer).valid

-- The inner loop: the first index, from `rr` on and going round, that requests and is not selected.
pub find_from : (ℕ → Bool) → List Bool → ℕ → ℕ → ℕ → ℕ → Option ℕ
find_from req selected n rr offset zero = none
find_from req selected n rr offset (suc left) =
    let idx = (rr + offset) % n in
    let rest = find_from req selected n rr (offset + 1) left in
    if req idx && not (get_or selected idx false) then some idx else rest

-- What the loop over the bus slots leaves: the granted indices in order, who was selected, the pointer.
pub record Grants : Type 0 where
  pub granted : List ℕ
  pub selected : List Bool
  pub rr_ptr : ℕ

-- The loop over the bus slots; it stops at the first slot that finds no lane.
pub grant_loop : (ℕ → Bool) → ℕ → ℕ → List Bool → ℕ → Grants
grant_loop req n zero selected rr = record { granted = []; selected = selected; rr_ptr = rr }
grant_loop req n (suc slots) selected rr = elim (find_from req selected n rr 0 n) [
  | none ↦ record { granted = []; selected = selected; rr_ptr = rr }
  | some idx ↦
      let g = grant_loop req n slots (set selected idx true) ((idx + 1) % n) in
      record { granted = idx ∷ g.granted; selected = g.selected; rr_ptr = g.rr_ptr }
]

pub record Selection : Type 0 where
  pub results : List CdbResult
  pub granted_indices : List ℕ
  pub granted_lanes : List CdbProducer
  pub producer_ready : List Bool

abbrev pub result_of : CdbProducer → CdbResult
result_of p = record { rob_id = p.rob_id; value = p.value }

abbrev pub start : CdbArbiter → ℕ
start a = if leb a.num_producers a.rr_ptr then 0 else a.rr_ptr

-- The grants of a cycle. The width and the number of producers are positive since the constructor.
abbrev pub grants : CdbArbiter → List CdbProducer → Grants
grants a producers =
    grant_loop (request a producers) a.num_producers a.cdb_width (replicate a.num_producers false)
      (start a)

abbrev pub selection : CdbArbiter → List CdbProducer → Selection
selection a producers =
    let g = grants a producers in
    record {
      results = map (λ i. result_of (lane a producers i)) g.granted;
      granted_indices = g.granted;
      granted_lanes = map (lane a producers) g.granted;
      producer_ready =
          tabulate (λ i. not (get_or a.pending_valid i false) || get_or g.selected i false) 0
            a.num_producers;
    }

-- The arbiter after the selection.
abbrev pub granting : CdbArbiter → List CdbProducer → CdbArbiter
granting a producers =
    let g = grants a producers in record a { rr_ptr = g.rr_ptr; last_grant = g.selected }

-- `none`: the assert that there is one producer for each lane fails.
pub select_grants : CdbArbiter → List CdbProducer → Option (Selection × CdbArbiter)
select_grants a producers =
    if length producers == a.num_producers
    then some (selection a producers, granting a producers)
    else none

-- What `commitPending` makes of one lane: its flag and its beat.
abbrev pub settled : Bool → Bool → CdbProducer → CdbProducer → Bool × CdbProducer
settled true true beat after = if after.valid then (true, after) else (false, no_producer)
settled true false beat after = (true, beat)
settled false granted beat after =
    if after.valid && not granted then (true, after) else (false, beat)

abbrev pub settle : CdbArbiter → List CdbProducer → ℕ → Bool × CdbProducer
settle a producers_after i =
    settled (get_or a.pending_valid i false) (get_or a.last_grant i false)
      (get_or a.pending i no_producer) (get_or producers_after i no_producer)

abbrev pub latching : CdbArbiter → List CdbProducer → CdbArbiter
latching a producers_after = record a {
  pending_valid = tabulate (λ i. (settle a producers_after i).0) 0 a.num_producers;
  pending = tabulate (λ i. (settle a producers_after i).1) 0 a.num_producers;
}

pub commit_pending : CdbArbiter → List CdbProducer → Option CdbArbiter
commit_pending a producers_after =
    if length producers_after == a.num_producers then some (latching a producers_after) else none
