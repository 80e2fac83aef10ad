-- ===== src/Engine/Delay.antt =====
-- The latency of a unit, and what its cycle loses.
use ooo_superscalar_risc_sim.Common.{
  ℕ, zero, suc, ◌+◌, ◌-◌, ◌<◌, ◌≡◌, ltb, lt→ltb, le→ltb, ◌∙◌, refl, ap, arith, Bool, true, false,
  List, [], ◌∷◌, ◌++◌, if◌then◌else◌, length, get_or, set, take, length-set, get_or-set_self,
  get_or-set_ne,
}
use native.Mathlib.Decide.{dec_lt}
use ooo_superscalar_risc_sim.Rat.{contains}
use ooo_superscalar_risc_sim.Engine.{
  Stage, no_stage, ExecutionUnit, can_issue, issue, output, output_valid, consumed, advance,
  ExecutionEngine,
}
use ooo_superscalar_risc_sim.Engine.Bus.{clocked, clock_from, apply_cdb_and_advance}
use ooo_superscalar_risc_sim.Engine.InFlight.{
  in_flight, IsPipe, leaving, shift-pipe, length-take_pred, in_flight-advance, in_flight-set_last,
}

in_flight-clocked :
    (granted ready : Bool) (u : ExecutionUnit)
    → IsPipe u
    → (in_flight (clocked granted ready u).pipe ++ leaving granted u ≡ in_flight u.pipe)
      × IsPipe (clocked granted ready u)
in_flight-clocked granted ready u (len, big) = go (output_valid u) refl granted
  where
    long : length u.pipe ≡ suc (length u.pipe - 1)
    long = omega (arith, len, big)

    append_nil : (xs : List Stage) → xs ++ [] ≡ xs
    append_nil [] = refl
    append_nil (x ∷ xs) = ap (λ t. x ∷ t) (append_nil xs)

    go :
        (v : Bool)
        → output_valid u ≡ v
        → (g : Bool)
        → (in_flight (clocked g ready u).pipe ++ leaving g u ≡ in_flight u.pipe)
          × IsPipe (clocked g ready u)
    go true v true =
        let (kept, fits) =
          in_flight-advance ready (consumed u)
            (length-set u.pipe (length u.pipe - 1) no_stage ∙ len, big) in
        rw v (
          ap (λ t. t ++ output u ∷ []) kept ∙ in_flight-set_last (length u.pipe - 1) u.pipe long v,
          fits,
        )
    go true v false =
        let (kept, fits) = in_flight-advance ready u (len, big) in
        rw v (append_nil (in_flight (advance ready u).pipe) ∙ kept, fits)
    go false v g =
        let (kept, fits) = in_flight-advance ready u (len, big) in
        rw v (append_nil (in_flight (advance ready u).pipe) ∙ kept, fits)

-- Unit by unit, from index `i` on: what it holds after the cycle and what left it are what it held.
abbrev pub Conserved : List ℕ → ℕ → List ExecutionUnit → List ExecutionUnit → Type 0
Conserved granted i [] [] = Unit
Conserved granted i (u ∷ us) (u' ∷ us') =
    (in_flight u'.pipe ++ leaving (contains granted i) u ≡ in_flight u.pipe)
    × IsPipe u'
    × Conserved granted (i + 1) us us'
Conserved granted i _ _ = ⊥

abbrev pub ArePipes : List ExecutionUnit → Type 0
ArePipes [] = Unit
ArePipes (u ∷ us) = IsPipe u × ArePipes us

clock_conserves :
    (granted : List ℕ) (i : ℕ) (ready : List Bool) (us : List ExecutionUnit)
    → ArePipes us
    → Conserved granted i us (clock_from granted i ready us)
unfolding clock_from
clock_conserves granted i ready [] pipes = tt
clock_conserves granted i [] (u ∷ us) (pipe, pipes) =
    let (kept, fits) = in_flight-clocked (contains granted i) true u pipe in
    (kept, fits, clock_conserves granted (i + 1) [] us pipes)
clock_conserves granted i (b ∷ ready) (u ∷ us) (pipe, pipes) =
    let (kept, fits) = in_flight-clocked (contains granted i) b u pipe in
    (kept, fits, clock_conserves granted (i + 1) ready us pipes)

-- A cycle of the engine loses, invents and reorders no operation: each unit keeps what it held, in
-- order, but its output if that is valid and granted; every unit stays a pipe of its latency.
pub apply_cdb_and_advance-Conserved :
    (e : ExecutionEngine) (granted : List ℕ)
    → ArePipes e.units
    → Conserved granted 0 e.units (apply_cdb_and_advance e granted).units
unfolding apply_cdb_and_advance
apply_cdb_and_advance-Conserved e granted = clock_conserves granted 0 e.lane_ready e.units

-- `k` cycles in which the lane is ready and an output is granted.
abbrev pub cycles : ℕ → ExecutionUnit → ExecutionUnit
cycles zero u = u
cycles (suc k) u = cycles k (clocked true true u)

get_or-take :
    (n i : ℕ) (p : List Stage) → i < n → get_or (take n p) i no_stage ≡ get_or p i no_stage
get_or-take zero i p h = absurd (omega arith)
get_or-take (suc n) i [] h = refl
get_or-take (suc n) zero (x ∷ p) h = refl
get_or-take (suc n) (suc i) (x ∷ p) h = get_or-take n i p (omega arith)

Moved : ExecutionUnit → ExecutionUnit → Type 0
Moved u u' =
    ((i : ℕ) → suc i < u.latency → get_or u'.pipe (suc i) no_stage ≡ get_or u.pipe i no_stage)
    × IsPipe u'
    × (u'.latency ≡ u.latency)

advance-Moved : (u : ExecutionUnit) → IsPipe u → output_valid u ≡ false → Moved u (advance true u)
unfolding advance Moved
advance-Moved u (len, big) v =
    let long : length u.pipe ≡ suc (u.latency - 1) = omega (arith, len, big) in
    rw (v, shift-pipe (u.latency - 1) u.pipe long)
      (
        λ i h. get_or-take (u.latency - 1) i u.pipe (omega arith),
        (omega (arith, length-take_pred (u.latency - 1) u.pipe long, big), big),
        refl,
      )

-- In such a cycle every stage moves by one.
moved : (u : ExecutionUnit) → IsPipe u → Moved u (clocked true true u)
unfolding Moved
moved u (len, big) = go (output_valid u) refl
  where
    n : ℕ
    n = length u.pipe - 1

    empty : output_valid (consumed u) ≡ false
    empty =
        ap (λ t. (get_or (set u.pipe n no_stage) t no_stage).valid)
          (ap (λ t. t - 1) (length-set u.pipe n no_stage))
        ∙ ap (λ (t : Stage). t.valid)
            (get_or-set_self u.pipe n no_stage no_stage (omega (arith, len, big)))

    go : (v : Bool) → output_valid u ≡ v → Moved u (clocked true true u)
    go true v =
        let (steps, fits, same) =
          advance-Moved (consumed u) (length-set u.pipe n no_stage ∙ len, big) empty in
        rw v (
          λ i h. steps i h ∙ get_or-set_ne u.pipe n i no_stage no_stage (omega (arith, len)),
          fits,
          same,
        )
    go false v = rw v (advance-Moved u (len, big) v)

output-cycles :
    (k : ℕ) (u : ExecutionUnit)
    → IsPipe u
    → k < u.latency
    → output (cycles k u) ≡ get_or u.pipe (u.latency - suc k) no_stage
unfolding Moved
output-cycles zero u (len, big) lt = ap (λ t. get_or u.pipe (t - 1) no_stage) len
output-cycles (suc k) u pipe lt =
    let (steps, fits, same) = moved u pipe in
    output-cycles k (clocked true true u) fits (omega (arith, same))
    ∙ ap (λ t. get_or (clocked true true u).pipe t no_stage) {y = suc (u.latency - suc (suc k))}
        (omega (arith, same))
    ∙ steps (u.latency - suc (suc k)) (omega arith)

-- With its lane ready and its outputs granted, an operation issued to a unit whose front is free is
-- at the output after exactly one cycle less than the latency; before that the output shows what was
-- ahead of it in the pipe.
pub output-issue :
    (s : Stage) (u : ExecutionUnit) (k : ℕ)
    → IsPipe u
    → can_issue u true ≡ true
    → k < u.latency
    → output (cycles k (issue s u).1)
      ≡ (if ltb (suc k) u.latency then get_or u.pipe (u.latency - suc k) no_stage else s)
unfolding issue
output-issue s u k (len, big) free lt =
    let u' : ExecutionUnit = record u { pipe = set u.pipe 0 s } in
    let e : output (cycles k u') ≡ get_or (set u.pipe 0 s) (u.latency - suc k) no_stage =
      output-cycles k u' (length-set u.pipe 0 s ∙ len, big) lt in
    rw free (elim (dec_lt (suc k) u.latency) [
      | yes h ↦
          rw (lt→ltb (suc k) u.latency h)
            (e ∙ get_or-set_ne u.pipe 0 (u.latency - suc k) s no_stage (omega arith))
      | no h ↦ rw (le→ltb (suc k) u.latency (omega arith)) (
          e
          ∙ ap (λ t. get_or (set u.pipe 0 s) t no_stage) {y = 0} (omega arith)
          ∙ get_or-set_self u.pipe 0 s no_stage (omega (arith, len, big)))
    ])
