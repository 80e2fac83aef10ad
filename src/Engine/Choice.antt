-- ===== src/Engine/Choice.antt =====
-- Which unit an operation goes to, and what a squash takes out.
use Prim.Native.String.{String}
use text.Mathlib.Text.{◌==◌ as str_eq}
use ooo_superscalar_risc_sim.Common.{
  ℕ, ◌≤◌, ◌≡◌, refl, ap, ap₂, arith, Bool, true, false, not, ◌&&◌, Option, none, some, List, [],
  ◌∷◌, ◌++◌, map, if◌then◌else◌, length, get_or, set,
}
use ooo_superscalar_risc_sim.Common.Int.{ℤ, Word}
use ooo_superscalar_risc_sim.Types.{Op, fu_for_op}
use ooo_superscalar_risc_sim.Cdb.{tag_in}
use ooo_superscalar_risc_sim.Engine.{
  Stage, no_stage, ExecutionUnit, can_issue, op_stage, issue, ExecutionEngine, issue_first, issued,
  unit_type, issue_instruction,
}
use ooo_superscalar_risc_sim.Engine.Bus.{squash_stage, squash_unit, squash_rob_tags}
use ooo_superscalar_risc_sim.Engine.InFlight.{in_flight}
use ooo_superscalar_risc_sim.Engine.Delay.{ArePipes}

-- No unit of the type has a ready lane and a free front.
abbrev pub NoneAccepts : String → List ExecutionUnit → List Bool → Type 0
NoneAccepts t [] ready = Unit
NoneAccepts t (u ∷ us) [] = Unit
NoneAccepts t (u ∷ us) (b ∷ ready) =
    ((str_eq u.type t && can_issue u b) ≡ false) × NoneAccepts t us ready

-- One unit, the first of the type whose lane is ready and whose front is free, holds the operation at its
-- young end; no other changes.
abbrev pub Entered : String → Stage → List Bool → List ExecutionUnit → List ExecutionUnit → Type 0
Entered t s ready us us' =
    (before : List ExecutionUnit) × (u : ExecutionUnit) × (u' : ExecutionUnit) × (after : List
      ExecutionUnit)
    × (us ≡ before ++ u ∷ after)
    × (us' ≡ before ++ u' ∷ after)
    × (str_eq u.type t ≡ true)
    × (in_flight u'.pipe ≡ s ∷ in_flight u.pipe)
    × NoneAccepts t before ready
    × (get_or ready (length before) false ≡ true)
    × ((get_or u.pipe 0 no_stage).valid ≡ false)

abbrev pub Outcome :
    String → Stage → List Bool → List ExecutionUnit → Bool × List ExecutionUnit → Type 0
Outcome t s ready us (true, us') = Entered t s ready us us'
Outcome t s ready us (false, us') = (us' ≡ us) × NoneAccepts t us ready

in_flight-issue :
    (s : Stage) (p : List Stage)
    → s.valid ≡ true
    → 1 ≤ length p
    → (get_or p 0 no_stage).valid ≡ false
    → in_flight (set p 0 s) ≡ s ∷ in_flight p
in_flight-issue s [] v h e = absurd (omega arith)
in_flight-issue s (x ∷ p) v h e = simp (v, e) refl

split_accept :
    (t : String) (u : ExecutionUnit) (b : Bool)
    → (str_eq u.type t && can_issue u b) ≡ true
    → (str_eq u.type t ≡ true)
      × (can_issue u true ≡ true)
      × (b ≡ true)
      × ((get_or u.pipe 0 no_stage).valid ≡ false)
split_accept t u b h = go (str_eq u.type t) b (get_or u.pipe 0 no_stage).valid h
  where
    go :
        (k c v : Bool)
        → (k && (c && not v)) ≡ true
        → (k ≡ true) × (not v ≡ true) × (c ≡ true) × (v ≡ false)
    go true true false h = (refl, refl, refl, refl)
    go true true true h = ground arith
    go true false v h = ground arith
    go false c v h = ground arith

choose :
    (t : String) (s : Stage) (us : List ExecutionUnit) (ready : List Bool)
    → s.valid ≡ true
    → ArePipes us
    → Outcome t s ready us (issue_first t s us ready)
unfolding issue_first issue
choose t s [] ready v pipes = (refl, tt)
choose t s (u ∷ us) [] v pipes = (refl, tt)
choose t s (u ∷ us) (b ∷ ready) v (pipe, pipes) =
    go (str_eq u.type t && can_issue u b) refl (issue_first t s us ready)
      (choose t s us ready v pipes)
  where
    go :
        (x : Bool)
        → (str_eq u.type t && can_issue u b) ≡ x
        → (r : Bool × List ExecutionUnit) → Outcome t s ready us r
        → Outcome t s
            (b ∷ ready)
            (u ∷ us)
            (if x then ((issue s u).0, (issue s u).1 ∷ us) else (r.0, u ∷ r.1))
    go true h r ih =
        let (kind, can, lane, free) = split_accept t u b h in
        rw can (
          [],
          u,
          record u { pipe = set u.pipe 0 s },
          us,
          refl,
          refl,
          kind,
          in_flight-issue s u.pipe v (omega arith) free,
          tt,
          lane,
          free,
        )
    go false h (true, us') (before, w, w', after, e, f, kind, held, none_can, lane, free) = (
      u ∷ before,
      w,
      w',
      after,
      ap (λ z. u ∷ z) e,
      ap (λ z. u ∷ z) f,
      kind,
      held,
      (h, none_can),
      lane,
      free,
    )
    go false h (false, us') (e, none_can) = (ap (λ z. u ∷ z) e, (h, none_can))

-- What `issue_instruction` does with an operation for a unit of that type, or with a memory operation.
abbrev pub Dispatched : Option String → Stage → ExecutionEngine → Bool × ExecutionEngine → Type 0
Dispatched none s e r = r ≡ (false, e)
Dispatched (some t) s e (done, e') =
    (e'.lane_ready ≡ e.lane_ready) × Outcome t s e.lane_ready e.units (done, e'.units)

-- An operation is accepted exactly when some unit of its type has a ready lane and a free front: the
-- first such unit then holds it as its youngest, with all that it held before in order, and no other
-- unit changes. A refusal, of a memory operation in particular, changes nothing.
pub issue_instruction_refines :
    (e : ExecutionEngine) (op : Op) (a b : Word) (id : ℤ) (imm : Word) (pc : ℕ) (rd_used : Bool)
    → ArePipes e.units
    → Dispatched
        (unit_type (fu_for_op op))
        (op_stage op a b id imm pc rd_used)
        e
        (issue_instruction e op a b id imm pc rd_used)
unfolding issue_instruction
issue_instruction_refines e op a b id imm pc rd_used pipes = go (unit_type (fu_for_op op))
  where
    s : Stage
    s = op_stage op a b id imm pc rd_used

    go :
        (o : Option String)
        → Dispatched o s e (elim o [ none ↦ (false, e) | some t ↦ issued e t s ])
    go none = refl
    go (some t) = (refl, choose t s e.units e.lane_ready refl pipes)

-- The operations whose tag is not squashed.
abbrev pub spared : List ℤ → List Stage → List Stage
spared tags [] = []
spared tags (s ∷ ss) = let rest = spared tags ss in if tag_in tags s.rob_id then rest else s ∷ rest

in_flight-squash :
    (tags : List ℤ) (p : List Stage)
    → in_flight (map (squash_stage tags) p) ≡ spared tags (in_flight p)
in_flight-squash tags [] = refl
in_flight-squash tags (s ∷ p) =
    go s.valid refl (tag_in tags s.rob_id) refl (in_flight-squash tags p)
  where
    go :
        (v : Bool)
        → s.valid ≡ v
        → (g : Bool) → tag_in tags s.rob_id ≡ g
        → in_flight (map (squash_stage tags) p) ≡ spared tags (in_flight p)
        → in_flight (map (squash_stage tags) (s ∷ p)) ≡ spared tags (in_flight (s ∷ p))
    go true v true g ih = simp (v, g) ih
    go true v false g ih = simp (v, g) (ap (λ t. s ∷ t) ih)
    go false v true g ih = simp (v, g) ih
    go false v false g ih = simp (v, g) ih

-- A squash takes exactly the operations of its tags out of every unit, and keeps the order of the
-- others.
pub squash_rob_tags_refines :
    (e : ExecutionEngine) (tags : List ℤ)
    → map (λ (u : ExecutionUnit). in_flight u.pipe) (squash_rob_tags e tags).units
      ≡ map (λ (u : ExecutionUnit). spared tags (in_flight u.pipe)) e.units
unfolding squash_rob_tags
squash_rob_tags_refines e tags = go e.units
  where
    go :
        (us : List ExecutionUnit)
        → map (λ (u : ExecutionUnit). in_flight u.pipe) (map (squash_unit tags) us)
          ≡ map (λ (u : ExecutionUnit). spared tags (in_flight u.pipe)) us
    go [] = refl
    go (u ∷ us) = ap₂ ◌∷◌ (in_flight-squash tags u.pipe) (go us)
