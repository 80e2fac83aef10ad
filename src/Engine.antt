-- ===== src/Engine.antt =====
-- src/execution_engine.cpp and include/execution_engine.hpp: the pipelined functional units and the
-- engine that holds one of each kind or more. Stage 0 follows issue, the last stage drives the common
-- data bus. A failed assert is `none`; printState is left out.
pub mod Bus
pub mod Choice
pub mod Delay
pub mod InFlight
mod Tests
use Prim.Native.String.{String}
use text.Mathlib.Text.{◌==◌ as str_eq}
use ooo_superscalar_risc_sim.Common.{
  ℕ, zero, suc, ◌+◌, ◌-◌, ◌*◌, ◌%◌, Bool, true, false, not, ◌&&◌, ◌||◌, Option, none, some, List,
  [], ◌∷◌, ◌++◌, map, if◌then◌else◌, ltb, ◌==◌, length, get_or, set, replicate,
}
use ooo_superscalar_risc_sim.Common.Int.{ℤ, pos, negsuc, Word}
use ooo_superscalar_risc_sim.Common.Signed.{word_mod, signed, pattern_of, div_ℤ}
use ooo_superscalar_risc_sim.Types.{Op, br_jal, br_jalr, Fu, alu, mul, div, mem, br, fu_for_op}
use ooo_superscalar_risc_sim.Cdb.{CdbProducer, no_producer, tag_in}
use ooo_superscalar_risc_sim.Execute.{execute_op}

pub record Stage : Type 0 where
  pub valid : Bool
  pub rob_id : ℤ
  pub value : Word
  pub is_control : Bool
  pub offer_cdb : Bool

-- `Stage{}`.
abbrev pub no_stage : Stage
no_stage = record {
  valid = false;
  rob_id = negsuc 0;
  value = 0;
  is_control = false;
  offer_cdb = true;
}

pub record ExecutionUnit : Type 0 where
  pub type : String
  pub latency : ℕ
  pub pipe : List Stage

-- `l < 1 ? 1 : l`.
abbrev pub stages_of : ℤ → ℕ
stages_of (pos n) = if n == 0 then 1 else n
stages_of (negsuc n) = 1

abbrev pub init_unit : String → ℤ → ExecutionUnit
init_unit t l = record { type = t; latency = stages_of l; pipe = replicate (stages_of l) no_stage }

abbrev pub can_issue : ExecutionUnit → Bool → Bool
can_issue u lane_ready = lane_ready && not (get_or u.pipe 0 no_stage).valid

-- What a toy operation computes; a sum, difference, product or quotient that leaves the range of
-- `int`, which C++ leaves undefined, is taken to wrap.
abbrev pub toy_value : String → Word → Word → Word
toy_value op a b =
    if str_eq op "ADD"
    then (a + b) % word_mod
    else if str_eq op "SUB"
    then (a + word_mod - b) % word_mod
    else if str_eq op "MUL"
    then a * b % word_mod
    else if str_eq op "DIV"
    then if b == 0 then 0 else pattern_of (div_ℤ (signed a) (signed b))
    else if str_eq op "BEQ"
    then if a == b then 1 else 0
    else if str_eq op "BNE"
    then if a == b then 0 else 1
    else 0

abbrev pub is_toy_branch : String → Bool
is_toy_branch op = str_eq op "BEQ" || str_eq op "BNE" || str_eq op "CALL" || str_eq op "RET"

-- The stage written by the issue of a toy operation.
abbrev pub toy_stage : String → Word → Word → ℤ → Stage
toy_stage op a b id = record {
  valid = true;
  rob_id = id;
  value = toy_value op a b;
  is_control = is_toy_branch op;
  offer_cdb = not (is_toy_branch op);
}

abbrev pub is_branch_unit : Fu → Bool
is_branch_unit br = true
is_branch_unit _ = false

abbrev pub is_jump : Op → Bool
is_jump br_jal = true
is_jump br_jalr = true
is_jump _ = false

-- The stage written by the issue of a decoded operation: only a jump that writes a register offers
-- its link value among the control operations.
abbrev pub op_stage : Op → Word → Word → ℤ → Word → ℕ → Bool → Stage
op_stage op a b id imm pc rd_used = record {
  valid = true;
  rob_id = id;
  value = execute_op op a b imm pc;
  is_control = is_branch_unit (fu_for_op op);
  offer_cdb = not (is_branch_unit (fu_for_op op)) || (is_jump op && rd_used);
}

-- `issue`, both overloads: the stage goes to the front of the pipe if that is free.
unfoldable pub issue : Stage → ExecutionUnit → Bool × ExecutionUnit
issue s u = if can_issue u true then (true, record u { pipe = set u.pipe 0 s }) else (false, u)

-- `pipe.back()`. A pipe is never empty.
abbrev pub output : ExecutionUnit → Stage
output u = get_or u.pipe (length u.pipe - 1) no_stage

abbrev pub output_valid : ExecutionUnit → Bool
output_valid u = (output u).valid

abbrev pub consumed : ExecutionUnit → ExecutionUnit
consumed u = record u { pipe = set u.pipe (length u.pipe - 1) no_stage }

unfoldable pub consume_output : ExecutionUnit → Option ExecutionUnit
consume_output u = if output_valid u then some (consumed u) else none

-- The loop of `advance` from stage `i` down, and the write of stage 0 after it.
unfoldable pub shift_from : ℕ → List Stage → List Stage
shift_from zero pipe = set pipe 0 no_stage
shift_from (suc i) pipe = shift_from i (set pipe (suc i) (get_or pipe i no_stage))

unfoldable pub advance : Bool → ExecutionUnit → ExecutionUnit
advance cdb_ready u =
    if not cdb_ready
    then u
    else if output_valid u
    then u
    else record u { pipe = shift_from (u.latency - 1) u.pipe }

unfoldable pub clear : ExecutionUnit → ExecutionUnit
clear u = record u { pipe = map (λ _. no_stage) u.pipe }

pub record ExecutionEngine : Type 0 where
  pub units : List ExecutionUnit
  pub lane_ready : List Bool

unfoldable pub init : ℕ → ℕ → ℕ → ℕ → ℤ → ℤ → ℤ → ℤ → ExecutionEngine
init n_alu n_mul n_div n_br alu_lat mul_lat div_lat br_lat =
    let us =
      replicate n_alu (init_unit "ALU" alu_lat)
      ++ (replicate n_mul (init_unit "MUL" mul_lat)
          ++ (replicate n_div (init_unit "DIV" div_lat)
              ++ replicate n_br (init_unit "BR" br_lat))) in
    record { units = us; lane_ready = replicate (length us) true }

-- The loop over the units: the first of the type whose lane is ready and whose front is free.
unfoldable pub issue_first :
    String → Stage → List ExecutionUnit → List Bool → Bool × List ExecutionUnit
issue_first t s [] ready = (false, [])
issue_first t s (u ∷ us) [] = (false, u ∷ us)
issue_first t s (u ∷ us) (b ∷ ready) =
    let (done, rest) = issue_first t s us ready in
    if str_eq u.type t && can_issue u b
    then ((issue s u).0, (issue s u).1 ∷ us)
    else (done, u ∷ rest)

abbrev pub issued : ExecutionEngine → String → Stage → Bool × ExecutionEngine
issued e t s =
    let (done, us) = issue_first t s e.units e.lane_ready in (done, record e { units = us })

abbrev pub toy_type : String → String
toy_type op =
    if str_eq op "MUL"
    then "MUL"
    else if str_eq op "DIV"
    then "DIV"
    else if is_toy_branch op
    then "BR"
    else "ALU"

unfoldable pub issue_toy_instruction :
    ExecutionEngine → String → Word → Word → ℤ → Bool × ExecutionEngine
issue_toy_instruction e op a b id = issued e (toy_type op) (toy_stage op a b id)

-- The type of unit, none for a memory operation.
abbrev pub unit_type : Fu → Option String
unit_type alu = some "ALU"
unit_type mul = some "MUL"
unit_type div = some "DIV"
unit_type br = some "BR"
unit_type mem = none

unfoldable pub issue_instruction :
    ExecutionEngine → Op → Word → Word → ℤ → Word → ℕ → Bool → Bool × ExecutionEngine
issue_instruction e op a b id imm pc rd_used = elim (unit_type (fu_for_op op)) [
  | none ↦ (false, e)
  | some t ↦ issued e t (op_stage op a b id imm pc rd_used)
]
