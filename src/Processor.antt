-- ===== src/Processor.antt =====
-- src/processor.cpp and include/processor.hpp: how the processor reads operands, what a result does to
-- the waiting instructions, and how a control instruction is resolved. The instruction table is the
-- list of its entries in the order in which the loops meet them; `none` is an access out of range.
pub mod Info
pub mod Stores
pub mod Loop
pub mod Permitted
pub mod Outcome
pub mod Finish
pub mod Steps
mod Tests
use Prim.Native.String.{String}
use ooo_superscalar_risc_sim.Common.{
  ℕ, ◌+◌, ◌-◌, ◌/◌, ◌%◌, ◌^◌, Bool, true, false, not, ◌&&◌, ◌||◌, Option, none, some, List, [], ◌∷◌,
  ◌++◌, map, if◌then◌else◌, ltb, ◌==◌, length, get_elem?,
}
use ooo_superscalar_risc_sim.Common.Int.{ℤ, pos, negsuc, eq_ℤ, index, Word}
use ooo_superscalar_risc_sim.Types.{Fu, alu, Op, br_jalr, uop_nop, MemSize, word, Uop, CdbResult}
use ooo_superscalar_risc_sim.Execute.{branch_taken, branch_target}
use ooo_superscalar_risc_sim.LoadStoreQueue.{
  LoadStoreQueue, find_first, update_first, set_store_data,
}
use ooo_superscalar_risc_sim.Processor.Info.{InstInfo}
use ooo_superscalar_risc_sim.Rat.{RatMap, RegisterAliasTable, lookup}
use ooo_superscalar_risc_sim.Rob.{ReorderBuffer, write_result}
use ooo_superscalar_risc_sim.Station.{Operand}

-- x1 and x5.
abbrev pub is_link_reg : ℕ → Bool
is_link_reg r = r == 1 || r == 5

abbrev pub is_jalr : Op → Bool
is_jalr br_jalr = true
is_jalr _ = false

abbrev pub is_jalr_return : Uop → Bool
is_jalr_return u = is_jalr u.op && ((u.rd == 0) && is_link_reg u.rs1)

abbrev pub is_jalr_call : Uop → Bool
is_jalr_call u = is_jalr u.op && is_link_reg u.rd

-- The word of the program at an aligned address.
abbrev pub imem_word : List Word → ℕ → Option Word
imem_word imem pc = if pc % 4 == 0 then get_elem? imem (pc / 4) else none

abbrev pub is_control : InstInfo → Bool
is_control info = info.is_branch || (info.is_jump || (info.is_call || info.is_ret))

abbrev pub has_rob_id : ℤ → InstInfo → Bool
has_rob_id tag info = eq_ℤ info.rob_id tag

abbrev pub find_inst_by_rob_id : List InstInfo → ℤ → Option InstInfo
find_inst_by_rob_id table tag = find_first (has_rob_id tag) table

-- A field of a slot of the reorder buffer.
abbrev pub rob_is_ready : ReorderBuffer → ℤ → Option Bool
rob_is_ready rob tag = elim (index tag (length rob.buffer)) [
  | none ↦ none
  | some i ↦ elim (get_elem? rob.buffer i) [ none ↦ none | some e ↦ some e.done ]
]

abbrev pub rob_value : ReorderBuffer → ℤ → Option Word
rob_value rob tag = elim (index tag (length rob.buffer)) [
  | none ↦ none
  | some i ↦ elim (get_elem? rob.buffer i) [ none ↦ none | some e ↦ some e.value ]
]

abbrev pub rob_write : ReorderBuffer → ℤ → Word → Option ReorderBuffer
rob_write rob tag value = elim (index tag (length rob.buffer)) [
  | none ↦ none
  | some i ↦ write_result rob i value
]

-- The parts of the processor that these operations read and write.
pub record Core : Type 0 where
  pub width : ℕ
  pub num_regs : ℕ
  pub arf : List Word
  pub rat : RegisterAliasTable
  pub rob : ReorderBuffer
  pub lsq : LoadStoreQueue
  pub inst_table : List InstInfo
  pub cdb_wakeup_pending : List (ℤ × Word)

-- Is this a register that can hold a value?
abbrev pub renamed_reg : ℤ → ℕ → Option ℕ
renamed_reg reg num_regs = elim (index reg num_regs) [
  | none ↦ none
  | some r ↦ if r == 0 then none else some r
]

pub resolve_operand : Core → ℤ → Option Operand
resolve_operand c reg = elim (renamed_reg reg c.num_regs) [
  | none ↦ some (record { ready = true; tag = negsuc 0; value = 0 })
  | some r ↦ elim (lookup c.rat reg) [
    | none ↦ elim (get_elem? c.arf r) [
      | none ↦ none
      | some v ↦ some (record { ready = true; tag = negsuc 0; value = v })
    ]
    | some t ↦ elim (rob_is_ready c.rob (pos t)) [
      | none ↦ none
      | some false ↦ some (record { ready = false; tag = pos t; value = 0 })
      | some true ↦ elim (rob_value c.rob (pos t)) [
        | none ↦ none
        | some v ↦ some (record { ready = true; tag = pos t; value = v })
      ]
    ]
  ]
]

-- An operand that waits for the tag takes the value.
abbrev pub waits_for : ℤ → Operand → Bool
waits_for tag o = not o.ready && eq_ℤ o.tag tag

abbrev pub woken : ℤ → Word → Operand → Operand
woken tag value o = if waits_for tag o then record o { ready = true; value = value } else o

abbrev pub takes_data : ℤ → InstInfo → Bool
takes_data tag info = not info.completed && (info.is_store && waits_for tag info.store_data)

abbrev pub wake_info : ℤ → Word → InstInfo → InstInfo
wake_info tag value info = if info.completed then info else record info {
  src1 = woken tag value info.src1;
  src2 = woken tag value info.src2;
  store_data = if info.is_store then woken tag value info.store_data else info.store_data;
}

-- The data of the stores that take the value, given to the queue in the order of the loop.
pub wake_stores : LoadStoreQueue → ℤ → Word → List InstInfo → LoadStoreQueue
wake_stores q tag value [] = q
wake_stores q tag value (info ∷ table) =
    wake_stores (if takes_data tag info then set_store_data q info.inst_id value else q) tag value
      table

abbrev pub update_inst_operands_from_cdb : Core → ℤ → Word → Core
update_inst_operands_from_cdb c tag value = record c {
  inst_table = map (wake_info tag value) c.inst_table;
  lsq = wake_stores c.lsq tag value c.inst_table;
}

abbrev pub completed_info : InstInfo → InstInfo
completed_info info = record info { completed = true }

pub broadcast_cdb : Core → CdbResult → Option Core
broadcast_cdb c result = elim (find_inst_by_rob_id c.inst_table result.rob_id) [
  | none ↦ some c
  | some info ↦ elim (rob_write c.rob result.rob_id result.value) [
    | none ↦ none
    | some rob ↦ some (record c {
      rob = rob;
      cdb_wakeup_pending = c.cdb_wakeup_pending ++ (result.rob_id, result.value) ∷ [];
      inst_table =
          if is_control info
          then update_first (has_rob_id result.rob_id) completed_info c.inst_table
          else c.inst_table;
    })
  ]
]

-- `static_cast<uint64_t>` of an `int`.
abbrev pub sign_extend : Word → ℕ
sign_extend w = if ltb w (2 ^ 31) then w else w + (2 ^ 64 - 2 ^ 32)

abbrev pub reg_as_address : ℤ → ℕ
reg_as_address (pos r) = r
reg_as_address (negsuc r) = 2 ^ 64 - (r + 1)

-- Whether a control instruction is taken, and where to.
pub actual_outcome : InstInfo → Word → Bool × ℕ
actual_outcome info fu_value =
    if info.has_uop
    then (
      info.is_jump || branch_taken info.op info.src1.value info.src2.value,
      branch_target info.op (info.pc % 2 ^ 32) info.src1.value info.imm,
    )
    else if info.is_call
    then (true, if info.imm == 0 then reg_as_address info.src1_reg else sign_extend info.imm)
    else if info.is_ret
    then if info.ras_had_return then (true, info.ras_ret_target) else (false, info.fallthrough_pc)
    else (not (fu_value == 0), sign_extend info.imm)

abbrev pub next_pc : InstInfo → Bool × ℕ → ℕ
next_pc info (taken, target) = if taken then target else info.fallthrough_pc

abbrev pub differs : Bool → Bool → Bool
differs true b = not b
differs false b = b

-- `dir_wrong || target_wrong`.
abbrev pub is_wrong : InstInfo → Bool × ℕ → Bool
is_wrong info (taken, target) =
    differs taken info.predicted_taken || (taken && not (info.predicted_target == target))

-- The flag says whether `earlyRecover` runs.
pub resolve_branch : InstInfo → Word → InstInfo × Bool
resolve_branch info fu_value =
    let outcome = actual_outcome info fu_value in
    let info' : InstInfo = record info {
      br_resolved = true;
      br_taken = outcome.0;
      br_next_pc = next_pc info outcome;
    } in
    if info.br_resolved
    then (info, false)
    else if is_wrong info outcome
    then (record info' { mispredicted = true; recovery_pc = next_pc info outcome }, true)
    else (info', false)
