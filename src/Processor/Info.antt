-- ===== src/Processor/Info.antt =====
-- include/processor.hpp: what the processor keeps of an instruction in flight. The readiness, tag and
-- value of an operand stand together in a record.
use Prim.Native.String.{String}
use ooo_superscalar_risc_sim.Common.{ℕ, Bool, false, List, []}
use ooo_superscalar_risc_sim.Common.Int.{ℤ, negsuc, Word}
use ooo_superscalar_risc_sim.Types.{Fu, alu, Op, uop_nop, MemSize, word}
use ooo_superscalar_risc_sim.Rat.{RatMap}
use ooo_superscalar_risc_sim.Station.{Operand}

pub record InstInfo : Type 0 where
  pub inst_id : ℕ
  pub rob_id : ℤ
  pub opcode : String
  pub pc : ℕ
  pub dest_reg : ℤ
  pub src1_reg : ℤ
  pub src2_reg : ℤ
  pub imm : Word
  pub is_load : Bool
  pub is_store : Bool
  pub is_branch : Bool
  pub is_call : Bool
  pub is_ret : Bool
  pub is_addi : Bool
  pub mem_size : MemSize
  pub mem_unsigned : Bool
  pub has_uop : Bool
  pub op : Op
  pub fu : Fu
  pub src2_is_imm : Bool
  pub is_jump : Bool
  pub rd_used : Bool
  pub src1 : Operand
  pub src2 : Operand
  pub store_data : Operand
  pub addr_computed : Bool
  pub address : Word
  pub dispatched_alu : Bool
  pub dispatched_load : Bool
  pub predicted_taken : Bool
  pub predicted_target : ℕ
  pub fallthrough_pc : ℕ
  pub completed : Bool
  pub mispredicted : Bool
  pub recovery_pc : ℕ
  pub br_resolved : Bool
  pub br_taken : Bool
  pub br_next_pc : ℕ
  pub rat_snapshot : RatMap
  pub ras_tos : ℕ
  pub ras_count : ℕ
  pub ras_stack : List ℕ
  pub ras_had_return : Bool
  pub ras_ret_target : ℕ

-- The tag, value and readiness that an operand has at first.
abbrev pub no_operand : Operand
no_operand = record { ready = false; tag = negsuc 0; value = 0 }

-- The default member initialisers.
abbrev pub default_info : InstInfo
default_info = record {
  inst_id = 0;
  rob_id = negsuc 0;
  opcode = "";
  pc = 0;
  dest_reg = negsuc 0;
  src1_reg = negsuc 0;
  src2_reg = negsuc 0;
  imm = 0;
  is_load = false;
  is_store = false;
  is_branch = false;
  is_call = false;
  is_ret = false;
  is_addi = false;
  mem_size = word;
  mem_unsigned = false;
  has_uop = false;
  op = uop_nop;
  fu = alu;
  src2_is_imm = false;
  is_jump = false;
  rd_used = false;
  src1 = no_operand;
  src2 = no_operand;
  store_data = no_operand;
  addr_computed = false;
  address = 0;
  dispatched_alu = false;
  dispatched_load = false;
  predicted_taken = false;
  predicted_target = 0;
  fallthrough_pc = 0;
  completed = false;
  mispredicted = false;
  recovery_pc = 0;
  br_resolved = false;
  br_taken = false;
  br_next_pc = 0;
  rat_snapshot = [];
  ras_tos = 0;
  ras_count = 0;
  ras_stack = [];
  ras_had_return = false;
  ras_ret_target = 0;
}
