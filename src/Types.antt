-- ===== src/Types.antt =====
-- include/types.hpp: the vocabulary of micro-operations that the components exchange. A value of the
-- machine is its 32-bit pattern, an address a 64-bit number.
use Prim.Native.String.{String}
use text.Mathlib.Text.{◌==◌ as str_eq}
use ooo_superscalar_risc_sim.Common.{ℕ, Bool, false, List, [], if◌then◌else◌}
use ooo_superscalar_risc_sim.Common.Int.{ℤ, pos, Word}

pub data Fu : Type 0 where
  alu mul div mem br : Fu

pub data Op : Type 0 where
  alu_add alu_sub alu_sll alu_slt alu_sltu alu_xor alu_srl alu_sra alu_or alu_and alu_lui
        alu_auipc :
      Op
  md_mul md_mulh md_mulhsu md_mulhu md_div md_divu md_rem md_remu : Op
  br_eq br_ne br_lt br_ge br_ltu br_geu br_jal br_jalr : Op
  mem_lb mem_lh mem_lw mem_lbu mem_lhu mem_sb mem_sh mem_sw : Op
  uop_nop : Op

pub data MemSize : Type 0 where
  byte half word : MemSize

pub data MemSystem : Type 0 where
  ideal cached : MemSystem

pub record Uop : Type 0 where
  pub pc : ℕ
  pub op : Op
  pub fu : Fu
  pub rs1_used : Bool
  pub rs1 : ℕ
  pub rs2_used : Bool
  pub rs2 : ℕ
  pub rd_used : Bool
  pub rd : ℕ
  pub imm : Word
  pub src2_is_imm : Bool
  pub is_load : Bool
  pub is_store : Bool
  pub mem_size : MemSize
  pub mem_unsigned : Bool
  pub is_branch : Bool
  pub is_jump : Bool
  pub pred_taken : Bool
  pub pred_target : ℕ

-- The default member initialisers.
abbrev pub default_uop : Uop
default_uop = record {
  pc = 0;
  op = uop_nop;
  fu = alu;
  rs1_used = false;
  rs1 = 0;
  rs2_used = false;
  rs2 = 0;
  rd_used = false;
  rd = 0;
  imm = 0;
  src2_is_imm = false;
  is_load = false;
  is_store = false;
  mem_size = word;
  mem_unsigned = false;
  is_branch = false;
  is_jump = false;
  pred_taken = false;
  pred_target = 0;
}

pub opcode_to_op : String → Op
opcode_to_op opcode =
    if str_eq opcode "ADD"
    then alu_add
    else if str_eq opcode "SUB"
    then alu_sub
    else if str_eq opcode "MUL"
    then md_mul
    else if str_eq opcode "DIV"
    then md_div
    else if str_eq opcode "ADDI"
    then alu_add
    else if str_eq opcode "LOAD"
    then mem_lw
    else if str_eq opcode "STORE"
    then mem_sw
    else if str_eq opcode "BEQ"
    then br_eq
    else if str_eq opcode "BNE"
    then br_ne
    else uop_nop

unfoldable pub fu_for_op : Op → Fu
fu_for_op md_mul = mul
fu_for_op md_mulh = mul
fu_for_op md_mulhsu = mul
fu_for_op md_mulhu = mul
fu_for_op md_div = div
fu_for_op md_divu = div
fu_for_op md_rem = div
fu_for_op md_remu = div
fu_for_op mem_lb = mem
fu_for_op mem_lh = mem
fu_for_op mem_lw = mem
fu_for_op mem_lbu = mem
fu_for_op mem_lhu = mem
fu_for_op mem_sb = mem
fu_for_op mem_sh = mem
fu_for_op mem_sw = mem
fu_for_op br_eq = br
fu_for_op br_ne = br
fu_for_op br_lt = br
fu_for_op br_ge = br
fu_for_op br_ltu = br
fu_for_op br_geu = br
fu_for_op br_jal = br
fu_for_op br_jalr = br
fu_for_op _ = alu

-- A broadcast on the common data bus.
pub record CdbResult : Type 0 where
  pub rob_id : ℤ
  pub value : Word

pub record FetchedInstruction : Type 0 where
  pub pc : ℕ
  pub opcode : String
  pub dest_reg : ℤ
  pub src1_reg : ℤ
  pub src2_reg : ℤ
  pub imm : Word
  pub predicted_taken : Bool
  pub predicted_target : ℕ
  pub ras_tos : ℕ
  pub ras_count : ℕ
  pub ras_stack : List ℕ
  pub ras_had_return : Bool
  pub ras_ret_target : ℕ
  pub has_uop : Bool
  pub raw_instr : ℕ
  pub uop : Uop

abbrev pub default_instruction : FetchedInstruction
default_instruction = record {
  pc = 0;
  opcode = "";
  dest_reg = pos 0;
  src1_reg = pos 0;
  src2_reg = pos 0;
  imm = 0;
  predicted_taken = false;
  predicted_target = 0;
  ras_tos = 0;
  ras_count = 0;
  ras_stack = [];
  ras_had_return = false;
  ras_ret_target = 0;
  has_uop = false;
  raw_instr = 0;
  uop = default_uop;
}
