-- ===== src/Decode.antt =====
-- src/decode.cpp: a 32-bit RV32IM instruction word to a micro-operation.
pub mod Immediates
pub mod Encode
pub mod Laws
mod Tests
use Prim.Native.Nat.{bit_and, bit_or}
use ooo_superscalar_risc_sim.Common.{
  ℕ, ◌+◌, ◌-◌, ◌*◌, ◌/◌, ◌%◌, ◌^◌, Bool, true, false, not, ◌&&◌, ◌||◌, if◌then◌else◌, ltb, ◌==◌,
}
use ooo_superscalar_risc_sim.Common.Int.{Word}
use ooo_superscalar_risc_sim.Common.Signed.{word_mod, signed, pattern_of, shift_right_ℤ}
use ooo_superscalar_risc_sim.Types.{
  Fu, alu, mul, div, mem, br, Op, alu_add, alu_sub, alu_sll, alu_slt, alu_sltu, alu_xor, alu_srl,
  alu_sra, alu_or, alu_and, alu_lui, alu_auipc, md_mul, md_mulh, md_mulhsu, md_mulhu, md_div,
  md_divu, md_rem, md_remu, br_eq, br_ne, br_lt, br_ge, br_ltu, br_geu, br_jal, br_jalr, mem_lb,
  mem_lh, mem_lw, mem_lbu, mem_lhu, mem_sb, mem_sh, mem_sw, uop_nop, MemSize, byte, half, word, Uop,
  default_uop,
}

-- `(inst >> lo) & ((1u << (hi - lo + 1)) - 1u)`.
unfoldable pub bits : ℕ → ℕ → ℕ → ℕ
bits inst hi lo = bit_and (inst / 2 ^ lo) (2 ^ (hi - lo + 1) - 1)

-- `static_cast<int32_t>(w) >> k` as a pattern.
abbrev pub arithmetic_shift : Word → ℕ → Word
arithmetic_shift w k = pattern_of (shift_right_ℤ (signed w) k)

unfoldable pub imm_i : ℕ → Word
imm_i inst = arithmetic_shift inst 20

unfoldable pub imm_s : ℕ → Word
imm_s inst =
    let raw = bit_or (bits inst 31 25 * 2 ^ 5) (bits inst 11 7) in
    arithmetic_shift (raw * 2 ^ 20 % word_mod) 20

unfoldable pub imm_b : ℕ → Word
imm_b inst =
    let raw =
      bit_or
        (bit_or (bit_or (bits inst 31 31 * 2 ^ 12) (bits inst 7 7 * 2 ^ 11))
          (bits inst 30 25 * 2 ^ 5))
        (bits inst 11 8 * 2 ^ 1) in
    arithmetic_shift (raw * 2 ^ 19 % word_mod) 19

unfoldable pub imm_u : ℕ → Word
imm_u inst = bit_and inst 0xfffff000

unfoldable pub imm_j : ℕ → Word
imm_j inst =
    let raw =
      bit_or
        (bit_or (bit_or (bits inst 31 31 * 2 ^ 20) (bits inst 19 12 * 2 ^ 12))
          (bits inst 20 20 * 2 ^ 11))
        (bits inst 30 21 * 2 ^ 1) in
    arithmetic_shift (raw * 2 ^ 11 % word_mod) 11

unfoldable pub make_nop : Uop → Uop
make_nop u = record u {
  op = uop_nop;
  fu = alu;
  rd_used = false;
  rs1_used = false;
  rs2_used = false;
  src2_is_imm = false;
  is_load = false;
  is_store = false;
  is_branch = false;
  is_jump = false;
}

abbrev pub with_op : Uop → Op → Uop
with_op u o = record u { op = o }

-- A switch over `funct3` with a case for each value, and its default.
abbrev pub by_funct3 {ℓ} : {A : Type ℓ} → ℕ → A → A → A → A → A → A → A → A → A → A
by_funct3 f a0 a1 a2 a3 a4 a5 a6 a7 other =
    if f == 0
    then a0
    else if f == 1
    then a1
    else if f == 2
    then a2
    else if f == 3
    then a3
    else if f == 4
    then a4
    else if f == 5
    then a5
    else if f == 6
    then a6
    else if f == 7
    then a7
    else other

-- The operation if `funct7` is as wanted, else a bubble.
abbrev pub needs : Bool → Uop → Op → Uop
needs ok u o = if ok then with_op u o else make_nop u

pub decode_op_imm : Uop → ℕ → ℕ → ℕ → Uop
decode_op_imm base inst funct3 funct7 =
    let u : Uop = record base {
      fu = alu;
      rd_used = true;
      rs1_used = true;
      src2_is_imm = true;
      imm = imm_i inst;
    } in
    by_funct3 funct3 (with_op u alu_add) (needs (funct7 == 0) u alu_sll) (with_op u alu_slt)
      (with_op u alu_sltu) (with_op u alu_xor)
      (if funct7 == 0 then with_op u alu_srl else needs (funct7 == 0x20) u alu_sra)
      (with_op u alu_or) (with_op u alu_and) (make_nop u)

pub decode_op : Uop → ℕ → ℕ → Uop
decode_op base funct3 funct7 =
    let u : Uop = record base { rd_used = true; rs1_used = true; rs2_used = true } in
    let m : Uop = record u { fu = mul } in
    let d : Uop = record u { fu = div } in
    let a : Uop = record u { fu = alu } in
    if funct7 == 1
    then by_funct3 funct3 (with_op m md_mul) (with_op m md_mulh) (with_op m md_mulhsu)
        (with_op m md_mulhu) (with_op d md_div) (with_op d md_divu) (with_op d md_rem)
        (with_op d md_remu) (make_nop u)
    else by_funct3 funct3
        (if funct7 == 0 then with_op a alu_add else needs (funct7 == 0x20) a alu_sub)
        (needs (funct7 == 0) a alu_sll) (needs (funct7 == 0) a alu_slt)
        (needs (funct7 == 0) a alu_sltu) (needs (funct7 == 0) a alu_xor)
        (if funct7 == 0 then with_op a alu_srl else needs (funct7 == 0x20) a alu_sra)
        (needs (funct7 == 0) a alu_or) (needs (funct7 == 0) a alu_and) (make_nop a)

abbrev pub sized_load : Uop → Op → MemSize → Bool → Uop
sized_load u o size unsigned = record u { op = o; mem_size = size; mem_unsigned = unsigned }

pub decode_load : Uop → ℕ → ℕ → Uop
decode_load base inst funct3 =
    let u : Uop = record base {
      fu = mem;
      is_load = true;
      rd_used = true;
      rs1_used = true;
      imm = imm_i inst;
    } in
    by_funct3 funct3 (sized_load u mem_lb byte false) (sized_load u mem_lh half false)
      (sized_load u mem_lw word false) (make_nop u) (sized_load u mem_lbu byte true)
      (sized_load u mem_lhu half true) (make_nop u) (make_nop u) (make_nop u)

pub decode_store : Uop → ℕ → ℕ → Uop
decode_store base inst funct3 =
    let u : Uop = record base {
      fu = mem;
      is_store = true;
      rs1_used = true;
      rs2_used = true;
      imm = imm_s inst;
    } in
    by_funct3 funct3 (record u { op = mem_sb; mem_size = byte })
      (record u { op = mem_sh; mem_size = half }) (record u { op = mem_sw; mem_size = word })
      (make_nop u) (make_nop u) (make_nop u) (make_nop u) (make_nop u) (make_nop u)

pub decode_branch : Uop → ℕ → ℕ → Uop
decode_branch base inst funct3 =
    let u : Uop = record base {
      fu = br;
      is_branch = true;
      rs1_used = true;
      rs2_used = true;
      imm = imm_b inst;
    } in
    by_funct3 funct3 (with_op u br_eq) (with_op u br_ne) (make_nop u) (make_nop u) (with_op u br_lt)
      (with_op u br_ge) (with_op u br_ltu) (with_op u br_geu) (make_nop u)

pub decode_jalr : Uop → ℕ → ℕ → Uop
decode_jalr base inst funct3 =
    if funct3 == 0
    then record base {
      fu = br;
      is_jump = true;
      op = br_jalr;
      rd_used = true;
      rs1_used = true;
      imm = imm_i inst;
    }
    else base

abbrev pub upper : Uop → ℕ → Op → Uop
upper base inst o = record base {
  fu = alu;
  op = o;
  rd_used = true;
  src2_is_imm = true;
  imm = imm_u inst;
}

-- The switch over the opcode.
pub decode_opcode : Uop → ℕ → ℕ → ℕ → ℕ → Uop
unfolding decode_op_imm decode_op decode_load decode_store decode_branch decode_jalr
decode_opcode base inst opcode funct3 funct7 =
    if opcode == 0x13
    then decode_op_imm base inst funct3 funct7
    else if opcode == 0x33
    then decode_op base funct3 funct7
    else if opcode == 0x03
    then decode_load base inst funct3
    else if opcode == 0x23
    then decode_store base inst funct3
    else if opcode == 0x63
    then decode_branch base inst funct3
    else if opcode == 0x6f
    then record base { fu = br; is_jump = true; op = br_jal; rd_used = true; imm = imm_j inst }
    else if opcode == 0x67
    then decode_jalr base inst funct3
    else if opcode == 0x37
    then upper base inst alu_lui
    else if opcode == 0x17
    then upper base inst alu_auipc
    else base

-- A write to x0 is never renamed.
abbrev pub drop_zero_rd : Uop → Uop
drop_zero_rd u = if u.rd == 0 then record u { rd_used = false } else u

-- The micro-operation before the switch: the register fields, all else default.
abbrev pub fresh_uop : ℕ → ℕ → Uop
fresh_uop inst pc = record default_uop {
  pc = pc;
  op = uop_nop;
  fu = alu;
  rd = bits inst 11 7;
  rs1 = bits inst 19 15;
  rs2 = bits inst 24 20;
  mem_size = word;
}

unfoldable pub decode_instruction : ℕ → ℕ → Uop
unfolding decode_opcode
decode_instruction inst pc =
    drop_zero_rd
      (decode_opcode (fresh_uop inst pc) inst (bits inst 6 0) (bits inst 14 12) (bits inst 31 25))
