-- ===== src/Decode/Laws.antt =====
-- What holds of the micro-operation of every instruction word, legal or not.
use ooo_superscalar_risc_sim.Common.{
  ℕ, if_lem, ◌≡◌, refl, arith, Bool, true, false, not, ◌&&◌, ◌||◌, ◌==◌,
}
use ooo_superscalar_risc_sim.Types.{
  alu, br, alu_lui, alu_auipc, Op, br_eq, br_ne, br_lt, br_ge, br_ltu, br_geu, br_jal, br_jalr,
  mem_lb, mem_lh, mem_lw, mem_lbu, mem_lhu, mem_sb, mem_sh, mem_sw, uop_nop, Uop, fu_for_op,
}
use ooo_superscalar_risc_sim.Decode.{
  bits, imm_j, upper, fresh_uop, make_nop, decode_op_imm, decode_op, decode_load, decode_store,
  decode_branch, decode_jalr, decode_opcode, drop_zero_rd, decode_instruction,
}

-- What kind of operation it is.
pub data Class : Type 0 where
  plain load store branch jump : Class

abbrev pub class_of : Op → Class
class_of mem_lb = load
class_of mem_lh = load
class_of mem_lw = load
class_of mem_lbu = load
class_of mem_lhu = load
class_of mem_sb = store
class_of mem_sh = store
class_of mem_sw = store
class_of br_eq = branch
class_of br_ne = branch
class_of br_lt = branch
class_of br_ge = branch
class_of br_ltu = branch
class_of br_geu = branch
class_of br_jal = jump
class_of br_jalr = jump
class_of _ = plain

abbrev pub is_class : Class → Class → Bool
is_class load load = true
is_class store store = true
is_class branch branch = true
is_class jump jump = true
is_class plain plain = true
is_class _ _ = false

-- Which operations write a register.
abbrev pub writes : Op → Bool
writes uop_nop = false
writes o = not (is_class store (class_of o) || is_class branch (class_of o))

-- The flags and the unit are those of the operation.
pub record IsConsistent (u : Uop) : Type 0 where
  pub unit : u.fu ≡ fu_for_op u.op
  pub loads : u.is_load ≡ is_class load (class_of u.op)
  pub stores : u.is_store ≡ is_class store (class_of u.op)
  pub branches : u.is_branch ≡ is_class branch (class_of u.op)
  pub jumps : u.is_jump ≡ is_class jump (class_of u.op)

-- The defaults that decoding starts from.
pub record IsFresh (u : Uop) : Type 0 where
  pub no_op : u.op ≡ uop_nop
  pub on_alu : u.fu ≡ alu
  pub no_rd : u.rd_used ≡ false
  pub no_load : u.is_load ≡ false
  pub no_store : u.is_store ≡ false
  pub no_branch : u.is_branch ≡ false
  pub no_jump : u.is_jump ≡ false

-- Decoding a format from fresh defaults: consistent flags, a destination as the operation has one,
-- and the destination's number as it was.
pub record IsDecoded (base u : Uop) : Type 0 where
  pub consistent : IsConsistent u
  pub written : u.rd_used ≡ writes u.op
  pub same_rd : u.rd ≡ base.rd

module _ (base : Uop) (fresh : IsFresh base) (inst f3 f7 : ℕ) where
  op_imm-IsDecoded : IsDecoded base (decode_op_imm base inst f3 f7)
  unfolding decode_op_imm make_nop fu_for_op
  op_imm-IsDecoded = ground arith

  op-IsDecoded : IsDecoded base (decode_op base f3 f7)
  unfolding decode_op make_nop fu_for_op
  op-IsDecoded = ground arith

  load-IsDecoded : IsDecoded base (decode_load base inst f3)
  unfolding decode_load make_nop fu_for_op
  load-IsDecoded = ground arith

  store-IsDecoded : IsDecoded base (decode_store base inst f3)
  unfolding decode_store make_nop fu_for_op
  store-IsDecoded = ground arith

  branch-IsDecoded : IsDecoded base (decode_branch base inst f3)
  unfolding decode_branch make_nop fu_for_op
  branch-IsDecoded = ground arith

  jalr-IsDecoded : IsDecoded base (decode_jalr base inst f3)
  unfolding decode_jalr fu_for_op
  jalr-IsDecoded = ground arith

  jal-IsDecoded :
      IsDecoded base
        (record base { fu = br; is_jump = true; op = br_jal; rd_used = true; imm = imm_j inst })
  unfolding fu_for_op
  jal-IsDecoded = ground arith

  lui-IsDecoded : IsDecoded base (upper base inst alu_lui)
  unfolding fu_for_op
  lui-IsDecoded = ground arith

  auipc-IsDecoded : IsDecoded base (upper base inst alu_auipc)
  unfolding fu_for_op
  auipc-IsDecoded = ground arith

  base-IsDecoded : IsDecoded base base
  unfolding fu_for_op
  base-IsDecoded = ground arith

  opcode-IsDecoded : (opcode : ℕ) → IsDecoded base (decode_opcode base inst opcode f3 f7)
  unfolding decode_opcode
  opcode-IsDecoded opcode = if_lem P (opcode == 0x13) op_imm-IsDecoded (
      if_lem P (opcode == 0x33) op-IsDecoded (
        if_lem P (opcode == 0x03) load-IsDecoded (
          if_lem P (opcode == 0x23) store-IsDecoded (
            if_lem P (opcode == 0x63) branch-IsDecoded (
              if_lem P (opcode == 0x6f) jal-IsDecoded (
                if_lem P (opcode == 0x67) jalr-IsDecoded (
                  if_lem P (opcode == 0x37) lui-IsDecoded
                    (if_lem P (opcode == 0x17) auipc-IsDecoded base-IsDecoded))))))))
    where
      P : Uop → Type 0
      P = IsDecoded base

drop_zero_rd_lem :
    (base u : Uop)
    → IsDecoded base u
    → IsConsistent (drop_zero_rd u)
      × (drop_zero_rd u).rd_used ≡ (writes (drop_zero_rd u).op && not ((drop_zero_rd u).rd == 0))
drop_zero_rd_lem base u ok = (ground arith, ground arith)

-- Every word, legal or not, decodes to a micro-operation whose unit and whose load, store, branch
-- and jump flags are those of its operation, and that claims a destination register exactly when the
-- operation writes one and the register is not x0.
pub instruction-IsConsistent :
    (inst pc : ℕ)
    → IsConsistent (decode_instruction inst pc)
      × (decode_instruction inst pc).rd_used
        ≡ (writes (decode_instruction inst pc).op && not ((decode_instruction inst pc).rd == 0))
unfolding decode_instruction
instruction-IsConsistent inst pc =
    drop_zero_rd_lem base
      (decode_opcode base inst (bits inst 6 0) (bits inst 14 12) (bits inst 31 25))
      (opcode-IsDecoded base
        (record {
          no_op = refl;
          on_alu = refl;
          no_rd = refl;
          no_load = refl;
          no_store = refl;
          no_branch = refl;
          no_jump = refl;
        })
        inst (bits inst 14 12) (bits inst 31 25) (bits inst 6 0))
  where
    base : Uop
    base = fresh_uop inst pc
