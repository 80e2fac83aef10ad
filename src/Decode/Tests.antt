-- ===== src/Decode/Tests.antt =====
-- Decoding of the word of `addi x5, x6, -1` and of an encoded offset.
use ooo_superscalar_risc_sim.Common.{◌≡◌, refl, arith, ◌&&◌, not, ◌==◌}
use ooo_superscalar_risc_sim.Types.{alu_add}
use ooo_superscalar_risc_sim.Common.Signed.{shift_right_ℤ}
use ooo_superscalar_risc_sim.Decode.{bits, decode_instruction, imm_i, imm_s, imm_b, imm_j}
use ooo_superscalar_risc_sim.Decode.Immediates.{sign_extend}
use ooo_superscalar_risc_sim.Decode.Encode.{encode_i, encode_s, encode_b, encode_j, imm-encode}
use ooo_superscalar_risc_sim.Decode.Laws.{writes, IsConsistent, instruction-IsConsistent}

imm-encode_example :
    (imm_i (encode_i 0xfff 0x30293) ≡ sign_extend 12 0xfff)
    × (imm_s (encode_s 0xfff 0x1fff 0x23) ≡ sign_extend 12 0xfff)
    × (imm_b (encode_b 0x1ffe 0x1fff 0x23) ≡ sign_extend 13 0x1ffe)
    × (imm_j (encode_j 0x1ffffe 0xef) ≡ sign_extend 21 0x1ffffe)
imm-encode_example =
    imm-encode 0xfff 0x1ffe 0x1ffffe 0x30293 0x1fff 0x23 0xef (omega arith) (omega arith)
      (omega arith) (omega arith) (omega arith) (omega arith) (omega arith) (omega arith)
      (omega arith)

instruction-IsConsistent_example :
    IsConsistent (decode_instruction 0xfff30293 0)
    × (decode_instruction 0xfff30293 0).rd_used ≡ (
        writes (decode_instruction 0xfff30293 0).op
        && not ((decode_instruction 0xfff30293 0).rd == 0))
instruction-IsConsistent_example = instruction-IsConsistent 0xfff30293 0

decode_addi :
    let u = decode_instruction 0xfff30293 0 in
    (u.op ≡ alu_add) × (u.rd ≡ 5) × (u.rs1 ≡ 6) × (u.imm ≡ 0xffffffff)
unfolding decode_instruction bits imm_i shift_right_ℤ
decode_addi = (refl, refl, refl, refl)
