-- ===== src/Decode/Encode.antt =====
-- An assembler for the immediate formats, and that decoding inverts it.
use ooo_superscalar_risc_sim.Common.{ℕ, ◌+◌, ◌*◌, ◌/◌, ◌%◌, ◌^◌, ◌<◌, ◌≡◌, ◌∙◌, ap, arith}
use ooo_superscalar_risc_sim.Decode.{imm_i, imm_s, imm_b, imm_j}
use ooo_superscalar_risc_sim.Decode.Immediates.{
  sign_extend, imm_i_lem, imm_s_lem, imm_b_lem, imm_j_lem,
}

-- `fields` are digits 19 to 0, `middle` digits 24 to 12, `low` the opcode.
abbrev pub encode_i : ℕ → ℕ → ℕ
encode_i v fields = v * 2 ^ 20 + fields

abbrev pub encode_s : ℕ → ℕ → ℕ → ℕ
encode_s v middle low = v / 2 ^ 5 * 2 ^ 25 + middle * 2 ^ 12 + v % 2 ^ 5 * 2 ^ 7 + low

abbrev pub encode_b : ℕ → ℕ → ℕ → ℕ
encode_b v middle low =
    v / 2 ^ 12 * 2 ^ 31
    + v / 2 ^ 5 % 2 ^ 6 * 2 ^ 25
    + middle * 2 ^ 12
    + v / 2 % 2 ^ 4 * 2 ^ 8
    + v / 2 ^ 11 % 2 * 2 ^ 7
    + low

-- `low` holds the destination register too.
abbrev pub encode_j : ℕ → ℕ → ℕ
encode_j v low =
    v / 2 ^ 20 * 2 ^ 31
    + v / 2 % 2 ^ 10 * 2 ^ 21
    + v / 2 ^ 11 % 2 * 2 ^ 20
    + v / 2 ^ 12 % 2 ^ 8 * 2 ^ 12
    + low

-- Each immediate format round-trips: whatever stands in the other fields, decoding gives back the
-- encoded offset, sign-extended to 32 bits. The offset has 12 digits for I and S, 13 for B and 21
-- for J; it is even for B and J.
pub imm-encode :
    (v w z fields middle low rd_low : ℕ)
    → fields < 2 ^ 20
    → middle < 2 ^ 13
    → low < 2 ^ 7
    → rd_low < 2 ^ 12
    → v < 2 ^ 12
    → w < 2 ^ 13
    → w % 2 ≡ 0
    → z < 2 ^ 21
    → z % 2 ≡ 0
    → (imm_i (encode_i v fields) ≡ sign_extend 12 v)
      × (imm_s (encode_s v middle low) ≡ sign_extend 12 v)
      × (imm_b (encode_b w middle low) ≡ sign_extend 13 w)
      × (imm_j (encode_j z rd_low) ≡ sign_extend 21 z)
imm-encode v w z fields middle low rd_low hf hm hl hr hv hw even hz even' =
    let i : encode_i v fields / 2 ^ 20 ≡ v = omega arith in
    let x : ℕ = encode_s v middle low in
    let s : x / 2 ^ 25 * 2 ^ 5 + x / 2 ^ 7 % 2 ^ 5 ≡ v = omega arith in
    let y : ℕ = encode_b w middle low in
    let b : y / 2 ^ 31 * 2 ^ 12
          + y / 2 ^ 7 % 2 * 2 ^ 11
          + y / 2 ^ 25 % 2 ^ 6 * 2 ^ 5
          + y / 2 ^ 8 % 2 ^ 4 * 2
        ≡ w =
      omega arith in
    let t : ℕ = encode_j z rd_low in
    let j : t / 2 ^ 31 * 2 ^ 20
          + t / 2 ^ 12 % 2 ^ 8 * 2 ^ 12
          + t / 2 ^ 20 % 2 * 2 ^ 11
          + t / 2 ^ 21 % 2 ^ 10 * 2
        ≡ z =
      omega arith in
    (
      imm_i_lem (encode_i v fields) (omega arith) ∙ ap (sign_extend 12) i,
      imm_s_lem x (omega arith) ∙ ap (sign_extend 12) s,
      imm_b_lem y (omega arith) ∙ ap (sign_extend 13) b,
      imm_j_lem t (omega arith) ∙ ap (sign_extend 21) j,
    )
