-- ===== src/Rv/Decode.antt =====
-- The fields of an instruction word as the RISC-V manual places them, against the encoders.
use Prim.Native.Nat.{ℕ, ◌+◌, ◌-◌, ◌*◌, ◌/◌, ◌%◌, ◌^◌, ◌<◌}
use veripy.Base.{◌≡◌, refl, arith}
use veripy.Base.Int.{ℤ, pos, negsuc, and_ℤ}
use veripy.Base.Bits.{pow_pos, bit_and-mask, bit_or-disjoint}
use veripy.Rv.{mask, b_type}

unfoldable pub opcode : ℕ → ℕ
opcode w = w % 128

unfoldable pub rd_field : ℕ → ℕ
rd_field w = w / 2 ^ 7 % 32

unfoldable pub funct3 : ℕ → ℕ
funct3 w = w / 2 ^ 12 % 8

unfoldable pub rs1_field : ℕ → ℕ
rs1_field w = w / 2 ^ 15 % 32

unfoldable pub rs2_field : ℕ → ℕ
rs2_field w = w / 2 ^ 20 % 32

-- The immediate of a branch, before its sign is extended.
unfoldable pub b_imm : ℕ → ℕ
b_imm w =
    w / 2 ^ 31 % 2 * 2 ^ 12 + w / 2 ^ 7 % 2 * 2 ^ 11 + w / 2 ^ 25 % 64 * 2 ^ 5 + w / 2 ^ 8 % 16 * 2

-- The immediate of a jump.
unfoldable pub j_imm : ℕ → ℕ
j_imm w =
    w / 2 ^ 31 % 2 * 2 ^ 20
    + w / 2 ^ 12 % 256 * 2 ^ 12
    + w / 2 ^ 20 % 2 * 2 ^ 11
    + w / 2 ^ 21 % 1024 * 2

pub mask-lt : (v : ℤ) (k : ℕ) → mask v k < 2 ^ k
unfolding mask and_ℤ
mask-lt (pos a) k = rw (bit_and-mask k a) (grind (arith, pow_pos k))
mask-lt (negsuc a) k = omega (arith, pow_pos k)

-- The fields of a branch, side by side.
b_sum : ℕ → ℕ → ℕ → ℕ → ℕ → ℕ
b_sum v rs2 rs1 f3 op =
    v / 2 ^ 12 % 2 * 2 ^ 31
    + v / 2 ^ 5 % 64 * 2 ^ 25
    + rs2 * 2 ^ 20
    + rs1 * 2 ^ 15
    + f3 * 2 ^ 12
    + v / 2 ^ 1 % 16 * 2 ^ 8
    + v / 2 ^ 11 % 2 * 2 ^ 7
    + op

b_type-sum :
    (imm : ℤ) (rs2 rs1 f3 op : ℕ)
    → rs2 < 32
    → rs1 < 32
    → f3 < 8
    → op < 128
    → b_type imm rs2 rs1 f3 op ≡ b_sum (mask imm 13) rs2 rs1 f3 op
unfolding b_type b_sum
b_type-sum imm rs2 rs1 f3 op h2 h1 h3 ho =
    let v = mask imm 13 in
    let a = v / 2 ^ 12 % 2 * 2 ^ 31 in
    let b = v / 2 ^ 5 % 64 * 2 ^ 25 in
    let c = v / 2 ^ 1 % 16 * 2 ^ 8 in
    let d = v / 2 ^ 11 % 2 * 2 ^ 7 in
    let ab = a + b in
    let ab2 = ab + rs2 * 2 ^ 20 in
    let ab1 = ab2 + rs1 * 2 ^ 15 in
    let ab3 = ab1 + f3 * 2 ^ 12 in
    rw
      (
        bit_and-mask 1 (v / 2 ^ 12),
        bit_and-mask 6 (v / 2 ^ 5),
        bit_and-mask 4 (v / 2 ^ 1),
        bit_and-mask 1 (v / 2 ^ 11),
        bit_or-disjoint 31 a b (omega arith) (omega arith),
        bit_or-disjoint 25 ab (rs2 * 2 ^ 20) (omega arith) (omega arith),
        bit_or-disjoint 20 ab2 (rs1 * 2 ^ 15) (omega arith) (omega arith),
        bit_or-disjoint 15 ab1 (f3 * 2 ^ 12) (omega arith) (omega arith),
        bit_or-disjoint 12 ab3 c (omega arith) (omega arith),
        bit_or-disjoint 8 (ab3 + c) d (omega arith) (omega arith),
        bit_or-disjoint 7 (ab3 + c + d) op (omega arith) (omega arith),
      )
      refl

unfoldable pub BranchFields : ℕ → ℕ → ℕ → ℕ → ℕ → ℕ → Type 0
unfolding opcode funct3 rs1_field rs2_field b_imm
BranchFields w op f3 rs1 rs2 imm =
    (opcode w ≡ op) × (funct3 w ≡ f3) × (rs1_field w ≡ rs1) × (rs2_field w ≡ rs2) × (b_imm w ≡ imm)

-- The pieces of the offset, and the offset from them.
b_imm-sum :
    (v rs2 rs1 f3 op : ℕ)
    → v < 2 ^ 13
    → rs2 < 32
    → rs1 < 32
    → f3 < 8
    → op < 128
    → b_imm (b_sum v rs2 rs1 f3 op) ≡ v - v % 2
unfolding b_imm b_sum
b_imm-sum v rs2 rs1 f3 op h h2 h1 h3 ho = rw (piece_12, piece_11, piece_5, piece_1) (omega arith)
  where
    w : ℕ
    w = b_sum v rs2 rs1 f3 op

    piece_12 : w / 2 ^ 31 % 2 ≡ v / 2 ^ 12 % 2
    piece_12 = omega arith

    piece_11 : w / 2 ^ 7 % 2 ≡ v / 2 ^ 11 % 2
    piece_11 = omega arith

    piece_5 : w / 2 ^ 25 % 64 ≡ v / 2 ^ 5 % 64
    piece_5 = omega arith

    piece_1 : w / 2 ^ 8 % 16 ≡ v / 2 ^ 1 % 16
    piece_1 = omega arith

-- A branch has its operation, its condition and its registers where the manual places them, and the
-- pieces of its offset make up the low 13 bits of the immediate, of which the lowest is dropped. The
-- registers, the condition and the operation fit in their fields.
pub b_type-decode :
    (imm : ℤ) (rs2 rs1 f3 op : ℕ)
    → rs2 < 32
    → rs1 < 32
    → f3 < 8
    → op < 128
    → BranchFields (b_type imm rs2 rs1 f3 op) op f3 rs1 rs2 (mask imm 13 - mask imm 13 % 2)
unfolding BranchFields b_sum
b_type-decode imm rs2 rs1 f3 op h2 h1 h3 ho = rw (b_type-sum imm rs2 rs1 f3 op h2 h1 h3 ho) (
    let h = mask-lt imm 13 in
    (
      omega arith,
      omega arith,
      omega arith,
      omega arith,
      b_imm-sum (mask imm 13) rs2 rs1 f3 op h h2 h1 h3 ho,
    ))
