-- ===== src/Rv.antt =====
-- veripy/rv.py: the encoding of RV32I instructions. A word is a natural number; an immediate is an
-- integer of which `_mask` keeps the low bits. Shifts of natural numbers are products and quotients
-- by powers of two.
pub mod Decode
pub mod Load
mod Tests
use Prim.Native.Nat.{ℕ, ◌+◌, ◌-◌, ◌*◌, ◌/◌, ◌^◌, bit_and, bit_or}
use veripy.Base.{List, [], ◌∷◌, ◌++◌, if◌then◌else◌, ltb, leb, ◌==◌}
use veripy.Base.Int.{ℤ, pos, negsuc, pos_part, and_ℤ, ◌-ℤ◌, eq_ℤ}

infixl 72 ◌<<◌ ◌>>◌
infixl 60 ◌or◌
abbrev pub ◌<<◌ : ℕ → ℕ → ℕ
x << k = x * 2 ^ k

abbrev pub ◌>>◌ : ℕ → ℕ → ℕ
x >> k = x / 2 ^ k

abbrev pub ◌or◌ : ℕ → ℕ → ℕ
x or y = bit_or x y

-- `_mask`; the conjunction with a mask is not negative.
unfoldable pub mask : ℤ → ℕ → ℕ
unfolding and_ℤ
mask v bits = pos_part (and_ℤ v (pos (2 ^ bits - 1)))

-- `_r`, `_i`, `_s`, `_b`, `_u`, `_j`
unfoldable pub r_type : ℕ → ℕ → ℕ → ℕ → ℕ → ℕ → ℕ
r_type f7 rs2 rs1 f3 rd op =
    (f7 << 25) or (rs2 << 20) or (rs1 << 15) or (f3 << 12) or (rd << 7) or op

unfoldable pub i_type : ℤ → ℕ → ℕ → ℕ → ℕ → ℕ
unfolding mask
i_type imm rs1 f3 rd op = (mask imm 12 << 20) or (rs1 << 15) or (f3 << 12) or (rd << 7) or op

unfoldable pub s_type : ℤ → ℕ → ℕ → ℕ → ℕ → ℕ
unfolding mask
s_type imm rs2 rs1 f3 op =
    let v = mask imm 12 in
    ((v >> 5) << 25) or (rs2 << 20) or (rs1 << 15) or (f3 << 12) or (bit_and v 31 << 7) or op

unfoldable pub b_type : ℤ → ℕ → ℕ → ℕ → ℕ → ℕ
unfolding mask
b_type imm rs2 rs1 f3 op =
    let v = mask imm 13 in
    (bit_and (v >> 12) 1 << 31)
    or (bit_and (v >> 5) 63 << 25)
    or (rs2 << 20)
    or (rs1 << 15)
    or (f3 << 12)
    or (bit_and (v >> 1) 15 << 8)
    or (bit_and (v >> 11) 1 << 7)
    or op

unfoldable pub u_type : ℤ → ℕ → ℕ → ℕ
unfolding mask
u_type imm rd op = bit_and (mask imm 32) 0xFFFFF000 or (rd << 7) or op

unfoldable pub j_type : ℤ → ℕ → ℕ → ℕ
unfolding mask
j_type imm rd op =
    let v = mask imm 21 in
    (bit_and (v >> 20) 1 << 31)
    or (bit_and (v >> 1) 1023 << 21)
    or (bit_and (v >> 11) 1 << 20)
    or (bit_and (v >> 12) 255 << 12)
    or (rd << 7)
    or op

abbrev pub addi : ℕ → ℕ → ℤ → ℕ
addi rd rs1 imm = i_type imm rs1 0 rd 0x13

abbrev pub lui : ℕ → ℤ → ℕ
lui rd imm = u_type imm rd 0x37

-- The low twelve bits, read as a signed number, and what is left above them.
unfoldable pub low_part : ℕ → ℤ
unfolding ◌-ℤ◌
low_part v = let lo = bit_and v 0xFFF in if leb 0x800 lo then pos lo -ℤ pos 0x1000 else pos lo

unfoldable pub high_part : ℕ → ℤ → ℕ
unfolding mask and_ℤ ◌-ℤ◌
high_part v lo = mask (pos v -ℤ and_ℤ lo (pos 0xFFFFFFFF)) 32

abbrev pub load : ℕ → ℕ → ℤ → ℕ → List ℕ
load rd v lo hi =
    if hi == 0
    then addi rd 0 (if ltb v 0x800 then pos v else pos v -ℤ pos 0x1000) ∷ []
    else if eq_ℤ lo (pos 0)
    then lui rd (pos hi) ∷ []
    else lui rd (pos hi) ∷ addi rd rd (and_ℤ lo (pos 0xFFF)) ∷ []

-- `li`
unfoldable pub li : ℕ → ℤ → List ℕ
unfolding mask low_part high_part i_type u_type
li rd imm = let v = mask imm 32 in load rd v (low_part v) (high_part v (low_part v))
