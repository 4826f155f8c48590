-- ===== src/Rv/Tests.antt =====
-- Instruction words of the RISC-V manual, and the theorems at concrete inputs.
use Prim.Native.Nat.{◌-◌, ◌%◌}
use veripy.Base.{◌≡◌, refl, some, [], ◌∷◌, arith}
use veripy.Base.Int.{pos, negsuc, ◌-ℤ◌}
use veripy.Rv.{mask, b_type, li}
use veripy.Rv.Decode.{BranchFields, b_type-decode}
use veripy.Rv.Load.{Registers, Sets, execute_all, li-Sets}

-- bne x1, x2, -4
bne-word : b_type (negsuc 3) 2 1 1 0x63 ≡ 0xFE209EE3
unfolding b_type
bne-word = refl

-- lui x5, 0x12346; addi x5, x5, -1
li-words : li 5 (pos 0x12345FFF) ≡ 0x123462B7 ∷ 0xFFF28293 ∷ []
unfolding li ◌-ℤ◌
li-words = refl

b_type-decode_example :
    BranchFields
      (b_type (negsuc 3) 2 1 1 0x63)
      0x63
      1
      1
      2
      (mask (negsuc 3) 13 - mask (negsuc 3) 13 % 2)
b_type-decode_example =
    b_type-decode (negsuc 3) 2 1 1 0x63 (omega arith) (omega arith) (omega arith) (omega arith)

abbrev cleared : Registers
cleared = λ k. 0

li-Sets_example :
    (out : Registers) × (execute_all (li 5 (pos 0x12345FFF)) cleared ≡ some out)
    × Sets 5 (mask (pos 0x12345FFF) 32) cleared out
li-Sets_example = li-Sets 5 cleared (omega arith) (omega arith) refl (pos 0x12345FFF)
