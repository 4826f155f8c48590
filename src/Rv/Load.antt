-- ===== src/Rv/Load.antt =====
-- `li` of veripy/rv.py, on the registers of a processor.
use Prim.Native.Nat.{ℕ, ◌+◌, ◌-◌, ◌*◌, ◌/◌, ◌%◌, ◌^◌, ◌≤◌, ◌<◌, bit_and}
use veripy.Base.{
  ◌≡◌, refl, true, false, List, [], ◌∷◌, Option, none, some, ◌>>=◌, if◌then◌else◌, ltb, leb, lt→ltb,
  ◌==◌, ==_iff, Bool-cases, inl, inr, arith,
}
use veripy.Base.Int.{ℤ, pos, negsuc, sub_ℕ, and_ℤ, ◌-ℤ◌, eq_ℤ}
use veripy.Base.Bits.{bit_and-mask, bit_and-high, bit_or-disjoint}
use veripy.Rv.{mask, i_type, u_type, addi, lui, low_part, high_part, load, li}
use veripy.Rv.Decode.{opcode, rd_field, funct3, rs1_field, mask-lt}

-- The two instructions that `li` makes, as the RISC-V manual defines them: the immediate of `addi`
-- is extended by its sign, that of `lui` is the upper twenty bits, and register 0 stays.
abbrev pub Registers : Type 0
Registers = ℕ → ℕ

abbrev pub put : ℕ → ℕ → Registers → Registers
put r v regs = λ k. if k == r then (if r == 0 then regs k else v) else regs k

abbrev pub extended : ℕ → ℕ
extended n = if ltb n (2 ^ 11) then n else n + (2 ^ 32 - 2 ^ 12)

-- Of an instruction: its opcode, function, registers and the immediates of its two forms.
abbrev pub step : ℕ → ℕ → ℕ → ℕ → ℕ → ℕ → Registers → Option Registers
step op f3 rd rs1 imm upper regs =
    if op == 0x13
    then if f3 == 0 then some (put rd ((regs rs1 + extended imm) % 2 ^ 32) regs) else none
    else if op == 0x37
    then some (put rd upper regs)
    else none

unfoldable pub execute : ℕ → Registers → Option Registers
unfolding opcode rd_field funct3 rs1_field
execute w regs =
    step (opcode w) (funct3 w) (rd_field w) (rs1_field w) (w / 2 ^ 20) (w / 2 ^ 12 * 2 ^ 12) regs

unfoldable pub execute_all : List ℕ → Registers → Option Registers
unfolding execute
execute_all [] regs = some regs
execute_all (w ∷ ws) regs = execute w regs >>= execute_all ws

addi_sum : ℕ → ℕ → ℕ → ℕ
addi_sum m rs1 rd = m * 2 ^ 20 + rs1 * 2 ^ 15 + rd * 2 ^ 7 + 0x13

addi-sum :
    (rd rs1 : ℕ) (imm : ℤ) → rd < 32 → rs1 < 32 → addi rd rs1 imm ≡ addi_sum (mask imm 12) rs1 rd
unfolding i_type addi_sum
addi-sum rd rs1 imm hd hs =
    let a = mask imm 12 * 2 ^ 20 in
    let b = a + rs1 * 2 ^ 15 in
    rw
      (
        bit_or-disjoint 20 a (rs1 * 2 ^ 15) (omega arith) (omega arith),
        bit_or-disjoint 15 b (0 * 2 ^ 12) (omega arith) (omega arith),
        bit_or-disjoint 12 (b + 0 * 2 ^ 12) (rd * 2 ^ 7) (omega arith) (omega arith),
        bit_or-disjoint 7 (b + 0 * 2 ^ 12 + rd * 2 ^ 7) 0x13 (omega arith) (omega arith),
      )
      (omega arith)

lui_sum : ℕ → ℕ → ℕ
lui_sum hi rd = hi + rd * 2 ^ 7 + 0x37

lui-sum : (rd hi : ℕ) → rd < 32 → hi < 2 ^ 32 → hi % 2 ^ 12 ≡ 0 → lui rd (pos hi) ≡ lui_sum hi rd
unfolding u_type mask and_ℤ lui_sum
lui-sum rd hi hd hl hz =
    rw
      (
        bit_and-mask 32 hi,
        low_word,
        bit_and-high 20 12 hi hz (omega arith),
        bit_or-disjoint 12 hi (rd * 2 ^ 7) (omega arith) (omega arith),
        bit_or-disjoint 7 (hi + rd * 2 ^ 7) 0x37 (omega arith) (omega arith),
      )
      refl
  where
    low_word : hi % 2 ^ 32 ≡ hi
    low_word = omega arith

execute_fields :
    {op f3 rd rs1 imm upper op' f3' rd' rs1' imm' upper' : ℕ} (regs : Registers)
    → op ≡ op'
    → f3 ≡ f3'
    → rd ≡ rd'
    → rs1 ≡ rs1'
    → imm ≡ imm'
    → upper ≡ upper'
    → step op f3 rd rs1 imm upper regs ≡ step op' f3' rd' rs1' imm' upper' regs
execute_fields regs o f d s i u = λ j. step (o j) (f j) (d j) (s j) (i j) (u j) regs

execute-addi :
    (rd rs1 : ℕ) (imm : ℤ) (regs : Registers)
    → rd < 32
    → rs1 < 32
    → execute (addi rd rs1 imm) regs
      ≡ some (put rd ((regs rs1 + extended (mask imm 12)) % 2 ^ 32) regs)
unfolding execute opcode rd_field funct3 rs1_field addi_sum
execute-addi rd rs1 imm regs hd hs =
    let h = mask-lt imm 12 in
    let w = addi_sum (mask imm 12) rs1 rd in
    rw (addi-sum rd rs1 imm hd hs) (
      execute_fields {op = w % 128} {f3 = w / 2 ^ 12 % 8} {rd = w / 2 ^ 7 % 32}
        {rs1 = w / 2 ^ 15 % 32} {imm = w / 2 ^ 20} {upper = w / 2 ^ 12 * 2 ^ 12} {op' = 0x13}
        {f3' = 0} {rd' = rd} {rs1' = rs1} {imm' = mask imm 12} regs (omega arith) (omega arith)
        (omega arith) (omega arith) (omega arith) refl)

execute-lui :
    (rd hi : ℕ) (regs : Registers)
    → rd < 32
    → hi < 2 ^ 32
    → hi % 2 ^ 12 ≡ 0
    → execute (lui rd (pos hi)) regs ≡ some (put rd hi regs)
unfolding execute opcode rd_field funct3 rs1_field lui_sum
execute-lui rd hi regs hd hl hz =
    let w = lui_sum hi rd in
    rw (lui-sum rd hi hd hl hz) (
      execute_fields {op = w % 128} {f3 = w / 2 ^ 12 % 8} {rd = w / 2 ^ 7 % 32}
        {rs1 = w / 2 ^ 15 % 32} {imm = w / 2 ^ 20} {upper = w / 2 ^ 12 * 2 ^ 12} {op' = 0x37}
        {rd' = rd} {upper' = hi} regs (omega arith) refl (omega arith) refl refl (omega arith))

sub_ℕ-pos : (a b : ℕ) → b ≤ a → sub_ℕ a b ≡ pos (a - b)
sub_ℕ-pos a b h = ground arith

sub_ℕ-negsuc : (a b : ℕ) → a < b → sub_ℕ a b ≡ negsuc (b - a - 1)
sub_ℕ-negsuc a b h = ground arith

low_part-small : (m : ℕ) → m % 4096 < 2048 → low_part m ≡ pos (m % 4096)
unfolding low_part
low_part-small m h = rw (bit_and-mask 12 m) (ground arith)

low_part-large : (m : ℕ) → 2048 ≤ m % 4096 → low_part m ≡ negsuc (4095 - m % 4096)
unfolding low_part ◌-ℤ◌
low_part-large m h = rw (bit_and-mask 12 m) (ground arith)

high_part-small : (m : ℕ) → m < 2 ^ 32 → high_part m (pos (m % 4096)) ≡ m - m % 4096
unfolding high_part mask and_ℤ ◌-ℤ◌
high_part-small m h =
    rw
      (
        bit_and-mask 32 (m % 4096),
        sub_ℕ-pos (m + 0) (0 + m % 4096 % 2 ^ 32) (omega arith),
        bit_and-mask 32 (m + 0 - (0 + m % 4096 % 2 ^ 32)),
      )
      (omega arith)

high_part-large :
    (m : ℕ)
    → m < 2 ^ 32
    → 2048 ≤ m % 4096
    → high_part m (negsuc (4095 - m % 4096)) ≡ (m + 4096 - m % 4096) % 2 ^ 32
unfolding high_part mask and_ℤ ◌-ℤ◌
high_part-large m h k =
    let a = 4095 - m % 4096 in
    let b = 2 ^ 32 - 1 - a % 2 ^ 32 in
    elim (Bool-cases (leb b m)) [
      | inl e ↦
          (rw
            (
              bit_and-mask 32 a,
              sub_ℕ-pos (m + 0) (0 + b) (ground arith),
              bit_and-mask 32 (m + 0 - (0 + b)),
            )
            (ground arith))
      | inr e ↦
          (rw
            (
              bit_and-mask 32 a,
              sub_ℕ-negsuc (m + 0) (0 + b) (ground arith),
              bit_and-mask 32 (0 + b - (m + 0) - 1),
            )
            (ground arith))
    ]

put-twice : (r a b : ℕ) (regs : Registers) (k : ℕ) → put r b (put r a regs) k ≡ put r b regs k
put-twice r a b regs k = ground arith

-- A register gets a value, and the others keep theirs.
pub data Sets (r v : ℕ) (regs out : Registers) : Type 0 where
  sets : ((k : ℕ) → out k ≡ (if k == r then v else regs k)) → Sets r v regs out

put-Sets : (r v : ℕ) (regs : Registers) → 0 < r → Sets r v regs (put r v regs)
put-Sets r v regs h = sets λ k. ground arith

put-twice_Sets : (r a b : ℕ) (regs : Registers) → 0 < r → Sets r b regs (put r b (put r a regs))
put-twice_Sets r a b regs h = sets λ k. ground (arith, put-twice r a b regs k)

alone : ℕ → ℤ
alone v = if ltb v 0x800 then pos v else pos v -ℤ pos 0x1000

mask-pos : (a k : ℕ) → mask (pos a) k ≡ a % 2 ^ k
unfolding mask and_ℤ
mask-pos a k = bit_and-mask k a

low-small : (l : ℕ) → l < 4096 → mask (and_ℤ (pos l) (pos 0xFFF)) 12 ≡ l
unfolding and_ℤ
low-small l h = rw (mask-pos (bit_and l 4095) 12, bit_and-mask 12 l) (omega arith)

low-large : (l : ℕ) → l < 4096 → mask (and_ℤ (negsuc (4095 - l)) (pos 0xFFF)) 12 ≡ l
unfolding and_ℤ
low-large l h =
    rw (mask-pos (4095 - bit_and (4095 - l) 4095) 12, bit_and-mask 12 (4095 - l)) (omega arith)

alone-small : (m : ℕ) → m < 2048 → mask (alone m) 12 ≡ m % 4096
unfolding alone
alone-small m h = rw (lt→ltb m 2048 h) (mask-pos m 12)

alone-large : (m : ℕ) → 4096 ≤ m → mask (alone m) 12 ≡ m % 4096
unfolding alone ◌-ℤ◌
alone-large m h =
    rw (not_small, sub_ℕ-pos (m + 0) (0 + 4096) (omega arith), mask-pos (m + 0 - (0 + 4096)) 12)
      (omega arith)
  where
    not_small : ltb m 2048 ≡ false
    not_small = ground arith

module _ (rd : ℕ) (regs : Registers) (hr : 0 < rd) (hd : rd < 32) (h0 : regs 0 ≡ 0) where
  load-Sets :
      (m l hi : ℕ) (lo : ℤ)
      → hi < 2 ^ 32
      → hi % 2 ^ 12 ≡ 0
      → mask (and_ℤ lo (pos 0xFFF)) 12 ≡ l
      → (eq_ℤ lo (pos 0) ≡ true → l ≡ 0)
      → (hi + extended l) % 2 ^ 32 ≡ m
      → (hi ≡ 0 → mask (alone m) 12 ≡ l)
      → (out : Registers) × (execute_all (load rd m lo hi) regs ≡ some out) × Sets rd m regs out
  unfolding execute_all alone
  load-Sets m l hi lo hb hz hl hn ht ha = elim (Bool-cases (hi == 0)) [
    | inl e ↦
        (let z = (==_iff hi 0).0 e in
          (
            put rd m regs,
            rw (e, execute-addi rd 0 (alone m) regs hd (omega arith), ha z, h0) (rw (only z) refl),
            put-Sets rd m regs hr,
          ))
    | inr e ↦ elim (Bool-cases (eq_ℤ lo (pos 0))) [
      | inl f ↦ (
        put rd hi regs,
        rw (e, f, execute-lui rd hi regs hd hb hz) refl,
        rw (upper f) (put-Sets rd hi regs hr),
      )
      | inr f ↦ (
        put rd m (put rd hi regs),
        rw
            (
              e,
              f,
              execute-lui rd hi regs hd hb hz,
              execute-addi rd rd (and_ℤ lo (pos 0xFFF)) (put rd hi regs) hd hd,
              hl,
              at_rd,
              ht,
            )
            refl,
        put-twice_Sets rd hi m regs hr,
      )
    ]
  ]
    where
      only : hi ≡ 0 → (0 + extended l) % 2 ^ 32 ≡ m
      only z = rw (← z) ht

      upper : eq_ℤ lo (pos 0) ≡ true → m ≡ hi
      upper f = ground (arith, hn f)

      at_rd : put rd hi regs rd ≡ hi
      at_rd = ground arith

  load-any :
      (m : ℕ)
      → m < 2 ^ 32
      → (out : Registers) × (execute_all (load rd m (low_part m) (high_part m (low_part m))) regs
          ≡ some out)
        × Sets rd m regs out
  load-any m h = elim (Bool-cases (ltb (m % 4096) 2048)) [
    | inl e ↦
        (rw (low_part-small m (ground arith), high_part-small m h)
          (load-Sets m (m % 4096) (m - m % 4096) (pos (m % 4096)) (omega arith) (omega arith)
            (low-small (m % 4096) (omega arith)) (λ q. (==_iff (m % 4096) 0).0 q) (ground arith)
            (λ z. alone-small m (ground arith))))
    | inr e ↦
        (rw (low_part-large m (ground arith), high_part-large m h (ground arith))
          (load-Sets m (m % 4096) ((m + 4096 - m % 4096) % 2 ^ 32) (negsuc (4095 - m % 4096))
            (omega arith) (omega arith) (low-large (m % 4096) (omega arith)) (λ q. cc)
            (ground arith) (λ z. alone-large m (ground arith))))
  ]

  -- The instructions that `li` gives for any integer, of one word or two, run to their end and leave
  -- the integer modulo two to the 32 in the register, and the other registers as they were. The
  -- register is not register 0, which holds 0.
  pub li-Sets :
      (imm : ℤ)
      → (out : Registers) × (execute_all (li rd imm) regs ≡ some out)
        × Sets rd (mask imm 32) regs out
  unfolding li
  li-Sets imm = load-any (mask imm 32) (mask-lt imm 32)
