-- ===== src/Signal/Value/Bounds.antt =====
-- Values stay within their widths.
use Prim.Native.Nat.{digits, differ, bit_and-bitwise, bit_or-bitwise, bit_xor-bitwise}
use native.Mathlib.Nat.{
  div-le_self, pow-suc, pow-le-pow_right, mul-lt-mul_of_pos_left, mul-lt-mul_of_pos_right,
}
use veripy.Base.{
  ℕ, zero, suc, ◌+◌, ◌-◌, ◌*◌, ◌/◌, ◌%◌, ◌^◌, ◌≤◌, ◌<◌, ◌≡◌, ◌≢◌, refl, sym, subst, bit_and, bit_or,
  bit_xor, max, min, Bool, true, false, Option, some, arith,
}
use veripy.Base.Int.{
  ℤ, pos, negsuc, pos_part, ◌+ℤ◌, ◌-ℤ◌, ◌*ℤ◌, not_ℤ, and_ℤ, or_ℤ, xor_ℤ, shl_ℤ, shr_ℤ, of_bool,
}
use veripy.Base.Bits.{differ-lt, pow_pos, bit_and-mask}
use veripy.Signal.Value.{
  Operand, Operator, add, radd, sub, rsub, mul, rmul, band, rand, bor, ror, bxor, rxor, lshift,
  rlshift, rshift, rrshift, inverted, negated, eq, ne, lt, le, gt, ge, masked, apply_op, fit,
}

-- Operations on binary digits stay within a number of digits that both operands have.
module _ (z : ℕ → ℕ) (f : ℕ → ℕ → ℕ) (zle : (b : ℕ) → z b ≤ b)
    (flt : (x y : ℕ) → x < 2 → y < 2 → f x y < 2) where
  digits-lt : (n k a b : ℕ) → a < 2 ^ k → b < 2 ^ k → digits z f n a b < 2 ^ k
  digits-lt zero k a b p q = omega (arith, zle b)
  digits-lt (suc n) k zero b p q = omega (arith, zle b)
  digits-lt (suc n) zero (suc a) b p q = absurd (omega arith)
  digits-lt (suc n) (suc k) (suc a) b p q = omega (
    arith,
    pow-suc 2 k,
    digits-lt n k (suc a / 2) (b / 2) (omega (arith, pow-suc 2 k)) (omega (arith, pow-suc 2 k)),
    flt (suc a % 2) (b % 2) (omega arith) (omega arith),
  )

min-lt : (x y : ℕ) → x < 2 → y < 2 → min x y < 2
min-lt x y p q = omega arith

max-lt : (x y : ℕ) → x < 2 → y < 2 → max x y < 2
max-lt x y p q = omega arith

module _ (k a b : ℕ) (p : a < 2 ^ k) (q : b < 2 ^ k) where
  pub bit_and-lt : bit_and a b < 2 ^ k
  bit_and-lt =
      subst (λ n. n < 2 ^ k) (sym (bit_and-bitwise a b))
        (digits-lt (λ b. zero) min (λ b. omega arith) min-lt a k a b p q)

  pub bit_or-lt : bit_or a b < 2 ^ k
  bit_or-lt =
      subst (λ n. n < 2 ^ k) (sym (bit_or-bitwise a b))
        (digits-lt (λ b. b) max (λ b. omega arith) max-lt a k a b p q)

  bit_xor-lt : bit_xor a b < 2 ^ k
  bit_xor-lt =
      subst (λ n. n < 2 ^ k) (sym (bit_xor-bitwise a b))
        (digits-lt (λ b. b) differ (λ b. omega arith) differ-lt a k a b p q)

pub pow_add : (a b : ℕ) → 2 ^ (a + b) ≡ 2 ^ a * 2 ^ b
pow_add a zero = grind arith
pow_add a (suc b) = grind (arith, pow-suc 2 (a + b), pow-suc 2 b, pow_add a b)

pub product-lt : (a b x y : ℕ) → x < 2 ^ a → y < 2 ^ b → x * y < 2 ^ (a + b)
product-lt a b x zero p q = omega (arith, pow_pos (a + b))
product-lt a b x (suc y) p q = rw (pow_add a b) (
    omega (
      arith,
      mul-lt-mul_of_pos_right {k = suc y} p (omega arith),
      mul-lt-mul_of_pos_left {k = 2 ^ a} q (pow_pos a),
    ))

pub widen : (a b x : ℕ) → a ≤ b → x < 2 ^ a → x < 2 ^ b
widen a b x below h = omega (arith, pow-le-pow_right {n = 2} (omega arith) below)

-- An integer that a number of bits hold.
abbrev pub IsWithin : ℤ → ℕ → Type 0
IsWithin z w = (n : ℕ) × (z ≡ pos n) × (n < 2 ^ w)

masked-IsWithin : (z : ℤ) (w : ℕ) → IsWithin (masked z w) w
unfolding masked and_ℤ
masked-IsWithin (pos n) w =
    (bit_and n (2 ^ w - 1), refl, ground (arith, bit_and-mask w n, pow_pos w))
masked-IsWithin (negsuc n) w = (2 ^ w - 1 - bit_and n (2 ^ w - 1), refl, omega (arith, pow_pos w))

pub fit-lt : (z : ℤ) (w : ℕ) → fit z w < 2 ^ w
unfolding fit
fit-lt z w =
    let (n, e, below) = masked-IsWithin z w in subst (λ (k : ℤ). pos_part k < 2 ^ w) (sym e) below

of_bool-IsWithin : (b : Bool) → IsWithin (of_bool b) 1
of_bool-IsWithin true = (1, refl, omega arith)
of_bool-IsWithin false = (0, refl, omega arith)

-- A result that is there, and that its own width holds.
abbrev pub IsResult : Option Operand → Type 0
IsResult o = (r : Operand) × (o ≡ some r) × IsWithin r.value r.width

-- A number as an operand.
abbrev pub word : ℕ → ℕ → Operand
word x w = record { value = pos x; width = w }

product : (x y : ℕ) → pos x *ℤ pos y ≡ pos (x * y)
unfolding ◌*ℤ◌
product x y = ground arith

module _ (x wx y wy : ℕ) (p : x < 2 ^ wx) (q : y < 2 ^ wy) where
  result : (z : ℤ) (w : ℕ) → IsWithin z w → IsResult (some (record { value = z; width = w }))
  result z w h = (record { value = z; width = w }, refl, h)

  of_mask : (z : ℤ) (w : ℕ) → IsResult (some (record { value = masked z w; width = w }))
  of_mask z w = result (masked z w) w (masked-IsWithin z w)

  of_test : (b : Bool) → IsResult (some (record { value = of_bool b; width = 1 }))
  of_test b = result (of_bool b) 1 (of_bool-IsWithin b)

  p' : x < 2 ^ max wx wy
  p' = widen wx (max wx wy) x (omega arith) p

  q' : y < 2 ^ max wx wy
  q' = widen wy (max wx wy) y (omega arith) q

  of_word : (n w : ℕ) → n < 2 ^ w → IsResult (some (word n w))
  of_word n w h = result (pos n) w (n, refl, h)

  -- Every operator of a signal, unary or binary, on numbers that their widths hold gives a value that
  -- its width holds, but for the shift of an operand to the left by the signal.
  pub apply_op-IsResult :
      (op : Operator) → op ≢ rlshift → IsResult (apply_op op (word x wx) (word y wy))
  unfolding apply_op and_ℤ or_ℤ xor_ℤ shl_ℤ shr_ℤ
  apply_op-IsResult add ne_op = of_mask (pos x +ℤ pos y) wx
  apply_op-IsResult radd ne_op = of_mask (pos y +ℤ pos x) wx
  apply_op-IsResult sub ne_op = of_mask (pos x -ℤ pos y) wx
  apply_op-IsResult rsub ne_op = of_mask (pos y -ℤ pos x) wx
  apply_op-IsResult mul ne_op =
      result (pos x *ℤ pos y) (wx + wy) (x * y, product x y, product-lt wx wy x y p q)
  apply_op-IsResult rmul ne_op =
      result (pos y *ℤ pos x) (wy + wx) (y * x, product y x, product-lt wy wx y x q p)
  apply_op-IsResult band ne_op =
      of_word (bit_and x y) (max wx wy) (bit_and-lt (max wx wy) x y p' q')
  apply_op-IsResult rand ne_op =
      of_word (bit_and y x) (max wx wy) (bit_and-lt (max wx wy) y x q' p')
  apply_op-IsResult bor ne_op = of_word (bit_or x y) (max wx wy) (bit_or-lt (max wx wy) x y p' q')
  apply_op-IsResult ror ne_op = of_word (bit_or y x) (max wx wy) (bit_or-lt (max wx wy) y x q' p')
  apply_op-IsResult bxor ne_op =
      of_word (bit_xor x y) (max wx wy) (bit_xor-lt (max wx wy) x y p' q')
  apply_op-IsResult rxor ne_op =
      of_word (bit_xor y x) (max wx wy) (bit_xor-lt (max wx wy) y x q' p')
  apply_op-IsResult lshift ne_op = of_mask (pos (x * 2 ^ y)) wx
  apply_op-IsResult rlshift ne_op = absurd (ne_op refl)
  apply_op-IsResult rshift ne_op = of_word (x / 2 ^ y) wx (omega (arith, div-le_self x (2 ^ y)))
  apply_op-IsResult rrshift ne_op = of_word (y / 2 ^ x) wy (omega (arith, div-le_self y (2 ^ x)))
  apply_op-IsResult inverted ne_op = of_mask (not_ℤ (pos x)) wx
  apply_op-IsResult negated ne_op = of_mask (pos 0 -ℤ pos x) wx
  apply_op-IsResult eq ne_op = of_test _
  apply_op-IsResult ne ne_op = of_test _
  apply_op-IsResult lt ne_op = of_test _
  apply_op-IsResult le ne_op = of_test _
  apply_op-IsResult gt ne_op = of_test _
  apply_op-IsResult ge ne_op = of_test _
