-- ===== src/Signal/Value.antt =====
-- `Signal`, `_SliceProxy` and the operators of veripy/signal.py. An expression is its value in the
-- current state. Widths are fixed numbers, and a slice [hi:lo]
-- has lo at most hi + 1. `none` is the
-- ValueError of a negative shift count.
pub mod Bounds
pub mod Updates
mod Tests
use veripy.Base.{
  ℕ, zero, suc, ◌+◌, ◌-◌, ◌*◌, ◌/◌, ◌^◌, bit_and, bit_or, max, Bool, true, false, not, ◌||◌, List,
  [], ◌∷◌, Option, some, none, ◌>>=◌, ◌==◌, if◌then◌else◌,
}
use veripy.Base.Int.{
  ℤ, pos, negsuc, pos_part, ◌+ℤ◌, ◌-ℤ◌, ◌*ℤ◌, not_ℤ, and_ℤ, or_ℤ, xor_ℤ, shl_ℤ, shr_ℤ, eq_ℤ, lt_ℤ,
  of_bool,
}

-- `int(x)` with `_w(x)`, which is 1 for an integer.
pub record Operand : Type 0 where
  pub value : ℤ
  pub width : ℕ

abbrev pub int_operand : ℤ → Operand
int_operand z = record { value = z; width = 1 }

-- The methods of the operators; `radd` and the like have the operand on the left, `inverted` and
-- `negated` are `__invert__` and `__neg__`.
pub data Operator : Type 0 where
  add radd sub rsub mul rmul band rand bor ror bxor rxor : Operator
  lshift rlshift rshift rrshift : Operator
  inverted negated : Operator
  eq ne lt le gt ge : Operator

-- `z & mask`
unfoldable pub masked : ℤ → ℕ → ℤ
unfolding and_ℤ
masked z width = and_ℤ z (pos (2 ^ width - 1))

abbrev expr : ℤ → ℕ → Option Operand
expr z width = some (record { value = z; width = width })

unfoldable pub invert : Operand → Operand
unfolding masked
invert x = record { value = masked (not_ℤ x.value) x.width; width = x.width }

unfoldable pub negate : Operand → Operand
unfolding masked ◌-ℤ◌
negate x = record { value = masked (pos 0 -ℤ x.value) x.width; width = x.width }

-- The operators of a Signal and of an expression, `x` the object and `y` the operand, which the unary
-- ones do not read.
unfoldable pub apply_op : Operator → Operand → Operand → Option Operand
unfolding ◌+ℤ◌ ◌-ℤ◌ ◌*ℤ◌ and_ℤ or_ℤ xor_ℤ shl_ℤ shr_ℤ masked invert negate
apply_op add x y = expr (masked (x.value +ℤ y.value) x.width) x.width
apply_op radd x y = expr (masked (y.value +ℤ x.value) x.width) x.width
apply_op sub x y = expr (masked (x.value -ℤ y.value) x.width) x.width
apply_op rsub x y = expr (masked (y.value -ℤ x.value) x.width) x.width
apply_op mul x y = expr (x.value *ℤ y.value) (x.width + y.width)
apply_op rmul x y = expr (y.value *ℤ x.value) (y.width + x.width)
apply_op band x y = expr (and_ℤ x.value y.value) (max x.width y.width)
apply_op rand x y = expr (and_ℤ y.value x.value) (max x.width y.width)
apply_op bor x y = expr (or_ℤ x.value y.value) (max x.width y.width)
apply_op ror x y = expr (or_ℤ y.value x.value) (max x.width y.width)
apply_op bxor x y = expr (xor_ℤ x.value y.value) (max x.width y.width)
apply_op rxor x y = expr (xor_ℤ y.value x.value) (max x.width y.width)
apply_op lshift x y = shl_ℤ x.value y.value >>= λ z. expr (masked z x.width) x.width
apply_op rlshift x y = shl_ℤ y.value x.value >>= λ z. expr z y.width
apply_op rshift x y = shr_ℤ x.value y.value >>= λ z. expr z x.width
apply_op rrshift x y = shr_ℤ y.value x.value >>= λ z. expr z y.width
apply_op inverted x y = some (invert x)
apply_op negated x y = some (negate x)
apply_op eq x y = expr (of_bool (eq_ℤ x.value y.value)) 1
apply_op ne x y = expr (of_bool (not (eq_ℤ x.value y.value))) 1
apply_op lt x y = expr (of_bool (lt_ℤ x.value y.value)) 1
apply_op le x y = expr (of_bool (not (lt_ℤ y.value x.value))) 1
apply_op gt x y = expr (of_bool (lt_ℤ y.value x.value)) 1
apply_op ge x y = expr (of_bool (not (lt_ℤ x.value y.value))) 1

-- The operators of a slice: the sums and the shift to the left are not masked, and there is no
-- product.
unfoldable pub apply_slice_op : Operator → Operand → Operand → Option Operand
unfolding apply_op ◌+ℤ◌ ◌-ℤ◌ shl_ℤ
apply_slice_op add x y = expr (x.value +ℤ y.value) x.width
apply_slice_op radd x y = expr (y.value +ℤ x.value) x.width
apply_slice_op sub x y = expr (x.value -ℤ y.value) x.width
apply_slice_op rsub x y = expr (y.value -ℤ x.value) x.width
apply_slice_op mul x y = none
apply_slice_op rmul x y = none
apply_slice_op lshift x y = shl_ℤ x.value y.value >>= λ z. expr z x.width
apply_slice_op op x y = apply_op op x y

-- A value and the one that waits for the next tick.
pub record Signal : Type 0 where
  pub width : ℕ
  pub val : ℕ
  pub next : Option ℕ

-- `value & self._mask`, which is never negative.
unfoldable pub fit : ℤ → ℕ → ℕ
unfolding masked
fit z width = pos_part (masked z width)

unfoldable pub init_signal : ℕ → ℤ → Signal
unfolding fit
init_signal width reset = record { width = width; val = fit reset width; next = none }

-- A part of an assigned list: any but a signal counts as one bit.
pub data Part : Type 0 where
  signal_part : Operand → Part
  other_part : ℤ → Part

abbrev pub part_value : Part → ℤ
part_value (signal_part x) = x.value
part_value (other_part z) = z

abbrev pub part_width : Part → ℕ
part_width (signal_part x) = x.width
part_width (other_part z) = 1

unfoldable pub pack : ℕ → ℕ → List Part → ℕ
unfolding fit
pack v shift [] = v
pack v shift (p ∷ ps) =
    pack (bit_or v (fit (part_value p) (part_width p) * 2 ^ shift)) (shift + part_width p) ps

-- `self._val if self._next is None else self._next`
abbrev pub current : ℕ → Option ℕ → ℕ
current val none = val
current val (some v) = v

-- What changes a signal: `set`, `_assign` of a value or a list, `_tick`, the assignment to the slice
-- `[hi:lo]` and to a single bit.
pub data Update : Type 0 where
  set_to : ℤ → Update
  assign_to : ℤ → Update
  assign_list : List Part → Update
  ticks : Update
  assign_slice : ℕ → ℕ → ℤ → Update
  assign_bit : ℕ → ℤ → Update

-- `_SliceProxy._assign`, with `bits` bits from `lo` on.
abbrev pub slice_assign : Signal → ℕ → ℕ → ℤ → Signal
unfolding fit
slice_assign s lo bits z =
    let full_mask = 2 ^ s.width - 1 in
    let clear = full_mask - bit_and full_mask ((2 ^ bits - 1) * 2 ^ lo) in
    record s { next = some (bit_or (bit_and (current s.val s.next) clear) (fit z bits * 2 ^ lo)) }

-- The single bit of `__setitem__`.
abbrev pub set_bit : Signal → ℕ → ℤ → Signal
unfolding fit
set_bit s key z =
    let old = current s.val s.next in
    record s { next = some (bit_or (old - bit_and old (2 ^ key)) (fit z 1 * 2 ^ key)) }

unfoldable pub update : Signal → Update → Signal
unfolding fit pack
update s (set_to z) = record s { val = fit z s.width }
update s (assign_to z) = record s { next = some (fit z s.width) }
update s (assign_list ps) = record s { next = some (fit (pos (pack 0 0 ps)) s.width) }
update s ticks = record s { val = current s.val s.next; next = none }
update s (assign_slice hi lo z) = slice_assign s lo (hi + 1 - lo) z
update s (assign_bit key z) = set_bit s key z

unfoldable pub run : Signal → List Update → Signal
unfolding update
run s [] = s
run s (u ∷ us) = run (update s u) us

-- `_SliceProxy._val`
unfoldable pub slice_val : Signal → ℕ → ℕ → ℕ
slice_val s hi lo = bit_and (s.val / 2 ^ lo) (2 ^ (hi + 1 - lo) - 1)
