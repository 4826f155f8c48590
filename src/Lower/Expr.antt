-- ===== src/Lower/Expr.antt =====
-- veripy/lower.py: `_expr`, the lowering of an expression, and `_signal_width`.
pub mod Constant
use veripy.Base.{
  ℕ, String, Bool, true, false, List, [], ◌∷◌, Option, none, some, ◌&&◌, ◌||◌, if◌then◌else◌, same,
  contains, lookup,
}
use veripy.Base.Int.{ℤ, pos, negsuc, ◌+ℤ◌, ◌-ℤ◌, of_bool}
use veripy.Ir.{
  BinaryOp, plus, minus, times, over, modulo, band, bor, bxor, shl, shr, UnaryOp, invert, lnot,
  negate, CompareOp, eq, ne, lt, gt, le, ge, BoolOp, land, lor, Expr, Exprs, const, param, sig,
  bin_op, unary_op, compare, bool_op, mux, slice, slice_lo, index, concat, clz, ctz, popcount, sext,
  enil, econs,
}
use veripy.Lower.Outcome.{Outcome, ok, syntax_error, raised, outside, exhausted, ◌>>=◌}
use veripy.Lower.Ast.{
  PyBinary, add, sub, mult, floor_div, py_mod, bit_and, bit_or, bit_xor, lshift, rshift, PyUnary,
  op_invert, op_not, usub, PyCompare, op_eq, not_eq, op_lt, op_gt, lt_e, gt_e, PyBool, op_and,
  op_or, Ast, Asts, number, boolean, float_number, name, attribute, py_binary, py_bool, py_unary,
  py_compare, subscript, py_slice, call, py_list, if_exp, absent, anil, acons, is_self,
}
use veripy.Lower.Scope.{
  Plain, signal, Object, Value, object, sequence, Scope, Locals, Resolved, parameter, constant,
  float_constant, plain_object, resolve_name, under, target_name, apply_fold, const_eval, py_get,
}

-- `_BIN_OPS`
unfoldable pub binary_op : PyBinary → Option BinaryOp
binary_op add = some plus
binary_op sub = some minus
binary_op mult = some times
binary_op floor_div = some over
binary_op py_mod = some modulo
binary_op bit_and = some band
binary_op bit_or = some bor
binary_op bit_xor = some bxor
binary_op lshift = some shl
binary_op rshift = some shr
binary_op op = none

-- `_UNARY_OPS`
unfoldable pub unary_operator : PyUnary → Option UnaryOp
unary_operator op_invert = some invert
unary_operator op_not = some lnot
unary_operator usub = some negate
unary_operator op = none

-- `_CMP_OPS`
unfoldable pub compare_op : PyCompare → Option CompareOp
compare_op op_eq = some eq
compare_op not_eq = some ne
compare_op op_lt = some lt
compare_op op_gt = some gt
compare_op lt_e = some le
compare_op gt_e = some ge
compare_op op = none

-- `_BOOL_OPS`
unfoldable pub bool_operator : PyBool → BoolOp
bool_operator op_and = land
bool_operator op_or = lor

-- The expression of a bare name that is no local variable.
unfoldable pub resolved_expr : String → Outcome Resolved → Outcome Expr
resolved_expr x (ok (parameter p v)) = ok (param p)
resolved_expr x (ok (constant z)) = ok (const z)
resolved_expr x (ok float_constant) = outside
resolved_expr x (ok (plain_object (object o))) = elim o.value [
  | signal s ↦ ok (sig s)
  | _ ↦ ok (sig x)
]
resolved_expr x (ok (plain_object (sequence os))) = ok (sig x)
resolved_expr x syntax_error = ok (sig x)
resolved_expr x raised = raised
resolved_expr x outside = outside
resolved_expr x exhausted = exhausted

abbrev pub local_or : Option ℕ → Expr → Outcome Expr → Outcome Expr
local_or (some w) e o = ok e
local_or none e o = o

unfoldable pub name_expr : Scope → Locals → String → Outcome Expr
unfolding resolve_name resolved_expr
name_expr sc locals x = local_or (lookup x locals) (sig x) (resolved_expr x (resolve_name sc x))

-- `getattr(r[1], node.attr, None)` of a name in the closure, when it is a signal.
unfoldable pub closure_attribute : Outcome Resolved → String → Outcome Expr
closure_attribute (ok (plain_object (object o))) a = elim (lookup a o.fields) [
  | some (signal s) ↦ ok (sig s)
  | _ ↦ syntax_error
]
closure_attribute (ok r) a = syntax_error
closure_attribute syntax_error a = syntax_error
closure_attribute raised a = raised
closure_attribute outside a = outside
closure_attribute exhausted a = exhausted

-- An attribute: a signal of the module, of a submodule, or of an object of the closure.
unfoldable pub attribute_expr : Scope → Ast → String → Outcome Expr
unfolding target_name resolve_name closure_attribute
attribute_expr sc e a = elim (target_name sc (attribute e a)) [
  | some x ↦ ok (sig x)
  | none ↦ elim e [ name n ↦ closure_attribute (resolve_name sc n) a | _ ↦ syntax_error ]
]

-- `_signal_width`
unfoldable pub signal_width : Scope → Expr → ℤ
signal_width sc (sig x) = elim (lookup x sc.signals) [ some w ↦ pos w | none ↦ pos 64 ]
signal_width sc (slice_lo e lo) = pos 1
signal_width sc (slice e (const h) (const l)) = h -ℤ l +ℤ pos 1
signal_width sc (index e i) = pos 1
signal_width sc e = pos 64

abbrev pub to_width : ℤ → Outcome ℕ
to_width (pos w) = ok w
to_width (negsuc w) = outside

-- The constant that an operator on two constants is folded to, unless an operand is the bare name
-- of a parameter; `none` when it is not folded.
abbrev pub is_param_name : Scope → Ast → Bool
is_param_name sc (name x) = contains sc.params x
is_param_name sc e = false

abbrev pub caught {ℓ} : {A : Type ℓ} → Outcome A → Outcome (Option A)
caught (ok a) = ok (some a)
caught syntax_error = ok none
caught raised = raised
caught outside = outside
caught exhausted = exhausted

unfoldable pub try_fold : Scope → PyBinary → Ast → Ast → Outcome (Option ℤ)
unfolding const_eval apply_fold
try_fold sc op l r = caught (
    const_eval sc l >>= λ a. const_eval sc r >>= λ b.
    if is_param_name sc l || is_param_name sc r then syntax_error else apply_fold op a b)

-- `self.port_array[i]`, when the index is a constant in range; every exception is caught.
unfoldable pub port_element : Scope → String → Ast → Option String
unfolding const_eval
port_element sc a i = elim (lookup a sc.port_arrays) [
  | none ↦ none
  | some names ↦ elim (const_eval sc i) [ ok k ↦ py_get names k | _ ↦ none ]
]

-- The signal of `self.port_array[i]`.
unfoldable pub element_of : Scope → Ast → Ast → Option String
unfolding is_self port_element
element_of sc (attribute e a) i = if is_self e then port_element sc a i else none
element_of sc e i = none

-- `xs + [x]`
abbrev pub snoc : Exprs → Expr → Exprs
snoc enil e = econs e enil
snoc (econs x xs) e = econs x (snoc xs e)

-- `clz`, `ctz`, `popcount`; `none` for any other function.
unfoldable pub bit_primitive : String → Option (Expr → ℕ → Expr)
unfolding same
bit_primitive f =
    if same f "clz"
    then some (λ e w. clz e w)
    else if same f "ctz"
    then some (λ e w. ctz e w)
    else if same f "popcount"
    then some (λ e w. popcount e w)
    else none

-- `[... for e in es]` and `[... for e in reversed(es)]`, which ends at the first exception.
unfoldable pub in_order : List (Outcome Expr) → Outcome Exprs
in_order [] = ok enil
in_order (o ∷ os) = do e ← o; es ← in_order os; ok (econs e es)

unfoldable pub reversed : List (Outcome Expr) → Outcome Exprs
reversed [] = ok enil
reversed (o ∷ os) = do es ← reversed os; e ← o; ok (snoc es e)

unfoldable pub sext_expr : Scope → Expr → Asts → Outcome Expr
unfolding signal_width const_eval
sext_expr sc e (acons a (acons n anil)) = do
  s ← to_width (signal_width sc e)
  z ← const_eval sc n
  d ← to_width z
  ok (sext e s d)
sext_expr sc e es = syntax_error

-- A call of a function by its name, from its arguments and what they are lowered to.
unfoldable pub call_expr : Scope → String → Asts → List (Outcome Expr) → Outcome Expr
unfolding same reversed bit_primitive signal_width sext_expr
call_expr sc f args os = if same f "Cat" then (reversed os >>= λ es. ok (concat es)) else elim os [
  | a ∷ [] ↦ if same f "int" then a else elim (bit_primitive f) [
    | some make ↦ (a >>= λ e. to_width (signal_width sc e) >>= λ w. ok (make e w))
    | none ↦ syntax_error
  ]
  | a ∷ b ∷ [] ↦ if same f "sext" then (a >>= λ e. sext_expr sc e args) else syntax_error
  | s ∷ a ∷ b ∷ [] ↦
      if same f "Mux" then (s >>= λ s. a >>= λ a. b >>= λ b. ok (mux s a b)) else syntax_error
  | _ ↦ syntax_error
]

-- A bound of a slice, which may be absent.
abbrev pub bound : Ast → Outcome Expr → Outcome (Option Expr)
bound absent o = ok none
bound e o = o >>= λ e. ok (some e)

abbrev pub lower_bound : Option Expr → Expr
lower_bound none = const (pos 0)
lower_bound (some e) = e

abbrev pub slice_expr : Expr → Option Expr → Expr → Expr
slice_expr e none lo = slice_lo e lo
slice_expr e (some hi) lo = slice e hi lo

-- The constant, or the operation where there is one.
abbrev pub folded_or : Option ℤ → Option BinaryOp → Outcome Expr → Outcome Expr → Outcome Expr
folded_or (some z) op left right = ok (const z)
folded_or none (some op) left right = left >>= λ a. right >>= λ b. ok (bin_op op a b)
folded_or none none left right = syntax_error

-- `_expr`, and its outcome for each of several expressions.
unfoldable mutual
  unfolding name_expr attribute_expr try_fold binary_op unary_operator compare_op element_of
      in_order reversed call_expr

  pub expr : Scope → Locals → Ast → Outcome Expr
  expr sc ls (number z) = ok (const z)
  expr sc ls (boolean b) = ok (const (of_bool b))
  expr sc ls float_number = outside
  expr sc ls (name x) = name_expr sc ls x
  expr sc ls (attribute e a) = attribute_expr sc e a
  expr sc ls (py_binary op l r) = do
    let left = expr sc ls l
    let right = expr sc ls r
    folded ← try_fold sc op l r
    folded_or folded (binary_op op) left right
  expr sc ls (py_bool op es) = do es ← in_order (exprs sc ls es); ok (bool_op (bool_operator op) es)
  expr sc ls (py_unary op e) =
      let lowered = expr sc ls e in
      elim (unary_operator op) [
        | some o ↦ (lowered >>= λ a. ok (unary_op o a))
        | none ↦ syntax_error
      ]
  expr sc ls (py_compare l (op ∷ []) (acons r anil)) =
      let left = expr sc ls l in
      let right = expr sc ls r in
      elim (compare_op op) [
        | some o ↦ (left >>= λ a. right >>= λ b. ok (compare o a b))
        | none ↦ syntax_error
      ]
  expr sc ls (subscript e (py_slice from upto)) = do
    v ← expr sc ls e
    hi ← bound from (expr sc ls from)
    lo ← bound upto (expr sc ls upto)
    ok (slice_expr v hi (lower_bound lo))
  expr sc ls (subscript e i) =
      let value = expr sc ls e in
      let at = expr sc ls i in
      elim (element_of sc e i) [
        | some x ↦ ok (sig x)
        | none ↦ (value >>= λ v. at >>= λ k. ok (index v k))
      ]
  expr sc ls (call (name f) args) = call_expr sc f args (exprs sc ls args)
  expr sc ls (py_list es) = reversed (exprs sc ls es) >>= λ es. ok (concat es)
  expr sc ls (if_exp c a b) = do
    c ← expr sc ls c
    a ← expr sc ls a
    b ← expr sc ls b
    ok (mux c a b)
  expr sc ls e = syntax_error

  pub exprs : Scope → Locals → Asts → List (Outcome Expr)
  exprs sc ls anil = []
  exprs sc ls (acons e es) = expr sc ls e ∷ exprs sc ls es
