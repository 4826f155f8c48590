-- ===== src/Lower/Scope.antt =====
-- veripy/lower.py: what names stand for (`_resolve_name`, `_resolve_closure`, `_target_name`), and
-- the evaluation of constants (`_const_eval`).
use Prim.Native.Nat.{ℕ, zero, suc, ◌-◌, ◌/◌}
use Prim.Native.String.{String, ◌++◌}
use veripy.Base.{
  List, [], ◌∷◌, Option, none, some, ◌&&◌, ◌||◌, ltb, length, if◌then◌else◌, contains, lookup,
}
use veripy.Base.Int.{ℤ, pos, negsuc, ◌+ℤ◌, ◌-ℤ◌, ◌*ℤ◌, of_bool}
use veripy.Lower.Outcome.{Outcome, ok, syntax_error, raised, outside, ◌>>=◌}
use veripy.Lower.Ast.{
  PyBinary, add, sub, mult, floor_div, usub, Ast, number, boolean, float_number, name, attribute,
  py_binary, py_unary, is_self,
}

-- A value of Python: an integer, a signal, a float, or anything else.
pub data Plain : Type 0 where
  integer : ℤ → Plain
  signal : String → Plain
  floating opaque : Plain

-- An object with the attributes that `getattr` finds, or a list of objects.
pub record Object : Type 0 where
  pub value : Plain
  pub fields : List (String × Plain)

pub data Value : Type 0 where
  object : Object → Value
  sequence : List Object → Value

-- The fields of `_Lowerer`, with what the function being lowered closes over and its globals. The
-- closure holds no `Parameter` object: a parameter of a module is one of `params`.
pub record Scope : Type 0 where
  pub signals : List (String × ℕ)
  pub mems : List String
  pub submodules : List String
  pub interfaces : List String
  pub params : List String
  pub attributes : List (String × Value)
  pub port_arrays : List (String × List String)
  pub freevars : List (String × Value)
  pub globals : List (String × Value)
  pub infer_rhs_width : Ast → ℕ

-- `_reg_locals`: the local variables and their widths.
abbrev pub Locals : Type 0
Locals = List (String × ℕ)

pub data Resolved : Type 0 where
  parameter : String → Value → Resolved
  constant : ℤ → Resolved
  float_constant : Resolved
  plain_object : Value → Resolved

-- `if isinstance(val, (int, float)): return ('const', val)`, else `('obj', val)`
unfoldable pub classify : Value → Resolved
classify (object o) = elim o.value [
  | integer z ↦ constant z
  | floating ↦ float_constant
  | _ ↦ plain_object (object o)
]
classify (sequence os) = plain_object (sequence os)

-- `_resolve_name`, from what the closure and the globals have under the name.
unfoldable pub resolve_found : Scope → String → Option Value → Option Value → Outcome Resolved
unfolding classify
resolve_found sc x (some v) g = if contains sc.params x then ok (parameter x v) else ok (classify v)
resolve_found sc x none (some v) = ok (classify v)
resolve_found sc x none none = syntax_error

unfoldable pub resolve_name : Scope → String → Outcome Resolved
unfolding resolve_found
resolve_name sc x = resolve_found sc x (lookup x sc.freevars) (lookup x sc.globals)

-- `_resolve_closure`
unfoldable pub resolve_closure : Scope → String → Option Value
resolve_closure sc x = elim (lookup x sc.freevars) [ some v ↦ some v | none ↦ lookup x sc.globals ]

-- `f'{a}_{b}'`
abbrev pub under : String → String → String
under a b = a ++ ("_" ++ b)

-- `_target_name`; a subscript has no name.
unfoldable pub target_name : Scope → Ast → Option String
unfolding is_self
target_name sc (attribute (attribute (attribute e m) iface) a) =
    if is_self e && contains sc.submodules m then some (under m (under iface a)) else none
target_name sc (attribute (attribute e m) a) =
    if is_self e && (contains sc.submodules m || contains sc.interfaces m)
    then some (under m a)
    else none
target_name sc (attribute e a) = if is_self e then some a else none
target_name sc e = none

-- `//` rounds down.
unfoldable pub floor_div_ℤ : ℤ → ℤ → Outcome ℤ
floor_div_ℤ a (pos zero) = raised
floor_div_ℤ (pos a) (pos (suc b)) = ok (pos (a / suc b))
floor_div_ℤ (negsuc a) (pos (suc b)) = ok (negsuc (a / suc b))
floor_div_ℤ (pos zero) (negsuc b) = ok (pos zero)
floor_div_ℤ (pos (suc a)) (negsuc b) = ok (negsuc (a / suc b))
floor_div_ℤ (negsuc a) (negsuc b) = ok (pos (suc a / suc b))

-- The table `ops`, the same in four functions; `none` where it has no entry.
unfoldable pub fold_op : PyBinary → Option (ℤ → ℤ → Outcome ℤ)
unfolding floor_div_ℤ
fold_op add = some (λ a b. ok (a +ℤ b))
fold_op sub = some (λ a b. ok (a -ℤ b))
fold_op mult = some (λ a b. ok (a *ℤ b))
fold_op floor_div = some floor_div_ℤ
fold_op op = none

-- `fn = ops.get(type(node.op))`, applied; without an entry the node is no constant.
abbrev pub apply_or : Option (ℤ → ℤ → Outcome ℤ) → ℤ → ℤ → Outcome ℤ
apply_or (some f) a b = f a b
apply_or none a b = syntax_error

unfoldable pub apply_fold : PyBinary → ℤ → ℤ → Outcome ℤ
unfolding fold_op
apply_fold op a b = apply_or (fold_op op) a b

-- What a resolved name is worth as a constant.
unfoldable pub constant_value : Resolved → Outcome ℤ
constant_value (parameter x (object o)) = elim o.value [ integer z ↦ ok z | _ ↦ outside ]
constant_value (parameter x (sequence os)) = outside
constant_value (constant z) = ok z
constant_value float_constant = outside
constant_value (plain_object v) = syntax_error

-- `_const_eval`
unfoldable pub const_eval : Scope → Ast → Outcome ℤ
unfolding resolve_name constant_value apply_fold
const_eval sc (number z) = ok z
const_eval sc (boolean b) = ok (of_bool b)
const_eval sc float_number = outside
const_eval sc (name x) = resolve_name sc x >>= constant_value
const_eval sc (py_binary op l r) = do a ← const_eval sc l; b ← const_eval sc r; apply_fold op a b
const_eval sc (py_unary usub e) = do a ← const_eval sc e; ok (pos 0 -ℤ a)
const_eval sc e = syntax_error

-- `xs[i]`, from the end when the index is negative.
abbrev pub get_elem? {ℓ} : {A : Type ℓ} → List A → ℕ → Option A
get_elem? [] k = none
get_elem? (x ∷ xs) zero = some x
get_elem? (x ∷ xs) (suc k) = get_elem? xs k

abbrev pub py_get {ℓ} : {A : Type ℓ} → List A → ℤ → Option A
py_get xs (pos k) = get_elem? xs k
py_get xs (negsuc k) = if ltb k (length xs) then get_elem? xs (length xs - k - 1) else none
