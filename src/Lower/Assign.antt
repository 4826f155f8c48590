-- ===== src/Lower/Assign.antt =====
-- veripy/lower.py: the statements of `_stmt` that hold no statements: assignments, writes of
-- memories and calls. Any other statement is dropped, which `[]` of the source says.
use veripy.Base.{
  String, Bool, true, false, List, [], ◌∷◌, ◌++◌, none, some, ◌&&◌, if◌then◌else◌, same, contains,
  lookup,
}
use veripy.Ir.{sig, bin_op, Stmt, assign, slice_assign, mem_write, snil, scons}
use veripy.Lower.Outcome.{Outcome, ok, outside, ◌>>=◌}
use veripy.Lower.Ast.{
  PyBinary, Ast, Asts, name, attribute, subscript, py_slice, call, anil, acons, is_self,
  is_self_target,
}
use veripy.Lower.Scope.{signal, object, Scope, Locals, target_name, resolve_closure}
use veripy.Lower.Expr.{expr, binary_op, port_element, bound, lower_bound}
use veripy.Lower.Loop.{Lowered}

abbrev pub known {ℓ} : {A : Type ℓ} → String → List (String × A) → Bool
known x m = elim (lookup x m) [ some _ ↦ true | none ↦ false ]

abbrev pub emit : Locals → Outcome Stmt → Lowered
emit ls o = o >>= λ s. ok (scons s snil, ls)

-- `Register(...)`, the declaration of a local variable.
unfoldable pub is_register : Ast → Bool
unfolding same
is_register (call (name f) args) = same f "Register"
is_register e = false

abbrev pub assign_value : Scope → Locals → String → Ast → Bool → Outcome Stmt
assign_value sc ls x value blocking = expr sc ls value >>= λ v. ok (assign x v blocking)

-- An assignment to a bare name: a known local variable, a signal, or a new local variable, which is
-- known from its own right side on.
unfoldable pub assign_name : Scope → Locals → Bool → String → Ast → Lowered
unfolding is_register expr
assign_name sc ls blocking x value =
    if known x ls
    then if is_register value then ok (snil, ls) else emit ls (assign_value sc ls x value true)
    else if known x sc.signals
    then emit ls (assign_value sc ls x value blocking)
    else (let wider = ls ++ (x, sc.infer_rhs_width value) ∷ [] in
        emit wider (assign_value sc wider x value true))

-- A slice target needs its upper bound.
unfoldable pub slice_target : Scope → Locals → String → Ast → Ast → Ast → Bool → Outcome Stmt
unfolding expr
slice_target sc ls x from upto value blocking = do
  hi ← bound from (expr sc ls from)
  lo ← bound upto (expr sc ls upto)
  v ← expr sc ls value
  elim hi [ some h ↦ ok (slice_assign x h (lower_bound lo) v blocking) | none ↦ outside ]

unfoldable pub index_target : Scope → Locals → String → Ast → Ast → Bool → Outcome Stmt
unfolding expr slice_target
index_target sc ls x (py_slice from upto) value blocking =
    slice_target sc ls x from upto value blocking
index_target sc ls x i value blocking = do
  hi ← expr sc ls i
  lo ← expr sc ls i
  v ← expr sc ls value
  ok (slice_assign x hi lo v blocking)

-- `self.x[...] = value`: an element of a port array, a slice or a bit.
unfoldable pub assign_subscript : Scope → Locals → Bool → Ast → Ast → Ast → Outcome Stmt
unfolding target_name port_element index_target expr
assign_subscript sc ls blocking e i value = elim (target_name sc e) [
  | none ↦ outside
  | some x ↦ elim (port_element sc x i) [
    | some p ↦ assign_value sc ls p value blocking
    | none ↦ index_target sc ls x i value blocking
  ]
]

abbrev pub assign_signal : Scope → Locals → Bool → Ast → Ast → Lowered
assign_signal sc ls blocking target value = elim (target_name sc target) [
  | some x ↦ emit ls (assign_value sc ls x value blocking)
  | none ↦ ok (snil, ls)
]

unfoldable pub assign_stmt : Scope → Locals → Bool → Asts → Ast → Lowered
unfolding assign_name assign_subscript is_self_target target_name expr
assign_stmt sc ls blocking (acons (name x) anil) value = assign_name sc ls blocking x value
assign_stmt sc ls blocking (acons (subscript e i) anil) value =
    if is_self_target e then emit ls (assign_subscript sc ls blocking e i value) else ok (snil, ls)
assign_stmt sc ls blocking (acons target anil) value =
    if is_self_target target then assign_signal sc ls blocking target value else ok (snil, ls)
assign_stmt sc ls blocking targets value = ok (snil, ls)

-- `self.x += value`. A target that is a local variable or a subscript is dropped.
unfoldable pub aug_stmt : Scope → Locals → Bool → Ast → PyBinary → Ast → Lowered
unfolding target_name binary_op expr is_self_target
aug_stmt sc ls blocking target op value =
    if is_self_target target
    then elim (target_name sc target) [
      | none ↦ ok (snil, ls)
      | some x ↦ elim (binary_op op) [
        | none ↦ ok (snil, ls)
        | some o ↦ emit ls (expr sc ls value >>= λ v. ok (assign x (bin_op o (sig x) v) blocking))
      ]
    ]
    else ok (snil, ls)

-- `self.mem.write(addr, data)` and `signal._assign(value)`.
unfoldable pub call_stmt : Scope → Locals → Bool → Ast → Asts → Lowered
unfolding same is_self expr resolve_closure
call_stmt sc ls blocking (attribute (attribute e m) f) (acons addr (acons word anil)) =
    if same f "write" && (is_self e && contains sc.mems m)
    then emit ls (expr sc ls addr >>= λ a. expr sc ls word >>= λ v. ok (mem_write m a v blocking))
    else ok (snil, ls)
call_stmt sc ls blocking (attribute (name x) f) (acons value anil) =
    if same f "_assign"
    then elim (resolve_closure sc x) [
      | some (object o) ↦ elim o.value [
        | signal s ↦ emit ls (assign_value sc ls s value blocking)
        | _ ↦ ok (snil, ls)
      ]
      | _ ↦ ok (snil, ls)
    ]
    else ok (snil, ls)
call_stmt sc ls blocking f args = ok (snil, ls)

unfoldable pub expr_stmt_of : Scope → Locals → Bool → Ast → Lowered
unfolding call_stmt
expr_stmt_of sc ls blocking (call f args) = call_stmt sc ls blocking f args
expr_stmt_of sc ls blocking e = ok (snil, ls)
