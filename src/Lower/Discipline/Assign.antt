-- ===== src/Lower/Discipline/Assign.antt =====
-- Assignments, writes of memories and calls.
use veripy.Base.{
  contains, ◌&&◌, refl, String, Bool, true, Option, none, some, [], ◌∷◌, ◌++◌, inl, inr,
  if◌then◌else◌, same,
}
use veripy.Ir.{Expr, BinaryOp, Stmt, assign, slice_assign, snil, scons, mem_write, bin_op, sig}
use veripy.Lower.Outcome.{Outcome, ok, outside, ◌>>=◌}
use veripy.Lower.Ast.{
  PyBinary, Ast, Asts, name, attribute, subscript, py_slice, call, anil, acons, is_self,
  is_self_target,
}
use veripy.Lower.Scope.{
  Value, Plain, object, sequence, integer, signal, floating, opaque, Scope, Locals, target_name,
  resolve_closure,
}
use veripy.Lower.Expr.{expr, binary_op, bound, lower_bound, port_element}
use veripy.Lower.Assign.{
  known, emit, is_register, assign_value, assign_name, slice_target, index_target, assign_subscript,
  assign_signal, assign_stmt, aug_stmt, call_stmt, expr_stmt_of,
}
use veripy.Lower.Discipline.{
  known-append, known-append_self, Ensures-if, Ensures-then, Timed, Hardware, Extends-refl, Ensures,
  ensures, Ensures-ok, Ensures-bind, Ensures-any, Anything, Grown, Grown-nothing, Grown-Extends,
}

module _ (sc : Scope) (b : Bool) where
  emit-Grown :
      (ls : Locals) (o : Outcome Stmt)
      → Ensures (Hardware b ls) o
      → Ensures (Grown b ls) (emit ls o)
  emit-Grown ls o h = Ensures-bind (Hardware b ls) o _ h λ s k.
      Ensures-ok (scons s snil, ls) (record { extends = Extends-refl ls; hardware = (k, tt) })

  assign_value-Hardware :
      (ls : Locals) (x : String) (value : Ast) (flag : Bool)
      → Timed b ls x flag
      → Ensures (Hardware b ls) (assign_value sc ls x value flag)
  assign_value-Hardware ls x value flag h =
      Ensures-bind Anything (expr sc ls value) _ (Ensures-any (expr sc ls value))
        λ v _. Ensures-ok (assign x v flag) h

  assign_name-Grown :
      (ls : Locals) (x : String) (value : Ast) → Ensures (Grown b ls) (assign_name sc ls b x value)
  unfolding assign_name
  assign_name-Grown ls x value =
      Ensures-if (known x ls) _ _
        (λ k.
          Ensures-if (is_register value) _ _ (λ _. Grown-nothing b ls)
            λ _. emit-Grown ls _ (assign_value-Hardware ls x value true (inr (refl, k))))
        λ _.
          Ensures-if (known x sc.signals) _ _
            (λ _. emit-Grown ls _ (assign_value-Hardware ls x value b (inl refl)))
            λ _.
              let wider = ls ++ (x, sc.infer_rhs_width value) ∷ [] in
              Grown-Extends b _ (record { keeps = λ y h. known-append y ls _ h })
                (emit-Grown wider _ (
                  assign_value-Hardware wider x value true
                    (inr (refl, known-append_self x (sc.infer_rhs_width value) ls))))

  slice_target-Hardware :
      (ls : Locals) (x : String) (from upto value : Ast)
      → Ensures (Hardware b ls) (slice_target sc ls x from upto value b)
  unfolding slice_target
  slice_target-Hardware ls x from upto value = Ensures-then (bound from (expr sc ls from)) _ λ hi.
      Ensures-then (bound upto (expr sc ls upto)) _
        λ lo. Ensures-then (expr sc ls value) _ λ v. made hi lo v
    where
      made :
          (hi lo : Option Expr) (v : Expr)
          → Ensures
              (Hardware b ls)
              (elim hi [ some h ↦ ok (slice_assign x h (lower_bound lo) v b) | none ↦ outside ])
      made none lo v = ensures λ a e. cc
      made (some h) lo v = Ensures-ok (slice_assign x h (lower_bound lo) v b) refl

  index_target-Hardware :
      (ls : Locals) (x : String) (i value : Ast)
      → Ensures (Hardware b ls) (index_target sc ls x i value b)
  unfolding index_target
  index_target-Hardware ls x (py_slice from upto) value = slice_target-Hardware ls x from upto value
  index_target-Hardware ls x i value = Ensures-then (expr sc ls i) _ λ hi.
      Ensures-then (expr sc ls i) _
        λ lo. Ensures-then (expr sc ls value) _ λ v. Ensures-ok (slice_assign x hi lo v b) refl

  assign_subscript-Hardware :
      (ls : Locals) (e i value : Ast) → Ensures (Hardware b ls) (assign_subscript sc ls b e i value)
  unfolding assign_subscript
  assign_subscript-Hardware ls e i value = at_target (target_name sc e)
    where
      at_element :
          (x : String) (p : Option String)
          → Ensures (Hardware b ls) (elim p [
            | some p ↦ assign_value sc ls p value b
            | none ↦ index_target sc ls x i value b
          ])
      at_element x none = index_target-Hardware ls x i value
      at_element x (some p) = assign_value-Hardware ls p value b (inl refl)

      at_target :
          (t : Option String)
          → Ensures (Hardware b ls) (elim t [
            | none ↦ outside
            | some x ↦ elim (port_element sc x i) [
              | some p ↦ assign_value sc ls p value b
              | none ↦ index_target sc ls x i value b
            ]
          ])
      at_target none = ensures λ a e. cc
      at_target (some x) = at_element x (port_element sc x i)

  assign_signal-Grown :
      (ls : Locals) (target value : Ast) → Ensures (Grown b ls) (assign_signal sc ls b target value)
  assign_signal-Grown ls target value = named (target_name sc target)
    where
      named :
          (t : Option String)
          → Ensures
              (Grown b ls)
              (elim t [ some x ↦ emit ls (assign_value sc ls x value b) | none ↦ ok (snil, ls) ])
      named none = Grown-nothing b ls
      named (some x) = emit-Grown ls _ (assign_value-Hardware ls x value b (inl refl))

  to_self :
      (ls : Locals) (target value : Ast)
      → Ensures
          (Grown b ls)
          (if is_self_target target then assign_signal sc ls b target value else ok (snil, ls))
  to_self ls target value =
      Ensures-if (is_self_target target) (assign_signal sc ls b target value) (ok (snil, ls))
        (λ _. assign_signal-Grown ls target value) (λ _. Grown-nothing b ls)

  pub assign_stmt-Grown :
      (ls : Locals) (targets : Asts) (value : Ast)
      → Ensures (Grown b ls) (assign_stmt sc ls b targets value)
  unfolding assign_stmt
  assign_stmt-Grown ls (acons (name x) anil) value = assign_name-Grown ls x value
  assign_stmt-Grown ls (acons (subscript e i) anil) value =
      Ensures-if (is_self_target e) _ _
        (λ _. emit-Grown ls _ (assign_subscript-Hardware ls e i value)) (λ _. Grown-nothing b ls)
  assign_stmt-Grown ls (acons target anil) value = to_self ls target value
  assign_stmt-Grown ls targets value = Grown-nothing b ls

  aug_target-Grown :
      (ls : Locals) (t : Option String) (op : Option BinaryOp) (value : Ast)
      → Ensures (Grown b ls) (elim t [
        | none ↦ ok (snil, ls)
        | some x ↦ elim op [
          | none ↦ ok (snil, ls)
          | some o ↦ emit ls (expr sc ls value >>= λ v. ok (assign x (bin_op o (sig x) v) b))
        ]
      ])
  aug_target-Grown ls none op value = Grown-nothing b ls
  aug_target-Grown ls (some x) none value = Grown-nothing b ls
  aug_target-Grown ls (some x) (some o) value = emit-Grown ls _ (
      Ensures-then (expr sc ls value) _
        λ v. Ensures-ok (assign x (bin_op o (sig x) v) b) (inl refl))

  pub aug_stmt-Grown :
      (ls : Locals) (target : Ast) (op : PyBinary) (value : Ast)
      → Ensures (Grown b ls) (aug_stmt sc ls b target op value)
  unfolding aug_stmt
  aug_stmt-Grown ls target op value =
      Ensures-if (is_self_target target) _ _
        (λ _. aug_target-Grown ls (target_name sc target) (binary_op op) value)
        (λ _. Grown-nothing b ls)

  resolved-Grown :
      (ls : Locals) (o : Option Value) (value : Ast)
      → Ensures (Grown b ls) (elim o [
        | some (object o) ↦ elim o.value [
          | signal s ↦ emit ls (assign_value sc ls s value b)
          | _ ↦ ok (snil, ls)
        ]
        | _ ↦ ok (snil, ls)
      ])
  resolved-Grown ls none value = Grown-nothing b ls
  resolved-Grown ls (some (sequence os)) value = Grown-nothing b ls
  resolved-Grown ls (some (object o)) value = plain o.value
    where
      plain :
          (v : Plain)
          → Ensures
              (Grown b ls)
              (elim v [ signal s ↦ emit ls (assign_value sc ls s value b) | _ ↦ ok (snil, ls) ])
      plain (signal s) = emit-Grown ls _ (assign_value-Hardware ls s value b (inl refl))
      plain (integer z) = Grown-nothing b ls
      plain floating = Grown-nothing b ls
      plain opaque = Grown-nothing b ls

  call_stmt-Grown :
      (ls : Locals) (f : Ast) (args : Asts) → Ensures (Grown b ls) (call_stmt sc ls b f args)
  unfolding call_stmt
  call_stmt-Grown ls (attribute (attribute e m) f) (acons addr (acons word anil)) =
      Ensures-if (same f "write" && (is_self e && contains sc.mems m)) _ _
        (λ _. emit-Grown ls _ (
          Ensures-then (expr sc ls addr) _
            λ a. Ensures-then (expr sc ls word) _ λ v. Ensures-ok (mem_write m a v b) refl))
        (λ _. Grown-nothing b ls)
  call_stmt-Grown ls (attribute (name x) f) (acons value anil) =
      Ensures-if (same f "_assign") _ _ (λ _. resolved-Grown ls (resolve_closure sc x) value)
        (λ _. Grown-nothing b ls)
  call_stmt-Grown ls f args = Grown-nothing b ls

  pub expr_stmt-Grown : (ls : Locals) (e : Ast) → Ensures (Grown b ls) (expr_stmt_of sc ls b e)
  unfolding expr_stmt_of
  expr_stmt-Grown ls (call f args) = call_stmt-Grown ls f args
  expr_stmt-Grown ls e = Grown-nothing b ls
