-- ===== src/Lower/Block/Tests.antt =====
-- Blocks of a small module, and the theorems about blocks at concrete inputs.
use veripy.Base.{◌≡◌, refl, String, true, false, [], ◌∷◌, List, some, none}
use veripy.Base.Int.{pos}
use veripy.Ir.{posedge, Expr, const, sig, SeqBlock, assign, slice_assign, snil, scons}
use veripy.Lower.Outcome.{ok}
use veripy.Lower.Ast.{
  Ast, number, name, attribute, subscript, acons, anil, PyStmts, py_assign, pnil, pcons,
  is_self_target,
}
use veripy.Lower.Scope.{Scope, target_name}
use veripy.Lower.Expr.{expr}
use veripy.Lower.Stmt.{lower}
use veripy.Lower.Discipline.{AllHardware, Extends}
use veripy.Lower.Block.{
  Bundles, cont_assign, try_expand_iface, all_nba, drivers, simple_items, lower_comb, lower_always,
}
use veripy.Lower.Block.Discipline.{lower_always-Hardware}
use veripy.Lower.Block.Simple.{cont_assigns, assigns, lower_comb-lower, lower_comb-bit}

-- A module with a signal and a submodule.
abbrev scope : Scope
scope = record {
  signals = ("state", 2) ∷ ("x", 8) ∷ [];
  mems = [];
  submodules = "cpu" ∷ [];
  interfaces = "bus" ∷ [];
  params = [];
  attributes = [];
  port_arrays = [];
  freevars = [];
  globals = [];
  infer_rhs_width = λ e. 32;
}

abbrev bundles : Bundles
bundles = record {
  own = ("bus", ("addr", "output") ∷ ("data", "input") ∷ []) ∷ [];
  of_sub = ("cpu", ("port", ("addr", "output") ∷ ("data", "input") ∷ []) ∷ []) ∷ [];
}

abbrev self_x : String → Ast
self_x x = attribute (name "self") x

abbrev put : Ast → Ast → PyStmts → PyStmts
put target value rest = pcons (py_assign (acons target anil) value) rest

-- self.cpu.port = self.bus
try_expand_iface-cpu :
    try_expand_iface bundles (attribute (self_x "cpu") "port") (self_x "bus")
    ≡ some (("bus_addr", sig "cpu_port_addr") ∷ ("cpu_port_data", sig "bus_data") ∷ [])
unfolding try_expand_iface
try_expand_iface-cpu = refl

-- t = self.state; self.x = t
abbrev with_local : PyStmts
with_local = put (name "t") (self_x "state") (put (self_x "x") (name "t") pnil)

abbrev seq : SeqBlock
seq = record {
  edges = (posedge, "clk") ∷ [];
  stmts = scons (assign "t" (sig "state") true) (scons (assign "x" (sig "t") false) snil);
  locals = ("t", 32) ∷ [];
}

lower_always-local :
    lower_always scope ((posedge, "clk") ∷ []) [] [] with_local ≡ ok (seq, ("t", 32) ∷ [])
unfolding lower_always
lower_always-local = refl

lower_always-Hardware_example :
    AllHardware false (("t", 32) ∷ []) seq.stmts
    × Extends [] (("t", 32) ∷ [])
    × Extends [] (("t", 32) ∷ [])
lower_always-Hardware_example =
    lower_always-Hardware scope ((posedge, "clk") ∷ []) [] [] with_local lower_always-local

-- self.x = self.state; self.state = 1
abbrev plain : PyStmts
plain = put (self_x "x") (self_x "state") (put (self_x "state") (number (pos 1)) pnil)

abbrev pairs : List (String × Expr)
pairs = ("x", sig "state") ∷ ("state", const (pos 1)) ∷ []

lower_comb-lower_example :
    (lower_comb scope bundles none ("y" ∷ []) [] [] plain ≡ ok (cont_assigns pairs, []))
    × (lower scope true plain [] ≡ ok (assigns pairs, []))
unfolding drivers all_nba
lower_comb-lower_example =
    lower_comb-lower scope bundles ("y" ∷ []) [] [] plain pairs refl (refl, (refl, tt)) refl
      (refl, (refl, tt))

-- self.x[3] = 1; self.state = 1
lower_comb-bit_example :
    (lower_comb scope bundles none [] [] [] (
        put
          (subscript (self_x "x") (number (pos 3)))
          (number (pos 1))
          (put (self_x "state") (number (pos 1)) pnil))
      ≡ ok (
        cont_assign none (const (pos 1)) ∷ simple_items [] ((some "state", const (pos 1)) ∷ []),
        [],
      ))
    × (lower scope true (put (subscript (self_x "x") (number (pos 3))) (number (pos 1)) pnil) []
        ≡ ok (
          scons (slice_assign "x" (const (pos 3)) (const (pos 3)) (const (pos 1)) true) snil,
          [],
        ))
unfolding drivers all_nba target_name expr is_self_target
lower_comb-bit_example =
    lower_comb-bit scope bundles [] [] [] (self_x "x") (number (pos 1)) (pos 3) "x" (const (pos 1))
      (put (self_x "state") (number (pos 1)) pnil) ((some "state", const (pos 1)) ∷ []) refl refl
      refl refl refl refl
