-- ===== src/Lower/Block.antt =====
-- veripy/lower.py: whole blocks. `lower_comb`, `lower_always` and, for whole interfaces,
-- `_try_expand_iface` and `_resolve_iface`. The statements are those of the function's body; `regs` is
-- what `_scan_reg_locals` has found in it, `known_locals` is `_all_reg_locals`.
pub mod Discipline
pub mod Simple
mod Tests
use veripy.Base.{
  String, Bool, true, false, List, [], ◌∷◌, ◌++◌, Option, none, some, ◌&&◌, ◌||◌, if◌then◌else◌,
  same, contains, lookup, map,
}
use veripy.Base.Int.{ℤ}
use veripy.Ir.{Expr, sig, Stmts, assign, snil, scons, EdgeKind, CombBlock, SeqBlock}
use veripy.Lower.Outcome.{Outcome, ok, raised, ◌>>=◌}
use veripy.Lower.Ast.{
  Ast, Asts, attribute, anil, acons, PyStmt, PyStmts, py_assign, pnil, pcons, is_self,
  is_self_target,
}
use veripy.Lower.Scope.{Scope, Locals, target_name, under}
use veripy.Lower.Expr.{expr}
use veripy.Lower.Assign.{known}
use veripy.Lower.Stmt.{lower}
use veripy.Lower.Fsm.{lower_fsm_comb}

-- What `_signals()` of an interface gives: its signals with their kinds.
abbrev pub Bundle : Type 0
Bundle = List (String × String)

-- The interfaces of the module, and those of its submodules.
pub record Bundles : Type 0 where
  pub own : List (String × Bundle)
  pub of_sub : List (String × List (String × Bundle))

abbrev pub with_prefix : String → Option Bundle → Option (String × Bundle)
with_prefix prefix none = none
with_prefix prefix (some b) = some (prefix, b)

-- `_resolve_iface`
unfoldable pub resolve_iface : Bundles → Ast → Option (String × Bundle)
unfolding is_self
resolve_iface bs (attribute (attribute e sub_name) iface_name) =
    if is_self e
    then elim (lookup sub_name bs.of_sub) [
      | some ifaces ↦ with_prefix (under sub_name iface_name) (lookup iface_name ifaces)
      | none ↦ none
    ]
    else none
resolve_iface bs (attribute e a) = if is_self e then with_prefix a (lookup a bs.own) else none
resolve_iface bs e = none

-- One joined signal: an input of the left side is driven from the right, any other signal the other
-- way.
abbrev pub joined : String → String → String → String → String × Expr
joined l_prefix r_prefix kind x =
    if same kind "input" || same kind "inout"
    then (under l_prefix x, sig (under r_prefix x))
    else (under r_prefix x, sig (under l_prefix x))

unfoldable pub join_bundles : String → String → Bundle → Bundle → List (String × Expr)
unfolding same
join_bundles l_prefix r_prefix [] r = []
join_bundles l_prefix r_prefix ((x, kind) ∷ l) r =
    let rest = join_bundles l_prefix r_prefix l r in
    if known x r then joined l_prefix r_prefix kind x ∷ rest else rest

-- `_try_expand_iface`
unfoldable pub try_expand_iface : Bundles → Ast → Ast → Option (List (String × Expr))
unfolding resolve_iface join_bundles
try_expand_iface bs target value = elim (resolve_iface bs target) [
  | none ↦ none
  | some (l_prefix, l) ↦ elim (resolve_iface bs value) [
    | none ↦ none
    | some (r_prefix, r) ↦ some (join_bundles l_prefix r_prefix l r)
  ]
]

-- `_is_nba`
unfoldable pub is_nba : PyStmt → Bool
unfolding is_self_target
is_nba (py_assign (acons target anil) value) = is_self_target target
is_nba s = false

unfoldable pub all_nba : PyStmts → Bool
unfolding is_nba
all_nba pnil = true
all_nba (pcons s ss) = is_nba s && all_nba ss

-- A driver that `lower_comb` makes: its target, which `_target_name` may leave None, and its value.
abbrev pub Driver : Type 0
Driver = Option String × Expr

abbrev pub with_name : String × Expr → Driver
with_name (x, e) = (some x, e)

-- The drivers of a block of assignments alone, in order. No other statement gets here.
unfoldable pub drivers : Scope → Bundles → PyStmts → Outcome (List Driver)
unfolding try_expand_iface target_name expr
drivers sc bs pnil = ok []
drivers sc bs (pcons (py_assign (acons target anil) value) ss) =
    (elim (try_expand_iface bs target value) [
      | some ps ↦ ok (map with_name ps)
      | none ↦ (expr sc [] value >>= λ e. ok ((target_name sc target, e) ∷ []))
    ])
    >>= λ ds. drivers sc bs ss >>= λ rest. ok (ds ++ rest)
drivers sc bs (pcons s ss) = raised

abbrev pub is_driven : List String → Option String → Bool
is_driven always_driven none = false
is_driven always_driven (some x) = contains always_driven x

-- What a combinational block becomes: continuous assignments, of which a target may be None, and
-- blocks.
pub data Item : Type 0 where
  cont_assign : Option String → Expr → Item
  comb_block : CombBlock → Item

-- Continuous assignments to what no block drives.
unfoldable pub free_drivers : List String → List Driver → List Item
free_drivers always_driven [] = []
free_drivers always_driven ((t, e) ∷ ds) =
    let rest = free_drivers always_driven ds in
    if is_driven always_driven t then rest else cont_assign t e ∷ rest

-- Blocking assignments to what a block drives as well.
unfoldable pub block_drivers : List String → List Driver → Stmts
block_drivers always_driven [] = snil
block_drivers always_driven ((none, e) ∷ ds) = block_drivers always_driven ds
block_drivers always_driven ((some x, e) ∷ ds) =
    let rest = block_drivers always_driven ds in
    if contains always_driven x then scons (assign x e true) rest else rest

-- `if comb_stmts: result.append(CombBlock(comb_stmts))`
abbrev pub block_of : Stmts → List Item
block_of snil = []
block_of ss = comb_block (record { stmts = ss; locals = [] }) ∷ []

unfoldable pub simple_items : List String → List Driver → List Item
unfolding free_drivers block_drivers
simple_items always_driven ds =
    free_drivers always_driven ds ++ block_of (block_drivers always_driven ds)

-- The local variables that no block before has had.
unfoldable pub new_locals : Locals → Locals → Locals
new_locals known_locals [] = []
new_locals known_locals ((x, w) ∷ ls) =
    let old = new_locals known_locals ls in
    let new = (x, w) ∷ new_locals (known_locals ++ (x, w) ∷ []) ls in
    if known x known_locals then old else new

-- The state of a machine: its parameter, and the numbers of the states.
abbrev pub FsmInfo : Type 0
FsmInfo = Option (String × List (String × ℤ))

abbrev pub Items : Type 0
Items = Outcome (List Item × Locals)

-- A block with control flow.
unfoldable pub lower_complex : Scope → Locals → Locals → PyStmts → Items
unfolding lower new_locals
lower_complex sc regs known_locals body = do
  (ss, ls) ← lower sc true body regs
  let new = new_locals known_locals ls
  ok (comb_block (record { stmts = ss; locals = new }) ∷ [], known_locals ++ new)

-- `lower_comb`
unfoldable pub lower_comb :
    Scope → Bundles → FsmInfo → List String → Locals → Locals → PyStmts → Items
unfolding lower_fsm_comb all_nba drivers simple_items lower_complex
lower_comb sc bs (some (state_param, state_vals)) always_driven regs known_locals body = do
  ss ← lower_fsm_comb sc state_param state_vals body
  ok (comb_block (record { stmts = ss; locals = [] }) ∷ [], known_locals)
lower_comb sc bs none always_driven regs known_locals body =
    if all_nba body
    then (drivers sc bs body >>= λ ds. ok (simple_items always_driven ds, known_locals))
    else lower_complex sc regs known_locals body

-- `lower_always`
unfoldable pub lower_always :
    Scope → List (EdgeKind × String) → Locals → Locals → PyStmts → Outcome (SeqBlock × Locals)
unfolding lower new_locals
lower_always sc edge_list regs known_locals body = do
  (ss, ls) ← lower sc false body regs
  let new = new_locals known_locals ls
  ok (record { edges = edge_list; stmts = ss; locals = new }, known_locals ++ new)
