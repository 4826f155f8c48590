-- ===== src/Lint.antt =====
-- veripy/lint.py: the names that a combinational block assigns, and the check for latches (check 6 of
-- `lint`). The order of the messages is left out.
mod Product
pub mod Paths
mod Tests
use Prim.Native.String.{String, ◌++◌ as ◌<>◌}
use veripy.Base.{Bool, List, [], ◌∷◌, ◌++◌, Option, none, some, if◌then◌else◌, contains, not}
use veripy.Lower.Ast.{
  Ast, Asts, attribute, anil, acons, PyStmt, PyStmts, py_assign, py_if, pnil, pcons, is_self,
}

-- `_self_attr_name`
unfoldable pub self_attr_name : Ast → Option String
unfolding is_self
self_attr_name (attribute (attribute e s) a) = if is_self e then some (s <> ("." <> a)) else none
self_attr_name (attribute e a) = if is_self e then some a else none
self_attr_name e = none

-- `if name: result.add(name)`, for the targets of an assignment.
unfoldable pub target_names : Asts → List String
unfolding self_attr_name
target_names anil = []
target_names (acons t ts) =
    let rest = target_names ts in elim (self_attr_name t) [ some x ↦ x ∷ rest | none ↦ rest ]

-- `{x for x in xs if keep(x)}`
abbrev pub filter_names : (String → Bool) → List String → List String
filter_names keep [] = []
filter_names keep (x ∷ xs) = let rest = filter_names keep xs in if keep x then x ∷ rest else rest

unfoldable mutual
  unfolding target_names

  -- `_any_assigned`
  pub any_assigned : PyStmts → List String
  any_assigned pnil = []
  any_assigned (pcons s ss) = any_in s ++ any_assigned ss

  pub any_in : PyStmt → List String
  any_in (py_assign ts e) = target_names ts
  any_in (py_if c body orelse) = any_assigned body ++ any_assigned orelse
  any_in s = []

unfoldable mutual
  unfolding target_names

  -- `_always_assigned`; an `else` that is not there assigns nothing.
  pub always_assigned : PyStmts → List String
  always_assigned pnil = []
  always_assigned (pcons s ss) = always_in s ++ always_assigned ss

  pub always_in : PyStmt → List String
  always_in (py_assign ts e) = target_names ts
  always_in (py_if c body orelse) =
      let else_assigns = always_assigned orelse in
      filter_names (λ x. contains else_assigns x) (always_assigned body)
  always_in s = []

-- `any_set - always_set`: the names for which a latch is inferred.
unfoldable pub latched : PyStmts → List String
unfolding any_assigned always_assigned
latched body =
    let always_set = always_assigned body in
    filter_names (λ x. not (contains always_set x)) (any_assigned body)
