-- ===== src/Lint/Paths.antt =====
-- The latch check against the paths through a block.
use veripy.Base.{
  ◌≡◌, refl, ap, Bool, true, false, ◌&&◌, ◌||◌, String, List, [], ◌∷◌, ◌++◌, contains,
  contains-append, same, same→eq, Bool-cases, inl, inr, arith,
}
use veripy.Lint.Product.{
  product, on_some, on_every, some_path, some_path-append, some_path-product, on_some-append,
  on_every-append, on_some-product, on_every-product,
}
use veripy.Lower.Ast.{
  Ast, Asts, name, attribute, subscript, anil, acons, PyStmt, PyStmts, py_assign, aug_assign, py_if,
  py_for, py_return, other_stmt, pnil, pcons,
}
use veripy.Lint.{
  self_attr_name, target_names, filter_names, any_assigned, any_in, always_assigned, always_in,
}

-- The names that a target assigns: `self.x`, or a part of it by `self.x[i]`.
abbrev pub target_assigns : Ast → List String
target_assigns (subscript e i) = target_assigns e
target_assigns e = target_names (acons e anil)

abbrev pub targets_assign : Asts → List String
targets_assign anil = []
targets_assign (acons t ts) = target_assigns t ++ targets_assign ts

-- The names assigned on each path through statements, in whatever form: an `if` takes one branch, a
-- loop runs no time or once, and a statement of any other form may be left at its start or run
-- what stands in it.
unfoldable mutual
  unfolding target_names

  pub paths : PyStmts → List (List String)
  paths pnil = [] ∷ []
  paths (pcons s ss) = product (paths_of s) (paths ss)

  pub paths_of : PyStmt → List (List String)
  paths_of (py_assign ts e) = targets_assign ts ∷ []
  paths_of (aug_assign t op e) = target_assigns t ∷ []
  paths_of (py_if c body orelse) = paths body ++ paths orelse
  paths_of (py_for v it body) = [] ∷ paths body
  paths_of (other_stmt body) = [] ∷ paths body
  paths_of s = [] ∷ []

-- What the check overlooks: a list of targets, and a part of the name `x` as a target.
abbrev pub overlooked_target : String → Ast → Bool
overlooked_target x (name y) = false
overlooked_target x (attribute e a) = false
overlooked_target x (subscript e i) = contains (target_assigns e) x
overlooked_target x t = true

abbrev pub overlooked_targets : String → Asts → Bool
overlooked_targets x anil = false
overlooked_targets x (acons t ts) = overlooked_target x t || overlooked_targets x ts

-- The statements in which it may overlook that `x` is assigned or is not: those, an augmented
-- assignment to `x`, a loop or a statement of another form that assigns `x`, and a `return`.
unfoldable mutual
  unfolding paths on_some

  pub overlooked : String → PyStmts → Bool
  overlooked x pnil = false
  overlooked x (pcons s ss) = overlooked_in x s || overlooked x ss

  pub overlooked_in : String → PyStmt → Bool
  overlooked_in x (py_assign ts e) = overlooked_targets x ts
  overlooked_in x (aug_assign t op e) = contains (target_assigns t) x
  overlooked_in x (py_if c body orelse) = overlooked x body || overlooked x orelse
  overlooked_in x (py_for v it body) = on_some x (paths body) || overlooked x body
  overlooked_in x (other_stmt body) = on_some x (paths body) || overlooked x body
  overlooked_in x (py_return e) = true
  overlooked_in x s = false

module _ (x : String) where
  contains-filter_names :
      (keep : String → Bool) (xs : List String)
      → contains (filter_names keep xs) x ≡ contains xs x && keep x
  contains-filter_names keep [] = refl
  contains-filter_names keep (y ∷ xs) = elim (Bool-cases (same y x)) [
    | inl e ↦ ground (arith, ap keep (same→eq y x e), contains-filter_names keep xs)
    | inr e ↦ ground (arith, contains-filter_names keep xs)
  ]

  mutual
    unfolding paths

    some_path-paths : (ss : PyStmts) → some_path (paths ss) ≡ true
    some_path-paths pnil = refl
    some_path-paths (pcons s ss) =
        rw (some_path-product (paths_of s) (paths ss), some_path-paths_of s, some_path-paths ss)
          refl

    some_path-paths_of : (s : PyStmt) → some_path (paths_of s) ≡ true
    some_path-paths_of (py_if c body orelse) =
        rw (some_path-append (paths body) (paths orelse), some_path-paths body) refl
    some_path-paths_of (py_assign ts e) = refl
    some_path-paths_of (aug_assign t op e) = refl
    some_path-paths_of (py_for v it body) = refl
    some_path-paths_of (other_stmt body) = refl
    some_path-paths_of s = refl

  contains-target_names :
      (ts : Asts)
      → overlooked_targets x ts ≡ false
      → contains (target_names ts) x ≡ contains (targets_assign ts) x
  unfolding target_names self_attr_name
  contains-target_names anil h = refl
  contains-target_names (acons (name y) ts) h = contains-target_names ts h
  contains-target_names (acons (attribute e a) ts) h =
      one (attribute e a) (contains-target_names ts h)
    where
      one :
          (t : Ast)
          → contains (target_names ts) x ≡ contains (targets_assign ts) x
          → contains (target_names (acons t ts)) x
            ≡ contains (target_names (acons t anil) ++ targets_assign ts) x
      one t k = ground arith
  contains-target_names (acons (subscript e i) ts) h =
      rw (contains-append (target_assigns e) (targets_assign ts) x)
        (ground (arith, contains-target_names ts))
  contains-target_names (acons t ts) h = cc

  mutual
    unfolding paths any_assigned on_some overlooked

    on_some-any :
        (ss : PyStmts)
        → overlooked x ss ≡ false
        → contains (any_assigned ss) x ≡ on_some x (paths ss)
    on_some-any pnil h = refl
    on_some-any (pcons s ss) h =
        rw
          (
            contains-append (any_in s) (any_assigned ss) x,
            on_some-product x (paths_of s) (paths ss),
            some_path-paths ss,
            some_path-paths_of s,
            on_some-any_in s (ground arith),
            on_some-any ss (ground arith),
          )
          (ground arith)

    on_some-any_in :
        (s : PyStmt) → overlooked_in x s ≡ false → contains (any_in s) x ≡ on_some x (paths_of s)
    on_some-any_in (py_assign ts e) h = rw (contains-target_names ts h) (ground arith)
    on_some-any_in (aug_assign t op e) h = rw h refl
    on_some-any_in (py_if c body orelse) h =
        rw
          (
            contains-append (any_assigned body) (any_assigned orelse) x,
            on_some-append x (paths body) (paths orelse),
            on_some-any body (ground arith),
            on_some-any orelse (ground arith),
          )
          refl
    on_some-any_in (py_for v it body) h = ground arith
    on_some-any_in (other_stmt body) h = ground arith
    on_some-any_in s h = refl

  mutual
    unfolding paths always_assigned on_every overlooked

    on_every-always :
        (ss : PyStmts)
        → overlooked x ss ≡ false
        → contains (always_assigned ss) x ≡ on_every x (paths ss)
    on_every-always pnil h = refl
    on_every-always (pcons s ss) h =
        rw
          (
            contains-append (always_in s) (always_assigned ss) x,
            on_every-product x (paths_of s) (paths ss),
            on_every-always_in s (ground arith),
            on_every-always ss (ground arith),
          )
          refl

    on_every-always_in :
        (s : PyStmt)
        → overlooked_in x s ≡ false
        → contains (always_in s) x ≡ on_every x (paths_of s)
    on_every-always_in (py_assign ts e) h = rw (contains-target_names ts h) (ground arith)
    on_every-always_in (aug_assign t op e) h = rw h refl
    on_every-always_in (py_if c body orelse) h =
        rw
          (
            contains-filter_names (contains (always_assigned orelse)) (always_assigned body),
            on_every-append x (paths body) (paths orelse),
            on_every-always body (ground arith),
            on_every-always orelse (ground arith),
          )
          refl
    on_every-always_in s h = refl
