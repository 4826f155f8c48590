-- ===== src/Dce/Subst.antt =====
-- `_subst_expr`, `_subst_stmt` and `_flatten_stmts` of veripy/dce.py.
use veripy.Base.{String, List, Option, none, some, if◌then◌else◌, ◌>>=◌, lookup}
use veripy.Base.Int.{ℤ, truthy}
use veripy.Ir.{
  Expr, Exprs, const, param, sig, bin_op, unary_op, compare, bool_op, mux, slice, slice_lo, index,
  concat, clz, ctz, popcount, sext, enil, econs, Stmt, Stmts, Cases, assign, slice_assign, if_else,
  case, mem_write, delay, display, finish, repeat, for_loop, disable, group, snil, scons, cnil,
  ccons, extend,
}
use veripy.Dce.Fold.{try_fold}

-- `const_map.get(name, node)`: the dictionary holds the values of its constants.
abbrev pub ConstMap : Type 0
ConstMap = List (String × ℤ)

unfoldable pub subst_sig : ConstMap → String → Expr
subst_sig cm x = elim (lookup x cm) [ none ↦ sig x | some z ↦ const z ]

unfoldable mutual
  unfolding subst_sig

  pub subst_expr : ConstMap → Expr → Option Expr
  subst_expr cm (sig x) = some (subst_sig cm x)
  subst_expr cm (const z) = some (const z)
  subst_expr cm (bin_op op l r) = do
    l ← subst_expr cm l
    r ← subst_expr cm r
    try_fold (bin_op op l r)
  subst_expr cm (unary_op op e) = do e ← subst_expr cm e; try_fold (unary_op op e)
  subst_expr cm (compare op l r) = do
    l ← subst_expr cm l
    r ← subst_expr cm r
    try_fold (compare op l r)
  subst_expr cm (bool_op op es) = do es ← subst_exprs cm es; try_fold (bool_op op es)
  subst_expr cm (mux s a b) = do
    s ← subst_expr cm s
    a ← subst_expr cm a
    b ← subst_expr cm b
    try_fold (mux s a b)
  subst_expr cm (slice e hi lo) = do
    e ← subst_expr cm e
    hi ← subst_expr cm hi
    lo ← subst_expr cm lo
    some (slice e hi lo)
  subst_expr cm (slice_lo e lo) = do
    e ← subst_expr cm e
    lo ← subst_expr cm lo
    some (slice_lo e lo)
  subst_expr cm (index e i) = do e ← subst_expr cm e; i ← subst_expr cm i; some (index e i)
  subst_expr cm (concat es) = do es ← subst_exprs cm es; some (concat es)
  subst_expr cm (clz e w) = do e ← subst_expr cm e; some (clz e w)
  subst_expr cm (ctz e w) = do e ← subst_expr cm e; some (ctz e w)
  subst_expr cm (popcount e w) = do e ← subst_expr cm e; some (popcount e w)
  subst_expr cm (sext e s d) = do e ← subst_expr cm e; some (sext e s d)
  subst_expr cm (param x) = some (param x)

  pub subst_exprs : ConstMap → Exprs → Option Exprs
  subst_exprs cm enil = some enil
  subst_exprs cm (econs e es) = do e ← subst_expr cm e; es ← subst_exprs cm es; some (econs e es)

-- A constant condition leaves the list of the branch taken in place of the statement.
abbrev pub subst_if : Expr → Option Stmts → Option Stmts → Option Stmt
subst_if (const z) a b =
    if truthy z then (a >>= λ a. some (group a)) else (b >>= λ b. some (group b))
subst_if c a b = do a ← a; b ← b; some (if_else c a b)

unfoldable mutual
  unfolding subst_expr

  pub subst_stmt : ConstMap → Stmt → Option Stmt
  subst_stmt cm (assign k e blocking) = do e ← subst_expr cm e; some (assign k e blocking)
  subst_stmt cm (slice_assign k hi lo e blocking) = do
    hi ← subst_expr cm hi
    lo ← subst_expr cm lo
    e ← subst_expr cm e
    some (slice_assign k hi lo e blocking)
  subst_stmt cm (mem_write k addr e blocking) = do
    addr ← subst_expr cm addr
    e ← subst_expr cm e
    some (mem_write k addr e blocking)
  subst_stmt cm (if_else c yes_body no_body) = do
    c ← subst_expr cm c
    subst_if c (subst_stmts cm yes_body) (subst_stmts cm no_body)
  subst_stmt cm (case s cs default) = do
    s ← subst_expr cm s
    cs ← subst_cases cm cs
    default ← subst_stmts cm default
    some (case s cs default)
  subst_stmt cm (delay e) = some (delay e)
  subst_stmt cm (display fmt es) = some (display fmt es)
  subst_stmt cm finish = some finish
  subst_stmt cm (repeat n b label) = some (repeat n b label)
  subst_stmt cm (for_loop x a b body label) = some (for_loop x a b body label)
  subst_stmt cm (disable label) = some (disable label)
  subst_stmt cm (group ss) = some (group ss)

  pub subst_stmts : ConstMap → Stmts → Option Stmts
  subst_stmts cm snil = some snil
  subst_stmts cm (scons s ss) = do s ← subst_stmt cm s; ss ← subst_stmts cm ss; some (scons s ss)

  pub subst_cases : ConstMap → Cases → Option Cases
  subst_cases cm cnil = some cnil
  subst_cases cm (ccons e body cs) = do
    e ← subst_expr cm e
    body ← subst_stmts cm body
    cs ← subst_cases cm cs
    some (ccons e body cs)

-- Only lists that stand in the list itself are spliced, not those within a statement.
unfoldable mutual
  pub flatten_stmt : Stmt → Stmts
  flatten_stmt (group ss) = flatten_stmts ss
  flatten_stmt s = scons s snil

  pub flatten_stmts : Stmts → Stmts
  flatten_stmts snil = snil
  flatten_stmts (scons s ss) = extend (flatten_stmt s) (flatten_stmts ss)
