-- ===== src/Flatten/Rename/Names.antt =====
-- What renamed code reads and writes: the renamed names, in the same order.
use mathlib.Core.List.{map-append}
use veripy.Base.{String, List, [], ◌++◌, map, Option, none, some, lookup, ◌≡◌, refl, sym, ap₂, ◌∙◌}
use veripy.Base.Int.{ℤ}
use veripy.Ir.{
  Expr, Exprs, const, param, sig, bin_op, unary_op, compare, bool_op, mux, slice, slice_lo, index,
  concat, clz, ctz, popcount, sext, enil, econs, Stmt, Stmts, Cases, assign, slice_assign, if_else,
  case, mem_write, delay, display, finish, repeat, for_loop, disable, group, snil, scons, cnil,
  ccons,
}
use veripy.Flatten.Reads.{
  expr_reads, exprs_reads, stmt_writes, stmts_writes, cases_writes, stmt_reads, stmts_reads,
  cases_reads,
}
use veripy.Flatten.Rename.{
  Renaming, rn, rename_param, rename_expr, rename_exprs, rename_stmt, rename_stmts, rename_cases,
}

module _ (rename : Renaming) where
  abbrev pub names : List String → List String
  names xs = map (rn rename) xs

  -- Two parts that read renamed names.
  two :
      (as' bs' : List String) {xs ys : List String}
      → xs ≡ names as'
      → ys ≡ names bs'
      → xs ++ ys ≡ names (as' ++ bs')
  two as' bs' p q = ap₂ ◌++◌ p q ∙ sym (map-append (rn rename) as' bs')

  param_reads : (x : String) (o : Option ℤ) → expr_reads (rename_param rename x o) ≡ []
  unfolding expr_reads
  param_reads x none = refl
  param_reads x (some z) = refl

  mutual
    unfolding expr_reads rename_expr

    pub expr_reads-rename_expr :
        (resolved : List (String × ℤ)) (e : Expr)
        → expr_reads (rename_expr rename resolved e) ≡ names (expr_reads e)
    expr_reads-rename_expr σ (param x) = param_reads x (lookup x σ)
    expr_reads-rename_expr σ (const z) = refl
    expr_reads-rename_expr σ (sig x) = refl
    expr_reads-rename_expr σ (bin_op op l r) =
        two _ _ (expr_reads-rename_expr σ l) (expr_reads-rename_expr σ r)
    expr_reads-rename_expr σ (unary_op op e) = expr_reads-rename_expr σ e
    expr_reads-rename_expr σ (compare op l r) =
        two _ _ (expr_reads-rename_expr σ l) (expr_reads-rename_expr σ r)
    expr_reads-rename_expr σ (bool_op op es) = exprs_reads-rename_exprs σ es
    expr_reads-rename_expr σ (mux s a b) =
        two _ _ (expr_reads-rename_expr σ s)
          (two _ _ (expr_reads-rename_expr σ a) (expr_reads-rename_expr σ b))
    expr_reads-rename_expr σ (slice e hi lo) =
        two _ _ (expr_reads-rename_expr σ e)
          (two _ _ (expr_reads-rename_expr σ hi) (expr_reads-rename_expr σ lo))
    expr_reads-rename_expr σ (slice_lo e lo) =
        two _ _ (expr_reads-rename_expr σ e) (expr_reads-rename_expr σ lo)
    expr_reads-rename_expr σ (index e i) =
        two _ _ (expr_reads-rename_expr σ e) (expr_reads-rename_expr σ i)
    expr_reads-rename_expr σ (concat es) = exprs_reads-rename_exprs [] es
    expr_reads-rename_expr σ (clz e w) = expr_reads-rename_expr σ e
    expr_reads-rename_expr σ (ctz e w) = expr_reads-rename_expr σ e
    expr_reads-rename_expr σ (popcount e w) = expr_reads-rename_expr σ e
    expr_reads-rename_expr σ (sext e s d) = expr_reads-rename_expr σ e

    pub exprs_reads-rename_exprs :
        (resolved : List (String × ℤ)) (es : Exprs)
        → exprs_reads (rename_exprs rename resolved es) ≡ names (exprs_reads es)
    exprs_reads-rename_exprs σ enil = refl
    exprs_reads-rename_exprs σ (econs e es) =
        two _ _ (expr_reads-rename_expr σ e) (exprs_reads-rename_exprs σ es)

module _ (rename : Renaming) (σ : List (String × ℤ)) where
  mutual
    unfolding stmt_writes rename_stmt

    pub stmt_writes-rename_stmt :
        (s : Stmt) → stmt_writes (rename_stmt rename σ s) ≡ names rename (stmt_writes s)
    stmt_writes-rename_stmt (assign k e b) = refl
    stmt_writes-rename_stmt (slice_assign k hi lo e b) = refl
    stmt_writes-rename_stmt (mem_write k a e b) = refl
    stmt_writes-rename_stmt (if_else c y n) =
        two rename _ _ (stmts_writes-rename_stmts y) (stmts_writes-rename_stmts n)
    stmt_writes-rename_stmt (case s cs d) =
        two rename _ _ (cases_writes-rename_cases cs) (stmts_writes-rename_stmts d)
    stmt_writes-rename_stmt (delay e) = refl
    stmt_writes-rename_stmt (display f es) = refl
    stmt_writes-rename_stmt finish = refl
    stmt_writes-rename_stmt (repeat n b x) = refl
    stmt_writes-rename_stmt (for_loop i a b c x) = refl
    stmt_writes-rename_stmt (disable x) = refl
    stmt_writes-rename_stmt (group ss) = refl

    pub stmts_writes-rename_stmts :
        (ss : Stmts) → stmts_writes (rename_stmts rename σ ss) ≡ names rename (stmts_writes ss)
    stmts_writes-rename_stmts snil = refl
    stmts_writes-rename_stmts (scons s ss) =
        two rename _ _ (stmt_writes-rename_stmt s) (stmts_writes-rename_stmts ss)

    pub cases_writes-rename_cases :
        (cs : Cases) → cases_writes (rename_cases rename σ cs) ≡ names rename (cases_writes cs)
    cases_writes-rename_cases cnil = refl
    cases_writes-rename_cases (ccons e body cs) =
        two rename _ _ (stmts_writes-rename_stmts body) (cases_writes-rename_cases cs)

  mutual
    unfolding stmt_reads rename_stmt

    pub stmt_reads-rename_stmt :
        (s : Stmt) → stmt_reads (rename_stmt rename σ s) ≡ names rename (stmt_reads s)
    stmt_reads-rename_stmt (assign k e b) = expr_reads-rename_expr rename σ e
    stmt_reads-rename_stmt (slice_assign k hi lo e b) =
        two rename _ _
          (two rename _ _ (expr_reads-rename_expr rename σ hi) (expr_reads-rename_expr rename σ lo))
          (expr_reads-rename_expr rename σ e)
    stmt_reads-rename_stmt (mem_write k a e b) =
        two rename _ _ (expr_reads-rename_expr rename σ a) (expr_reads-rename_expr rename σ e)
    stmt_reads-rename_stmt (if_else c y n) =
        two rename _ _ (expr_reads-rename_expr rename σ c)
          (two rename _ _ (stmts_reads-rename_stmts y) (stmts_reads-rename_stmts n))
    stmt_reads-rename_stmt (case s cs d) =
        two rename _ _ (expr_reads-rename_expr rename σ s)
          (two rename _ _ (cases_reads-rename_cases cs) (stmts_reads-rename_stmts d))
    stmt_reads-rename_stmt (delay e) = refl
    stmt_reads-rename_stmt (display f es) = refl
    stmt_reads-rename_stmt finish = refl
    stmt_reads-rename_stmt (repeat n b x) = refl
    stmt_reads-rename_stmt (for_loop i a b c x) = refl
    stmt_reads-rename_stmt (disable x) = refl
    stmt_reads-rename_stmt (group ss) = refl

    pub stmts_reads-rename_stmts :
        (ss : Stmts) → stmts_reads (rename_stmts rename σ ss) ≡ names rename (stmts_reads ss)
    stmts_reads-rename_stmts snil = refl
    stmts_reads-rename_stmts (scons s ss) =
        two rename _ _ (stmt_reads-rename_stmt s) (stmts_reads-rename_stmts ss)

    pub cases_reads-rename_cases :
        (cs : Cases) → cases_reads (rename_cases rename σ cs) ≡ names rename (cases_reads cs)
    cases_reads-rename_cases cnil = refl
    cases_reads-rename_cases (ccons e body cs) =
        two rename _ _ (expr_reads-rename_expr rename σ e)
          (two rename _ _ (stmts_reads-rename_stmts body) (cases_reads-rename_cases cs))

  -- A renamed statement writes the renamed names and reads the renamed names, in the same order.
  pub names-rename_stmt :
      (s : Stmt)
      → (stmt_writes (rename_stmt rename σ s) ≡ map (rn rename) (stmt_writes s))
        × (stmt_reads (rename_stmt rename σ s) ≡ map (rn rename) (stmt_reads s))
  names-rename_stmt s = (stmt_writes-rename_stmt s, stmt_reads-rename_stmt s)
