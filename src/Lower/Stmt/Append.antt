-- ===== src/Lower/Stmt/Append.antt =====
-- The lowering of statements after statements.
use veripy.Base.{ℕ, zero, suc, ◌≤◌, ◌≡◌, refl, ap, Bool, arith}
use veripy.Ir.{Stmts, snil, scons, extend}
use veripy.Lower.Outcome.{ok, >>=-eq-ok}
use veripy.Lower.Ast.{PyStmts, pnil, pcons, loop_depths}
use veripy.Lower.Scope.{Scope, Locals}
use veripy.Lower.Loop.{Lowered}
use veripy.Lower.Stmt.{stmts, stmt, lower_or}

-- `xs + ys`
unfoldable pub append : PyStmts → PyStmts → PyStmts
append pnil ys = ys
append (pcons s ss) ys = pcons s (append ss ys)

extend_assoc : (xs ys zs : Stmts) → extend (extend xs ys) zs ≡ extend xs (extend ys zs)
extend_assoc snil ys zs = refl
extend_assoc (scons x xs) ys zs = ap (scons x) (extend_assoc xs ys zs)

pub loop_depths-append : (xs ys : PyStmts) → loop_depths xs ≤ loop_depths (append xs ys)
unfolding append loop_depths
loop_depths-append pnil ys = omega arith
loop_depths-append (pcons s ss) ys = ground (arith, loop_depths-append ss ys)

pair_of :
    {a c : Stmts} {b d : Locals} → ◌≡◌ {A = Lowered} (ok (a, b)) (ok (c, d)) → (a ≡ c) × (b ≡ d)
pair_of h = (cc, cc)

stmts-append :
    (sc : Scope) (blocking : Bool) (f : PyStmts → Locals → Lowered) (xs ys : PyStmts)
    (ls l l' : Locals) (out more : Stmts)
    → stmts sc blocking f xs ls ≡ ok (out, l)
    → stmts sc blocking f ys l ≡ ok (more, l')
    → stmts sc blocking f (append xs ys) ls ≡ ok (extend out more, l')
unfolding stmts append
stmts-append sc blocking f pnil ys ls l l' out more hx hy =
    let (ho, hl) = pair_of hx in rw (← ho, hl) hy
stmts-append sc blocking f (pcons s ss) ys ls l l' out more hx hy =
    let ((first, l1), h1, k1) = >>=-eq-ok (stmt sc blocking f s ls) _ hx in
    let ((rest, l2), h2, k2) = >>=-eq-ok (stmts sc blocking f ss l1) _ k1 in
    let (ho, hl) = pair_of k2 in
    rw (h1, ← ho)
      (rw
        (
          stmts-append sc blocking f ss ys l1 l2 l' rest more h2 (rw hl hy),
          extend_assoc first rest more,
        )
        refl)

pub lower_or-append :
    (f : PyStmts → Locals → Lowered) (sc : Scope) (blocking : Bool) (fuel : ℕ) (xs ys : PyStmts)
    (ls l l' : Locals) (out more : Stmts)
    → lower_or f sc blocking fuel xs ls ≡ ok (out, l)
    → lower_or f sc blocking fuel ys l ≡ ok (more, l')
    → lower_or f sc blocking fuel (append xs ys) ls ≡ ok (extend out more, l')
unfolding lower_or
lower_or-append f sc blocking zero xs ys ls l l' out more hx hy =
    stmts-append sc blocking f xs ys ls l l' out more hx hy
lower_or-append f sc blocking (suc fuel) xs ys ls l l' out more hx hy =
    stmts-append sc blocking (lower_or f sc blocking fuel) xs ys ls l l' out more hx hy
