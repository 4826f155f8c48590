-- ===== src/Lower/Block/Simple.antt =====
-- Blocks of assignments alone, against the lowering of the same statements as a block with control
-- flow.
use mathlib.Core.List.{append-nil}
use veripy.Base.{
  ◌≡◌, refl, ap, ◌∙◌, String, true, false, List, [], ◌∷◌, ◌++◌, none, some, map, contains, ℕ, zero,
  suc, arith,
}
use veripy.Base.Int.{ℤ}
use veripy.Ir.{Expr, const, Stmts, assign, slice_assign, snil, scons}
use veripy.Lower.Outcome.{ok, exhausted, of_ok, >>=-eq-ok, ◌>>=◌}
use veripy.Lower.Ast.{
  Ast, number, attribute, subscript, anil, acons, PyStmts, py_assign, pnil, pcons, is_self_target,
  loop_depths,
}
use veripy.Lower.Scope.{Scope, Locals, target_name}
use veripy.Lower.Expr.{expr, port_element}
use veripy.Lower.Loop.{Lowered}
use veripy.Lower.Assign.{assign_stmt, assign_subscript}
use veripy.Lower.Stmt.{stmts, lower_or, lower}
use veripy.Lower.Block.{
  Bundles, try_expand_iface, all_nba, Driver, with_name, drivers, Item, cont_assign, simple_items,
  free_drivers, block_drivers, lower_comb,
}

-- No statement joins two interfaces.
abbrev pub Unjoined : Bundles → PyStmts → Type 0
Unjoined bs pnil = Unit
Unjoined bs (pcons (py_assign (acons target anil) value) ss) =
    (try_expand_iface bs target value ≡ none) × Unjoined bs ss
Unjoined bs (pcons s ss) = Unjoined bs ss

abbrev pub assigns : List (String × Expr) → Stmts
assigns [] = snil
assigns ((x, e) ∷ ps) = scons (assign x e true) (assigns ps)

abbrev pub cont_assigns : List (String × Expr) → List Item
cont_assigns [] = []
cont_assigns ((x, e) ∷ ps) = cont_assign (some x) e ∷ cont_assigns ps

-- None of the targets is one that a block drives.
abbrev pub Undriven : List String → List (String × Expr) → Type 0
Undriven always_driven [] = Unit
Undriven always_driven ((x, e) ∷ ps) =
    (contains always_driven x ≡ false) × Undriven always_driven ps

module _ (always_driven : List String) where
  free_drivers-with_name :
      (ps : List (String × Expr))
      → Undriven always_driven ps
      → free_drivers always_driven (map with_name ps) ≡ cont_assigns ps
  unfolding free_drivers
  free_drivers-with_name [] u = refl
  free_drivers-with_name ((x, e) ∷ ps) u =
      rw u.0 (ap (λ (is : List Item). cont_assign (some x) e ∷ is) (free_drivers-with_name ps u.1))

  block_drivers-with_name :
      (ps : List (String × Expr))
      → Undriven always_driven ps
      → block_drivers always_driven (map with_name ps) ≡ snil
  unfolding block_drivers
  block_drivers-with_name [] u = refl
  block_drivers-with_name ((x, e) ∷ ps) u = rw u.0 (block_drivers-with_name ps u.1)

  simple_items-with_name :
      (ps : List (String × Expr))
      → Undriven always_driven ps
      → simple_items always_driven (map with_name ps) ≡ cont_assigns ps
  unfolding simple_items
  simple_items-with_name ps u =
      rw (block_drivers-with_name ps u, free_drivers-with_name ps u) (append-nil _)

module _ (sc : Scope) (bs : Bundles) where
  -- One assignment to a signal.
  stmt-driver :
      (f : PyStmts → Locals → Lowered) (target value : Ast) (x : String) (e : Expr) (rest : PyStmts)
      (out : Stmts)
      → is_self_target target ≡ true
      → target_name sc target ≡ some x
      → expr sc [] value ≡ ok e
      → stmts sc true f rest [] ≡ ok (out, [])
      → stmts sc true f (pcons (py_assign (acons target anil) value) rest) []
        ≡ ok (scons (assign x e true) out, [])
  unfolding stmts target_name
  stmt-driver f (attribute t a) value x e rest out h n v r = ground arith
  stmt-driver f target value x e rest out h n v r = ground arith

  stmts-drivers :
      (f : PyStmts → Locals → Lowered) (body : PyStmts) (ps : List (String × Expr))
      → all_nba body ≡ true
      → Unjoined bs body
      → drivers sc bs body ≡ ok (map with_name ps)
      → stmts sc true f body [] ≡ ok (assigns ps, [])
  unfolding drivers all_nba stmts
  stmts-drivers f pnil [] h u d = refl
  stmts-drivers f pnil (p ∷ ps) h u d = cc
  stmts-drivers f (pcons (py_assign (acons target anil) value) ss) ps h (u, us) d =
      let (ds, heads, rest) =
        >>=-eq-ok (expr sc [] value >>= λ e. ok ((target_name sc target, e) ∷ [])) _ (rw u at d) in
      let (e, value_is, head_is) = >>=-eq-ok (expr sc [] value) _ heads in
      let (more, more_are, together) = >>=-eq-ok (drivers sc bs ss) _ rest in
      let nbas : all_nba ss ≡ true = ground arith in
      after ps (ap (λ (xs : List Driver). xs ++ more) (of_ok head_is) ∙ of_ok together) value_is
        (λ qs q. stmts-drivers f ss qs nbas us (more_are ∙ ap ok q))
    where
      after :
          (ps : List (String × Expr)) {e : Expr} {more : List Driver}
          → ◌≡◌ {A = List Driver} ((target_name sc target, e) ∷ more) (map with_name ps)
          → expr sc [] value ≡ ok e
          → ((qs : List (String × Expr))
              → more ≡ map with_name qs
              → stmts sc true f ss [] ≡ ok (assigns qs, []))
          → stmts sc true f (pcons (py_assign (acons target anil) value) ss) []
            ≡ ok (assigns ps, [])
      after [] q v k = cc
      after ((x, e) ∷ ps) q v k =
          stmt-driver f target value x e ss (assigns ps) (ground arith) (cc) (cc) (k ps (cc))
  stmts-drivers f (pcons s ss) ps h u d = cc

  lower_or-drivers :
      (f : PyStmts → Locals → Lowered) (fuel : ℕ) (body : PyStmts) (ps : List (String × Expr))
      → all_nba body ≡ true
      → Unjoined bs body
      → drivers sc bs body ≡ ok (map with_name ps)
      → lower_or f sc true fuel body [] ≡ ok (assigns ps, [])
  unfolding lower_or
  lower_or-drivers f zero body ps h u d = stmts-drivers f body ps h u d
  lower_or-drivers f (suc fuel) body ps h u d =
      stmts-drivers (lower_or f sc true fuel) body ps h u d

-- In a block of assignments alone, where no statement joins two interfaces, every target has a name
-- and no block drives one, the continuous assignments have, in order, the targets and the values of
-- the statements that the lowering of a block with control flow makes of the same body.
pub lower_comb-lower :
    (sc : Scope) (bs : Bundles) (always_driven : List String) (regs known_locals : Locals)
    (body : PyStmts) (ps : List (String × Expr))
    → all_nba body ≡ true
    → Unjoined bs body
    → drivers sc bs body ≡ ok (map with_name ps)
    → Undriven always_driven ps
    → (lower_comb sc bs none always_driven regs known_locals body
        ≡ ok (cont_assigns ps, known_locals))
      × (lower sc true body [] ≡ ok (assigns ps, []))
unfolding lower_comb lower
lower_comb-lower sc bs always_driven regs known_locals body ps h u d n = (
  rw (h, d, simple_items-with_name always_driven ps n) refl,
  lower_or-drivers sc bs (λ ss ls. exhausted) (loop_depths body) body ps h u d,
)

-- An element or a bit of a signal is no target that a continuous assignment can have: in a block of
-- assignments alone its driver is left without a target, whatever the statements behind it. A block
-- with control flow writes the bit that the same statement names.
pub lower_comb-bit :
    (sc : Scope) (bs : Bundles) (always_driven : List String) (regs known_locals : Locals)
    (target value : Ast) (z : ℤ) (x : String) (e : Expr) (rest : PyStmts) (ds : List Driver)
    → is_self_target target ≡ true
    → target_name sc target ≡ some x
    → port_element sc x (number z) ≡ none
    → expr sc [] value ≡ ok e
    → all_nba rest ≡ true
    → drivers sc bs rest ≡ ok ds
    → (lower_comb sc bs none always_driven regs known_locals
          (pcons (py_assign (acons (subscript target (number z)) anil) value) rest)
        ≡ ok (cont_assign none e ∷ simple_items always_driven ds, known_locals))
      × (lower sc true (pcons (py_assign (acons (subscript target (number z)) anil) value) pnil) []
          ≡ ok (scons (slice_assign x (const z) (const z) e true) snil, []))
unfolding lower_comb lower drivers simple_items target_name assign_stmt
lower_comb-bit sc bs always_driven regs known_locals target value z x e rest ds t n p v h d =
    (rw (t, h, v, d) refl, rw (t, assign_subscript, n, p, v) refl)
