-- ===== src/Lower/Stmt/Case.antt =====
-- A chain of tests that `_try_case` turns into a case statement, against the same chain lowered to
-- an `if` statement.
use veripy.Base.{
  ◌≡◌, refl, ◌∙◌, Bool, true, false, [], ◌∷◌, Option, none, some, Bool-cases, inl, inr,
}
use veripy.Ir.{Expr, compare, eq, Stmts, Cases, if_else, case, snil, scons, ccons}
use veripy.Ir.Value.{Target}
use veripy.Ir.Meaning.{Machine, exec_all}
use veripy.Lower.Outcome.{ok, >>=-eq-ok}
use veripy.Lower.Ast.{
  op_eq, Ast, py_compare, anil, acons, PyStmts, py_if, pnil, pcons, is_self_target,
}
use veripy.Lower.Scope.{Scope, Locals}
use veripy.Lower.Expr.{compare_op, expr}
use veripy.Lower.Loop.{Lowered}
use veripy.Lower.SameExpr.{same_expr, same_expr→eq}
use veripy.Lower.Stmt.{
  case_test, Case, add_branch, case_turn, differs, subject_or, Attempt, try_case, if_plain, stmts,
  case_rest,
}
use veripy.Lower.Stmt.Branches.{
  IsEquality, compare-IsEquality, compare-IsEquality_comm, Follows, case-Follows, default-Follows,
  exec-branch, exec_all_cong,
}

-- What a turn of the loop that found a branch has lowered.
record Turn (sc : Scope) (seen : Option Expr) (test : Ast) (body : Locals → Lowered)
    (rest : Expr → Locals → Attempt) (ls : Locals) (s : Expr) (cs : Cases) (d : Stmts)
    (ls' : Locals) : Type 0 where
  signal_node : Ast
  const_node : Ast
  subject : Expr
  pattern : Expr
  ss : Stmts
  more : Cases
  inner : Locals
  first : Expr
  tests : case_test test ≡ some (signal_node, const_node)
  lowers_subject : expr sc ls signal_node ≡ ok subject
  agrees : differs seen subject ≡ false
  lowers_pattern : expr sc ls const_node ≡ ok pattern
  lowers_body : body ls ≡ ok (ss, inner)
  goes_on : rest (subject_or seen subject) inner ≡ ok (some (first, more, d), ls')
  result : (subject_or seen subject ≡ s) × (ccons pattern ss more ≡ cs)

not_found :
    {A : Type 0} {c : Case} {l l' : Locals} → ◌≡◌ {A = Attempt} (ok (none, l)) (ok (some c, l')) → A
not_found h = cc

module _ (sc : Scope) (seen : Option Expr) (test : Ast) (body : Locals → Lowered)
    (rest : Expr → Locals → Attempt) (ls : Locals) (s : Expr) (cs : Cases) (d : Stmts)
    (ls' : Locals) where
  found_turn :
      (sn cn : Ast) (e p : Expr) (ss : Stmts) (inner : Locals) (found : Option Case)
      (after : Locals)
      → case_test test ≡ some (sn, cn)
      → expr sc ls sn ≡ ok e
      → differs seen e ≡ false
      → expr sc ls cn ≡ ok p
      → body ls ≡ ok (ss, inner)
      → rest (subject_or seen e) inner ≡ ok (found, after)
      → ◌≡◌ {A = Attempt}
          (ok (add_branch (subject_or seen e) p ss found, after))
          (ok (some (s, cs, d), ls'))
      → Turn sc seen test body rest ls s cs d ls'
  found_turn sn cn e p ss inner none after ht he ha hp hb hr h = cc
  found_turn sn cn e p ss inner (some (first, more, d')) after ht he ha hp hb hr h = record {
    signal_node = sn;
    const_node = cn;
    subject = e;
    pattern = p;
    ss = ss;
    more = more;
    inner = inner;
    first = first;
    tests = ht;
    lowers_subject = he;
    agrees = ha;
    lowers_pattern = hp;
    lowers_body = hb;
    goes_on = cc;
    result = (cc, cc);
  }

  turn :
      try_case sc seen test body rest ls ≡ ok (some (s, cs, d), ls')
      → Turn sc seen test body rest ls s cs d ls'
  unfolding try_case
  turn h = go (case_test test) refl h
    where
      go :
          (o : Option (Ast × Ast))
          → case_test test ≡ o
          → case_turn sc seen o body rest ls ≡ ok (some (s, cs, d), ls')
          → Turn sc seen test body rest ls s cs d ls'
      go none e h = cc
      go (some (sn, cn)) e h =
          let (x, he, h1) = >>=-eq-ok (expr sc ls sn) _ h in
          elim (Bool-cases (differs seen x)) [
            | inl ha ↦ not_found (rw ha at h1)
            | inr ha ↦
                (let (p, hp, h2) = >>=-eq-ok (expr sc ls cn) _ (rw ha at h1) in
                  let ((ss, inner), hb, h3) = >>=-eq-ok (body ls) _ h2 in
                  let ((found, after), hr, h4) = >>=-eq-ok (rest (subject_or seen x) inner) _ h3 in
                  found_turn sn cn x p ss inner found after e he ha hp hb hr h4)
          ]

some_pair :
    {A B : Type 0} {a a' : A} {b b' : B}
    → ◌≡◌ {A = Option (A × B)} (some (a, b)) (some (a', b'))
    → (a ≡ a') × (b ≡ b')
some_pair h = (cc, cc)

-- The test itself, lowered, compares the two sides.
test-IsEquality :
    (sc : Scope) (ls : Locals) (test sn cn : Ast) (e p : Expr)
    → case_test test ≡ some (sn, cn)
    → expr sc ls sn ≡ ok e
    → expr sc ls cn ≡ ok p
    → (q : Expr) × (expr sc ls test ≡ ok q) × ((t : Target) → IsEquality t q e p)
unfolding case_test expr compare_op
test-IsEquality sc ls (py_compare l (op_eq ∷ []) (acons r anil)) sn cn e p h he hp =
    elim (Bool-cases (is_self_target l)) [
      | inl el ↦
          (let (hl, hr) = some_pair (rw el at h) in
            (compare eq e p, rw (hl, hr, he, hp) refl, λ t. compare-IsEquality t e p))
      | inr el ↦ elim (Bool-cases (is_self_target r)) [
        | inl er ↦
            (let (hr, hl) = some_pair (rw (el, er) at h) in
              (compare eq p e, rw (hl, hr, he, hp) refl, λ t. compare-IsEquality_comm t e p))
        | inr er ↦ nothing (rw (el, er) at h)
      ]
    ]
  where
    nothing : {A : Type 0} {a : Ast × Ast} → none ≡ some a → A
    nothing h = cc
test-IsEquality sc ls test sn cn e p h he hp = cc

found_parts :
    {s s' : Expr} {cs cs' : Cases} {d d' : Stmts} {l l' : Locals}
    → ◌≡◌ {A = Attempt} (ok (some (s, cs, d), l)) (ok (some (s', cs', d'), l'))
    → (s ≡ s') × (cs ≡ cs') × (d ≡ d') × (l ≡ l')
found_parts h = (cc, cc, cc, cc)

agreed : (s e : Expr) → differs (some s) e ≡ false → e ≡ s
agreed s e h = elim (Bool-cases (same_expr e s)) [
  | inl p ↦ same_expr→eq e s p
  | inr p ↦ apart (rw p at h)
]
  where
    apart : {A : Type 0} → true ≡ false → A
    apart h = cc

-- A branch that continues a chain could begin one.
restart :
    (sc : Scope) (test : Ast) (body : Locals → Lowered) (rest : Expr → Locals → Attempt)
    (ls : Locals) (s0 s : Expr) (cs : Cases) (d : Stmts) (ls' : Locals)
    → Turn sc (some s0) test body rest ls s cs d ls'
    → try_case sc none test body rest ls ≡ ok (some (s0, cs, d), ls')
unfolding try_case
restart sc test body rest ls s0 s cs d ls' w =
    let e = agreed s0 w.subject w.agrees in
    rw (w.tests, w.lowers_subject, w.lowers_pattern, w.lowers_body, e, w.goes_on, w.result.1) refl

module _ (sc : Scope) (blocking : Bool) (lower_body : PyStmts → Locals → Lowered) where
  rest-Follows :
      (subject : Expr) (orelse : PyStmts) (ls : Locals) (s : Expr) (cs : Cases) (d : Stmts)
      (ls' : Locals)
      → case_rest sc blocking lower_body subject orelse ls ≡ ok (some (s, cs, d), ls')
      → (plain : Stmts) × (stmts sc blocking lower_body orelse ls ≡ ok (plain, ls'))
        × ((t : Target) → Follows t subject cs d plain)
  unfolding stmts
  rest-Follows subject pnil ls s cs d ls' h =
      let (_, hc, hd, hl) = found_parts h in
      (snil, (λ i. ok (snil, hl i)), λ t. rw (← hc, ← hd) (default-Follows t subject snil))
  rest-Follows subject (pcons (py_if c body orelse) pnil) ls s cs d ls' h =
      let w =
        turn sc (some subject) c (λ ls. stmts sc blocking lower_body body ls)
          (λ e ls. case_rest sc blocking lower_body e orelse ls) ls s cs d ls' h in
      let found = restart sc c _ _ ls subject s cs d ls' w in
      (scons (case subject cs d) snil, rw found refl, λ t. case-Follows t subject cs d)
  rest-Follows subject (pcons s0 ss0) ls s cs d ls' h =
      let ((ss, l), e, h1) = >>=-eq-ok (stmts sc blocking lower_body (pcons s0 ss0) ls) _ h in
      let (_, hc, hd, hl) = found_parts h1 in
      (d, e ∙ (λ i. ok (hd i, hl i)), λ t. rw (← hc) (default-Follows t subject d))

  -- When the loop of the case detection finds a case statement, lowering the test, the body and the
  -- `else` to an `if` succeeds too, leaves the same local variables, and from every machine the two
  -- statements do the same, in any target.
  pub try_case-if_plain :
      (t : Target) (c : Ast) (body orelse : PyStmts) (ls : Locals) (s : Expr) (cs : Cases)
      (d : Stmts) (ls' : Locals)
      → try_case sc none c
          (λ ls. stmts sc blocking lower_body body ls)
          (λ e ls. case_rest sc blocking lower_body e orelse ls)
          ls
        ≡ ok (some (s, cs, d), ls')
      → (plain : Stmts) × (if_plain sc c
            (λ ls. stmts sc blocking lower_body body ls)
            (λ ls. stmts sc blocking lower_body orelse ls)
            ls
          ≡ ok (plain, ls'))
        × ((m : Machine) → exec_all t (scons (case s cs d) snil) m ≡ exec_all t plain m)
  unfolding if_plain
  try_case-if_plain t c body orelse ls s cs d ls' h =
      let w = turn sc none c _ _ ls s cs d ls' h in
      let (q, hq, hk) =
        test-IsEquality sc ls c w.signal_node w.const_node w.subject w.pattern w.tests
          w.lowers_subject w.lowers_pattern in
      let (plain, hp, hf) = rest-Follows w.subject orelse w.inner w.first w.more d ls' w.goes_on in
      (
        scons (if_else q w.ss plain) snil,
        rw (hq, w.lowers_body, hp) refl,
        λ m.
            rw (← w.result.0, ← w.result.1)
              (exec_all_cong t _ _ m
                (exec-branch t w.subject w.pattern q w.ss w.more d plain (hk t) (hf t) m)),
      )
