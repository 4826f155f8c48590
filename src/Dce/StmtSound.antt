-- ===== src/Dce/StmtSound.antt =====
-- Substituting known constants in statements keeps what they do.
use veripy.Base.{
  ◌≡◌, refl, sym, ap, ◌∙◌, Option, some, ◌>>=◌, >>=-eq-some, bind-some, bind_cong, of_some,
  Bool-cases, inl, inr, contains,
}
use veripy.Base.Int.{ℤ, truthy}
use veripy.Ir.{
  Expr, const, Stmt, Stmts, Cases, assign, slice_assign, if_else, case, mem_write, delay, display,
  finish, repeat, for_loop, disable, group, snil, scons, cnil, ccons,
}
use veripy.Ir.Value.{Target, bind_word_cong}
use veripy.Ir.Meaning.{eval, Machine, exec, exec_all, exec_cases, exec_all-extend}
use veripy.Ir.Frame.{exec-SameAt}
use veripy.Flatten.Reads.{stmt_writes, stmts_writes, cases_writes}
use veripy.Dce.Subst.{
  ConstMap, subst_expr, subst_if, subst_stmt, subst_stmts, subst_cases, flatten_stmt, flatten_stmts,
}
use veripy.Dce.SubstSound.{Agrees, eval-subst_expr}
use veripy.Dce.Shape.{
  NoGroups, NoGroupCases, NoGroups-flatten, NoGroups-extend_split, StableStmt, StableStmts,
  StableCases, Untouched, Untouched-left, Untouched-right,
}

module _ (t : Target) where
  exec-if_cong :
      (x c : Expr) (a yes_body b no_body : Stmts) (m : Machine)
      → eval t m.cur x ≡ eval t m.cur c
      → exec_all t a m ≡ exec_all t yes_body m
      → exec_all t b m ≡ exec_all t no_body m
      → exec t (if_else x a b) m ≡ exec t (if_else c yes_body no_body) m
  unfolding exec
  exec-if_cong x c a yes_body b no_body m e ea eb = rw (e, ea, eb) refl

  exec-case_cong :
      (x s : Expr) (cs' cs : Cases) (d default : Stmts) (m : Machine)
      → eval t m.cur x ≡ eval t m.cur s
      → ((z : ℤ)
          → exec_cases t z cs' (exec_all t d m) m ≡ exec_cases t z cs (exec_all t default m) m)
      → exec t (case x cs' d) m ≡ exec t (case s cs default) m
  unfolding exec
  exec-case_cong x s cs' cs d default m e h = rw e (bind_word_cong (eval t m.cur s) h)

  -- Within a statement the lists stay as they are.
  kept :
      (ss old : Stmts) (m : Machine)
      → (NoGroups (flatten_stmts ss) → exec_all t (flatten_stmts ss) m ≡ exec_all t old m)
      → NoGroups ss
      → exec_all t ss m ≡ exec_all t old m
  kept ss old m h g = let f = NoGroups-flatten ss g in ap (λ x. exec_all t x m) (sym f) ∙ h (rw f g)

module _ (cm : ConstMap) (t : Target) where
  exec-Agrees :
      (s : Stmt) (m m' : Machine)
      → Untouched cm (stmt_writes s)
      → exec t s m ≡ some m'
      → Agrees cm m.cur
      → Agrees cm m'.cur
  exec-Agrees s m m' u r a k z l = elim (Bool-cases (contains (stmt_writes s) k)) [
    | inl c ↦ absurd (cc (u k c))
    | inr c ↦ (exec-SameAt t k s m m' c r).0 ∙ a k z l
  ]

  exec-subst_if :
      (x : Expr) (a b : Option Stmts) (c : Expr) (yes_body no_body : Stmts) (s' : Stmt)
      (m : Machine)
      → eval t m.cur x ≡ eval t m.cur c
      → ((a' : Stmts)
          → a ≡ some a'
          → NoGroups (flatten_stmts a')
          → exec_all t (flatten_stmts a') m ≡ exec_all t yes_body m)
      → ((b' : Stmts)
          → b ≡ some b'
          → NoGroups (flatten_stmts b')
          → exec_all t (flatten_stmts b') m ≡ exec_all t no_body m)
      → NoGroups (flatten_stmt s')
      → subst_if x a b ≡ some s'
      → exec_all t (flatten_stmt s') m ≡ exec t (if_else c yes_body no_body) m
  unfolding exec flatten_stmt
  exec-subst_if (const z) a b c yes_body no_body s' m ec ha hb g h = elim (Bool-cases (truthy z)) [
    | inl p ↦
        let (a', q, r) = >>=-eq-some a _ (rw p at h) in
        rw (of_some r, ← ec, p) (ha a' q (rw (of_some r) at g))
    | inr p ↦
        let (b', q, r) = >>=-eq-some b _ (rw p at h) in
        rw (of_some r, ← ec, p) (hb b' q (rw (of_some r) at g))
  ]
  exec-subst_if x a b c yes_body no_body s' m ec ha hb g h =
      let (a', p, h1) = >>=-eq-some a _ h in
      let (b', q, h2) = >>=-eq-some b _ h1 in
      let gs = rw (of_some h2) at g in
      rw (of_some h2) (
        bind-some _
        ∙ exec-if_cong t x c a' yes_body b' no_body m ec (kept t a' yes_body m (ha a' p) gs.0.0)
            (kept t b' no_body m (hb b' q) gs.0.1))

  mutual
    unfolding exec subst_stmt flatten_stmt stmt_writes

    exec-subst_stmt :
        (s s' : Stmt) (m : Machine)
        → StableStmt cm s
        → Untouched cm (stmt_writes s)
        → Agrees cm m.cur
        → NoGroups (flatten_stmt s')
        → subst_stmt cm s ≡ some s'
        → exec_all t (flatten_stmt s') m ≡ exec t s m
    exec-subst_stmt (assign k e b) s' m w u ag g h =
        let (x, p, h1) = >>=-eq-some (subst_expr cm e) _ h in
        rw (of_some h1) (bind-some _ ∙ rw (eval-subst_expr cm t m.cur ag e x w p) refl)
    exec-subst_stmt (slice_assign k hi lo e b) s' m w u ag g h =
        let (x, p, h1) = >>=-eq-some (subst_expr cm hi) _ h in
        let (y, q, h2) = >>=-eq-some (subst_expr cm lo) _ h1 in
        let (z, r, h3) = >>=-eq-some (subst_expr cm e) _ h2 in
        rw (of_some h3) (
          bind-some _
          ∙ rw
              (
                eval-subst_expr cm t m.cur ag hi x w.0 p,
                eval-subst_expr cm t m.cur ag lo y w.1 q,
                eval-subst_expr cm t m.cur ag e z w.2 r,
              )
              refl)
    exec-subst_stmt (mem_write k addr e b) s' m w u ag g h =
        let (x, p, h1) = >>=-eq-some (subst_expr cm addr) _ h in
        let (y, q, h2) = >>=-eq-some (subst_expr cm e) _ h1 in
        rw (of_some h2) (
          bind-some _
          ∙ rw (eval-subst_expr cm t m.cur ag addr x w.0 p, eval-subst_expr cm t m.cur ag e y w.1 q)
              refl)
    exec-subst_stmt (if_else c yes_body no_body) s' m w u ag g h =
        let (x, p, h1) = >>=-eq-some (subst_expr cm c) _ h in
        exec-subst_if x (subst_stmts cm yes_body) (subst_stmts cm no_body) c yes_body no_body s' m
          (eval-subst_expr cm t m.cur ag c x w.0 p)
          (λ a q ga.
            exec_all-subst_stmts yes_body a m w.1
              (Untouched-left cm (stmts_writes yes_body) (stmts_writes no_body) u) ag ga q)
          (λ b q gb.
            exec_all-subst_stmts no_body b m w.2
              (Untouched-right cm (stmts_writes yes_body) (stmts_writes no_body) u) ag gb q)
          g h1
    exec-subst_stmt (case s cs default) s' m w u ag g h =
        let (x, p, h1) = >>=-eq-some (subst_expr cm s) _ h in
        let (cs', q, h2) = >>=-eq-some (subst_cases cm cs) _ h1 in
        let (d, r, h3) = >>=-eq-some (subst_stmts cm default) _ h2 in
        let gs = rw (of_some h3) at g in
        let ed =
          kept t d default m
            (λ gd.
              exec_all-subst_stmts default d m w.2
                (Untouched-right cm (cases_writes cs) (stmts_writes default) u) ag gd r)
            gs.0.1 in
        rw (of_some h3) (
          bind-some _
          ∙ exec-case_cong t x s cs' cs d default m (eval-subst_expr cm t m.cur ag s x w.0 p) (λ z.
            ap (λ o. exec_cases t z cs' o m) ed
            ∙ exec_cases-subst_cases cs cs' z (exec_all t default m) m w.1
                (Untouched-left cm (cases_writes cs) (stmts_writes default) u) ag gs.0.0 q))
    exec-subst_stmt (delay e) s' m w u ag g h = rw (of_some h) refl
    exec-subst_stmt (display fmt es) s' m w u ag g h = rw (of_some h) refl
    exec-subst_stmt finish s' m w u ag g h = rw (of_some h) refl
    exec-subst_stmt (repeat n b label) s' m w u ag g h = rw (of_some h) refl
    exec-subst_stmt (for_loop x a b body label) s' m w u ag g h = rw (of_some h) refl
    exec-subst_stmt (disable label) s' m w u ag g h = rw (of_some h) refl
    exec-subst_stmt (group ss) s' m w u ag g h = absurd w

    pub exec_all-subst_stmts :
        (ss ss' : Stmts) (m : Machine)
        → StableStmts cm ss
        → Untouched cm (stmts_writes ss)
        → Agrees cm m.cur
        → NoGroups (flatten_stmts ss')
        → subst_stmts cm ss ≡ some ss'
        → exec_all t (flatten_stmts ss') m ≡ exec_all t ss m
    exec_all-subst_stmts snil ss' m w u ag g h = rw (of_some h) refl
    exec_all-subst_stmts (scons s ss) ss' m w u ag g h =
        let (s', p, h1) = >>=-eq-some (subst_stmt cm s) _ h in
        let (r', q, h2) = >>=-eq-some (subst_stmts cm ss) _ h1 in
        let gs =
          NoGroups-extend_split (flatten_stmt s') (flatten_stmts r') (rw (of_some h2) at g) in
        let us = Untouched-left cm (stmt_writes s) (stmts_writes ss) u in
        let ur = Untouched-right cm (stmt_writes s) (stmts_writes ss) u in
        rw (of_some h2) (
          exec_all-extend t (flatten_stmt s') (flatten_stmts r') m
          ∙ (ap (λ o. o >>= exec_all t (flatten_stmts r')) (exec-subst_stmt s s' m w.0 us ag gs.0 p)
              ∙ bind_cong (exec t s m) (λ m1 r.
                exec_all-subst_stmts ss r' m1 w.1 ur (exec-Agrees s m m1 us r ag) gs.1 q)))

    exec_cases-subst_cases :
        (cs cs' : Cases) (z : ℤ) (otherwise : Option Machine) (m : Machine)
        → StableCases cm cs
        → Untouched cm (cases_writes cs)
        → Agrees cm m.cur
        → NoGroupCases cs'
        → subst_cases cm cs ≡ some cs'
        → exec_cases t z cs' otherwise m ≡ exec_cases t z cs otherwise m
    exec_cases-subst_cases cnil cs' z o m w u ag g h = rw (of_some h) refl
    exec_cases-subst_cases (ccons e body cs) cs' z o m w u ag g h =
        let (x, p, h1) = >>=-eq-some (subst_expr cm e) _ h in
        let (b', q, h2) = >>=-eq-some (subst_stmts cm body) _ h1 in
        let (r', r, h3) = >>=-eq-some (subst_cases cm cs) _ h2 in
        let gs = rw (of_some h3) at g in
        let ub = Untouched-left cm (stmts_writes body) (cases_writes cs) u in
        let ur = Untouched-right cm (stmts_writes body) (cases_writes cs) u in
        rw (of_some h3) (
          rw
            (
              eval-subst_expr cm t m.cur ag e x w.0 p,
              kept t b' body m (λ gb. exec_all-subst_stmts body b' m w.1 ub ag gb q) gs.0,
              exec_cases-subst_cases cs r' z o m w.2 ur ag gs.1 r,
            )
            refl)
