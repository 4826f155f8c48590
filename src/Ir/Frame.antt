-- ===== src/Ir/Frame.antt =====
-- A statement changes only the names that `_stmt_writes_reads` counts as written.
use veripy.Base.{
  ◌≡◌, refl, ◌∙◌, String, Bool, true, false, ◌||◌, List, ◌++◌, Option, some, >>=-eq-some, of_some,
  Bool-cases, inl, inr, same, contains, contains-append, arith,
}
use veripy.Base.Int.{ℤ, truthy, eq_ℤ}
use veripy.Ir.{
  Stmt, Stmts, Cases, assign, slice_assign, if_else, case, mem_write, delay, display, finish,
  repeat, for_loop, disable, group, snil, scons, cnil, ccons,
}
use veripy.Ir.Value.{Value, Target, bind_word}
use veripy.Ir.Meaning.{eval, Machine, write, exec, exec_all, exec_cases}
use veripy.Flatten.Reads.{stmt_writes, stmts_writes, cases_writes}

-- The machines agree on a name.
abbrev pub SameAt : String → Machine → Machine → Type 0
SameAt k m m' = (m'.cur k ≡ m.cur k) × (m'.next k ≡ m.next k)

write-SameAt :
    (b : Bool) (j : String) (v : Value) (m : Machine) (k : String)
    → same j k || false ≡ false
    → SameAt k m (write b j v m)
write-SameAt true j v m k h = ground arith
write-SameAt false j v m k h = ground arith

append_false :
    (xs ys : List String) (k : String)
    → contains (xs ++ ys) k ≡ false
    → (contains xs k ≡ false) × (contains ys k ≡ false)
append_false xs ys k h = ground (arith, contains-append xs ys k)

module _ (t : Target) (k : String) where
  mutual
    unfolding exec stmt_writes

    pub exec-SameAt :
        (s : Stmt) (m m' : Machine)
        → contains (stmt_writes s) k ≡ false
        → exec t s m ≡ some m'
        → SameAt k m m'
    exec-SameAt (assign j e b) m m' h r =
        let (v, p, r1) = bind_word (eval t m.cur e) _ r in
        rw (of_some r1) (write-SameAt b j _ m k h)
    exec-SameAt (slice_assign j hi lo e b) m m' h r =
        let (x, _, r1) = bind_word (eval t m.cur hi) _ r in
        let (y, _, r2) = bind_word (eval t m.cur lo) _ r1 in
        let (z, _, r3) = bind_word (eval t m.cur e) _ r2 in
        rw (of_some r3) (write-SameAt b j _ m k h)
    exec-SameAt (mem_write j addr e b) m m' h r =
        let (x, _, r1) = bind_word (eval t m.cur addr) _ r in
        let (y, _, r2) = bind_word (eval t m.cur e) _ r1 in
        rw (of_some r2) (write-SameAt b j _ m k h)
    exec-SameAt (if_else c yes_body no_body) m m' h r =
        let (z, _, r2) = bind_word (eval t m.cur c) _ r in
        let (hy, hn) = append_false (stmts_writes yes_body) (stmts_writes no_body) k h in
        elim (Bool-cases (truthy z)) [
          | inl e ↦ exec_all-SameAt yes_body m m' hy (rw e at r2)
          | inr e ↦ exec_all-SameAt no_body m m' hn (rw e at r2)
        ]
    exec-SameAt (case s cs default) m m' h r =
        let (z, _, r2) = bind_word (eval t m.cur s) _ r in
        let (hc, hd) = append_false (cases_writes cs) (stmts_writes default) k h in
        exec_cases-SameAt cs z (exec_all t default m) m m' (exec_all-SameAt default m m' hd) hc r2
    exec-SameAt (group ss) m m' h r = rw (of_some r) (refl, refl)
    exec-SameAt (delay e) m m' h r = cc
    exec-SameAt (display fmt es) m m' h r = cc
    exec-SameAt finish m m' h r = cc
    exec-SameAt (repeat n b label) m m' h r = cc
    exec-SameAt (for_loop x a b body label) m m' h r = cc
    exec-SameAt (disable label) m m' h r = cc

    pub exec_all-SameAt :
        (ss : Stmts) (m m' : Machine)
        → contains (stmts_writes ss) k ≡ false
        → exec_all t ss m ≡ some m'
        → SameAt k m m'
    exec_all-SameAt snil m m' h r = rw (of_some r) (refl, refl)
    exec_all-SameAt (scons s ss) m m' h r =
        let (hs, hss) = append_false (stmt_writes s) (stmts_writes ss) k h in
        let (m1, p, r1) = >>=-eq-some (exec t s m) _ r in
        let a = exec-SameAt s m m1 hs p in
        let b = exec_all-SameAt ss m1 m' hss r1 in (b.0 ∙ a.0, b.1 ∙ a.1)

    exec_cases-SameAt :
        (cs : Cases) (z : ℤ) (otherwise : Option Machine) (m m' : Machine)
        → (otherwise ≡ some m' → SameAt k m m')
        → contains (cases_writes cs) k ≡ false
        → exec_cases t z cs otherwise m ≡ some m'
        → SameAt k m m'
    exec_cases-SameAt cnil z otherwise m m' ho h r = ho r
    exec_cases-SameAt (ccons e body cs) z otherwise m m' ho h r =
        let (a, _, r2) = bind_word (eval t m.cur e) _ r in
        let (hb, hc) = append_false (stmts_writes body) (cases_writes cs) k h in
        elim (Bool-cases (eq_ℤ z a)) [
          | inl d ↦ exec_all-SameAt body m m' hb (rw d at r2)
          | inr d ↦ exec_cases-SameAt cs z otherwise m m' ho hc (rw d at r2)
        ]
