-- ===== src/Dce/Live/Simulate.antt =====
-- Machines that agree on a set of names which holds all that a statement reads still agree on it
-- after the statement.
use veripy.Base.{
  ◌≡◌, refl, sym, ap, ◌∙◌, String, Bool, true, false, List, ◌++◌, Option, some, >>=-eq-some,
  of_some, Bool-cases, inl, inr, same, same→eq, contains, contains-append_left,
  contains-append_right, if◌then◌else◌,
}
use veripy.Base.Int.{ℤ, truthy, eq_ℤ}
use veripy.Ir.{
  Expr, Stmt, Stmts, Cases, assign, slice_assign, if_else, case, mem_write, delay, display, finish,
  repeat, for_loop, disable, group, snil, scons, cnil, ccons,
}
use veripy.Ir.Value.{State, Target, Value, word, bind_word}
use veripy.Ir.Meaning.{eval, Machine, update, write, exec, exec_all, exec_cases}
use veripy.Flatten.Reads.{expr_reads, stmt_reads, stmts_reads, cases_reads}
use veripy.Dce.Live.Sweep.{Within}
use veripy.Dce.Live.Reads.{AgreeOn, eval-AgreeOn}

-- The machines agree on the names, in both of their states.
abbrev pub SameOn : List String → Machine → Machine → Type 0
SameOn live m n = AgreeOn live m.cur n.cur × AgreeOn live m.next n.next

abbrev pub Simulates : List String → Option Machine → Machine → Type 0
Simulates live o m' = (n' : Machine) × (o ≡ some n') × SameOn live m' n'

update-AgreeOn :
    (live : List String) (k : String) (v w : Value) (a b : State)
    → (contains live k ≡ true → v ≡ w)
    → AgreeOn live a b
    → AgreeOn live (update a k v) (update b k w)
update-AgreeOn live k v w a b e h j c = elim (Bool-cases (same k j)) [
  | inl s ↦ rw s (e (rw (same→eq k j s) c))
  | inr s ↦ rw s (h j c)
]

write-SameOn :
    (live : List String) (b : Bool) (k : String) (v w : Value) (m n : Machine)
    → (contains live k ≡ true → v ≡ w)
    → SameOn live m n
    → SameOn live (write b k v m) (write b k w n)
write-SameOn live true k v w m n e h =
    (update-AgreeOn live k v w m.cur n.cur e h.0, update-AgreeOn live k v w m.next n.next e h.1)
write-SameOn live false k v w m n e h = (h.0, update-AgreeOn live k v w m.next n.next e h.1)

old-SameOn :
    (live : List String) (b : Bool) (k : String) (m n : Machine)
    → SameOn live m n
    → contains live k ≡ true
    → (if b then m.cur k else m.next k) ≡ (if b then n.cur k else n.next k)
old-SameOn live true k m n h c = h.0 k c
old-SameOn live false k m n h c = h.1 k c

pub Within-left : (xs ys live : List String) → Within (xs ++ ys) live → Within xs live
Within-left xs ys live h k c = h k (contains-append_left xs ys k c)

pub Within-right : (xs ys live : List String) → Within (xs ++ ys) live → Within ys live
Within-right xs ys live h k c = h k (contains-append_right xs ys k c)

module _ (t : Target) (live : List String) where
  -- A word that is read in one machine is read in the other.
  word-SameOn :
      (e : Expr) (m n : Machine) (z : ℤ)
      → Within (expr_reads e) live
      → SameOn live m n
      → eval t m.cur e ≡ some (word z)
      → eval t n.cur e ≡ some (word z)
  word-SameOn e m n z w h p = sym (eval-AgreeOn t m.cur n.cur e (λ k c. h.0 k (w k c))) ∙ p

  mutual
    unfolding exec stmt_reads

    exec-Simulates :
        (s : Stmt) (m n m' : Machine)
        → Within (stmt_reads s) live
        → SameOn live m n
        → exec t s m ≡ some m'
        → Simulates live (exec t s n) m'
    exec-Simulates (assign k e b) m n m' w h r =
        let (z, p, r1) = bind_word (eval t m.cur e) _ r in
        (
          write b k (word (t.truncate k z)) n,
          rw (word-SameOn e m n z w h p) refl,
          rw (of_some r1) (write-SameOn live b k _ _ m n (λ c. refl) h),
        )
    exec-Simulates (slice_assign k hi lo e b) m n m' w h r =
        let (x, p, r1) = bind_word (eval t m.cur hi) _ r in
        let (y, q, r2) = bind_word (eval t m.cur lo) _ r1 in
        let (z, u, r3) = bind_word (eval t m.cur e) _ r2 in
        let wb = Within-left (expr_reads hi ++ expr_reads lo) (expr_reads e) live w in
        (
          write b k (t.splice k (if b then n.cur k else n.next k) x y z) n,
          rw
              (
                word-SameOn hi m n x (Within-left (expr_reads hi) (expr_reads lo) live wb) h p,
                word-SameOn lo m n y (Within-right (expr_reads hi) (expr_reads lo) live wb) h q,
                word-SameOn e m n z
                    (Within-right (expr_reads hi ++ expr_reads lo) (expr_reads e) live w) h u,
              )
              refl,
          rw (of_some r3) (
              write-SameOn live b k _ _ m n
                (λ c. ap (λ (o : Value). t.splice k o x y z) (old-SameOn live b k m n h c)) h),
        )
    exec-Simulates (mem_write k addr e b) m n m' w h r =
        let (x, p, r1) = bind_word (eval t m.cur addr) _ r in
        let (z, u, r2) = bind_word (eval t m.cur e) _ r1 in
        (
          write b k (t.store k (if b then n.cur k else n.next k) x z) n,
          rw
              (
                word-SameOn addr m n x (Within-left (expr_reads addr) (expr_reads e) live w) h p,
                word-SameOn e m n z (Within-right (expr_reads addr) (expr_reads e) live w) h u,
              )
              refl,
          rw (of_some r2) (
              write-SameOn live b k _ _ m n
                (λ c. ap (λ (o : Value). t.store k o x z) (old-SameOn live b k m n h c)) h),
        )
    exec-Simulates (if_else c yes_body no_body) m n m' w h r =
        let (z, p, r1) = bind_word (eval t m.cur c) _ r in
        let bodies = stmts_reads yes_body ++ stmts_reads no_body in
        let e = word-SameOn c m n z (Within-left (expr_reads c) bodies live w) h p in
        let wb = Within-right (expr_reads c) bodies live w in
        elim (Bool-cases (truthy z)) [
          | inl d ↦
              rw (e, d)
                (exec_all-Simulates yes_body m n m'
                  (Within-left (stmts_reads yes_body) (stmts_reads no_body) live wb) h (rw d at r1))
          | inr d ↦
              rw (e, d)
                (exec_all-Simulates no_body m n m'
                  (Within-right (stmts_reads yes_body) (stmts_reads no_body) live wb) h
                  (rw d at r1))
        ]
    exec-Simulates (case s cs default) m n m' w h r =
        let (z, p, r1) = bind_word (eval t m.cur s) _ r in
        let bodies = cases_reads cs ++ stmts_reads default in
        let wb = Within-right (expr_reads s) bodies live w in
        rw (word-SameOn s m n z (Within-left (expr_reads s) bodies live w) h p) (
          exec_cases-Simulates cs z (exec_all t default m) (exec_all t default n) m n m'
            (exec_all-Simulates default m n m'
              (Within-right (cases_reads cs) (stmts_reads default) live wb) h)
            (Within-left (cases_reads cs) (stmts_reads default) live wb) h r1)
    exec-Simulates (group ss) m n m' w h r = (n, refl, rw (of_some r) h)
    exec-Simulates (delay e) m n m' w h r = absurd (cc)
    exec-Simulates (display fmt es) m n m' w h r = absurd (cc)
    exec-Simulates finish m n m' w h r = absurd (cc)
    exec-Simulates (repeat k b label) m n m' w h r = absurd (cc)
    exec-Simulates (for_loop x a b body label) m n m' w h r = absurd (cc)
    exec-Simulates (disable label) m n m' w h r = absurd (cc)

    pub exec_all-Simulates :
        (ss : Stmts) (m n m' : Machine)
        → Within (stmts_reads ss) live
        → SameOn live m n
        → exec_all t ss m ≡ some m'
        → Simulates live (exec_all t ss n) m'
    exec_all-Simulates snil m n m' w h r = (n, refl, rw (of_some r) h)
    exec_all-Simulates (scons s ss) m n m' w h r =
        let (m1, p, r1) = >>=-eq-some (exec t s m) _ r in
        let (n1, q, h1) =
          exec-Simulates s m n m1 (Within-left (stmt_reads s) (stmts_reads ss) live w) h p in
        rw q (
          exec_all-Simulates ss m1 n1 m' (Within-right (stmt_reads s) (stmts_reads ss) live w) h1
            r1)

    exec_cases-Simulates :
        (cs : Cases) (z : ℤ) (o o' : Option Machine) (m n m' : Machine)
        → (o ≡ some m' → Simulates live o' m')
        → Within (cases_reads cs) live
        → SameOn live m n
        → exec_cases t z cs o m ≡ some m'
        → Simulates live (exec_cases t z cs o' n) m'
    exec_cases-Simulates cnil z o o' m n m' k w h r = k r
    exec_cases-Simulates (ccons e body cs) z o o' m n m' k w h r =
        let (a, p, r1) = bind_word (eval t m.cur e) _ r in
        let bodies = stmts_reads body ++ cases_reads cs in
        let wb = Within-right (expr_reads e) bodies live w in
        let q = word-SameOn e m n a (Within-left (expr_reads e) bodies live w) h p in
        elim (Bool-cases (eq_ℤ z a)) [
          | inl d ↦
              rw (q, d)
                (exec_all-Simulates body m n m'
                  (Within-left (stmts_reads body) (cases_reads cs) live wb) h (rw d at r1))
          | inr d ↦
              rw (q, d)
                (exec_cases-Simulates cs z o o' m n m' k
                  (Within-right (stmts_reads body) (cases_reads cs) live wb) h (rw d at r1))
        ]
