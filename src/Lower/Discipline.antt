-- ===== src/Lower/Discipline.antt =====
-- What a statement of hardware is, and when an assignment in it may be blocking, for the statements
-- that veripy/lower.py makes.
mod Assign
mod Loop
pub mod Block
use veripy.Base.{
  ◌≡◌, ◌++◌, ℕ, same, same_refl, [], ◌∷◌, arith, refl, ap, String, Bool, true, false, Option, none,
  some, List, ◌⊎◌, inl, inr, subst, if◌then◌else◌,
}
use veripy.Ir.{
  Stmt, Stmts, Cases, assign, slice_assign, if_else, case, mem_write, delay, display, finish,
  repeat, for_loop, disable, group, snil, scons, cnil, ccons, extend,
}
use veripy.Lower.Outcome.{
  Outcome, ok, syntax_error, raised, outside, exhausted, ◌>>=◌, of_ok, >>=-eq-ok,
}
use veripy.Lower.Scope.{Locals}
use veripy.Lower.Assign.{known}

-- An assignment to `x` is blocking as its block is, or it is blocking and `x` a local variable.
abbrev pub Timed : Bool → Locals → String → Bool → Type 0
Timed blocking ls x flag = (flag ≡ blocking) ⊎ ((flag ≡ true) × (known x ls ≡ true))

-- Statements of a test bench, and lists in the place of statements, are none of hardware.
abbrev mutual
  pub Hardware : Bool → Locals → Stmt → Type 0
  Hardware blocking ls (assign x e flag) = Timed blocking ls x flag
  Hardware blocking ls (slice_assign x hi lo e flag) = flag ≡ blocking
  Hardware blocking ls (if_else c yes_body no_body) =
      AllHardware blocking ls yes_body × AllHardware blocking ls no_body
  Hardware blocking ls (case e cs default) =
      CasesHardware blocking ls cs × AllHardware blocking ls default
  Hardware blocking ls (mem_write m a e flag) = flag ≡ blocking
  Hardware blocking ls s = ⊥

  pub AllHardware : Bool → Locals → Stmts → Type 0
  AllHardware blocking ls snil = Unit
  AllHardware blocking ls (scons s ss) = Hardware blocking ls s × AllHardware blocking ls ss

  pub CasesHardware : Bool → Locals → Cases → Type 0
  CasesHardware blocking ls cnil = Unit
  CasesHardware blocking ls (ccons e body cs) =
      AllHardware blocking ls body × CasesHardware blocking ls cs

-- What is known stays known.
pub record Extends (ls ls' : Locals) : Type 0 where
  pub keeps : (x : String) → known x ls ≡ true → known x ls' ≡ true

pub Extends-refl : (ls : Locals) → Extends ls ls
Extends-refl ls = record { keeps = λ x h. h }

pub Extends-trans : {ls ls' ls'' : Locals} → Extends ls ls' → Extends ls' ls'' → Extends ls ls''
Extends-trans e e' = record { keeps = λ x h. e'.keeps x (e.keeps x h) }

pub known-append : (x : String) (ls more : Locals) → known x ls ≡ true → known x (ls ++ more) ≡ true
known-append x [] more h = cc
known-append x ((y, w) ∷ ls) more h = ground (arith, known-append x ls more)

pub known-append_self : (x : String) (w : ℕ) (ls : Locals) → known x (ls ++ (x, w) ∷ []) ≡ true
known-append_self x w [] = ground (arith, same_refl x)
known-append_self x w ((y, v) ∷ ls) = ground (arith, known-append_self x w ls)

mutual
  Hardware-Extends :
      (b : Bool) {ls ls' : Locals} (s : Stmt) → Extends ls ls' → Hardware b ls s → Hardware b ls' s
  Hardware-Extends b (assign x v f) e (inl h) = inl h
  Hardware-Extends b (assign x v f) e (inr h) = inr (h.0, e.keeps x h.1)
  Hardware-Extends b (slice_assign x hi lo v f) e h = h
  Hardware-Extends b (if_else c yes_body no_body) e h =
      (AllHardware-Extends b yes_body e h.0, AllHardware-Extends b no_body e h.1)
  Hardware-Extends b (case c cs default) e h =
      (CasesHardware-Extends b cs e h.0, AllHardware-Extends b default e h.1)
  Hardware-Extends b (mem_write m a v f) e h = h
  Hardware-Extends b (delay d) e h = absurd h
  Hardware-Extends b (display f es) e h = absurd h
  Hardware-Extends b finish e h = absurd h
  Hardware-Extends b (repeat n ss l) e h = absurd h
  Hardware-Extends b (for_loop x lo hi ss l) e h = absurd h
  Hardware-Extends b (disable l) e h = absurd h
  Hardware-Extends b (group ss) e h = absurd h

  pub AllHardware-Extends :
      (b : Bool) {ls ls' : Locals} (ss : Stmts)
      → Extends ls ls'
      → AllHardware b ls ss
      → AllHardware b ls' ss
  AllHardware-Extends b snil e h = _
  AllHardware-Extends b (scons s ss) e h =
      (Hardware-Extends b s e h.0, AllHardware-Extends b ss e h.1)

  CasesHardware-Extends :
      (b : Bool) {ls ls' : Locals} (cs : Cases)
      → Extends ls ls'
      → CasesHardware b ls cs
      → CasesHardware b ls' cs
  CasesHardware-Extends b cnil e h = _
  CasesHardware-Extends b (ccons c body cs) e h =
      (AllHardware-Extends b body e h.0, CasesHardware-Extends b cs e h.1)

pub AllHardware-extend :
    (b : Bool) (ls : Locals) (xs ys : Stmts)
    → AllHardware b ls xs
    → AllHardware b ls ys
    → AllHardware b ls (extend xs ys)
AllHardware-extend b ls snil ys h k = k
AllHardware-extend b ls (scons x xs) ys h k = (h.0, AllHardware-extend b ls xs ys h.1 k)

-- What is returned has the property.
pub data Ensures {A : Type 0} (P : A → Type 0) (o : Outcome A) : Type 0 where
  ensures : ((a : A) → o ≡ ok a → P a) → Ensures P o

pub returned : {A : Type 0} {P : A → Type 0} {o : Outcome A} (a : A) → Ensures P o → o ≡ ok a → P a
returned a (ensures h) e = h a e

pub Ensures-ok : {A : Type 0} {P : A → Type 0} (a : A) → P a → Ensures P (ok a)
Ensures-ok {P} a h = ensures λ b e. subst P (of_ok e) h

pub Ensures-bind :
    {A B : Type 0} {P : B → Type 0} (Q : A → Type 0) (o : Outcome A) (f : A → Outcome B)
    → Ensures Q o
    → ((a : A) → Q a → Ensures P (f a))
    → Ensures P (o >>= f)
Ensures-bind Q o f h k =
    ensures λ b e. let r = >>=-eq-ok o f e in returned b (k r.0 (returned r.0 h r.1)) r.2

-- Nothing is asked of what is returned.
abbrev pub Anything : {A : Type 0} → A → Type 0
Anything a = Unit

pub Ensures-any : {A : Type 0} (o : Outcome A) → Ensures Anything o
Ensures-any o = ensures λ a e. tt

pub Ensures-if :
    {A : Type 0} {P : A → Type 0} (b : Bool) (x y : Outcome A)
    → (b ≡ true → Ensures P x)
    → (b ≡ false → Ensures P y)
    → Ensures P (if b then x else y)
Ensures-if true x y h k = h refl
Ensures-if false x y h k = k refl

pub Ensures-then :
    {A B : Type 0} {P : B → Type 0} (o : Outcome A) (f : A → Outcome B)
    → ((a : A) → Ensures P (f a))
    → Ensures P (o >>= f)
Ensures-then o f h = Ensures-bind Anything o f (Ensures-any o) λ a _. h a

-- Statements of hardware, where what was known is known.
pub record Grown (blocking : Bool) (ls : Locals) (r : Stmts × Locals) : Type 0 where
  pub extends : Extends ls r.1
  pub hardware : AllHardware blocking r.1 r.0

pub Grown-nothing : (b : Bool) (ls : Locals) → Ensures (Grown b ls) (ok (snil, ls))
Grown-nothing b ls = Ensures-ok (snil, ls) (record { extends = Extends-refl ls; hardware = tt })

pub Grown-Extends :
    (b : Bool) {ls ls' : Locals} (o : Outcome (Stmts × Locals))
    → Extends ls ls'
    → Ensures (Grown b ls') o
    → Ensures (Grown b ls) o
Grown-Extends b o e h = ensures λ r q.
    let g = returned r h q in record { extends = Extends-trans e g.extends; hardware = g.hardware }
