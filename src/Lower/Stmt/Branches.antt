-- ===== src/Lower/Stmt/Branches.antt =====
-- What an `if` on a test of equality does, against a branch of a case statement.
use veripy.Base.{
  ◌≡◌, refl, sym, ◌∙◌, ap, Bool, true, false, Option, none, some, ◌>>=◌, if◌then◌else◌, arith,
}
use veripy.Base.Int.{ℤ, pos, negsuc, eq_ℤ, truthy, of_bool}
use veripy.Ir.{Expr, compare, eq, Stmt, Stmts, Cases, if_else, case, snil, scons, cnil, ccons}
use veripy.Ir.Value.{Value, word, array, as_word, Target, apply_compare}
use veripy.Ir.Meaning.{eval, Machine, exec, exec_all, exec_cases, exec_all_one}

-- `q` is true where the words that `e` and `p` stand for are equal, and has no value where one of
-- them has none.
pub IsEquality : Target → Expr → Expr → Expr → Type 0
IsEquality t q e p =
    (m : Machine) (f : Bool → Option Machine)
    → (eval t m.cur q >>= λ v. as_word v >>= λ z. f (truthy z)) ≡ (
        eval t m.cur e >>= λ v.
        as_word v >>= λ a. eval t m.cur p >>= λ w. as_word w >>= λ b. f (eq_ℤ a b))

eq_ℤ_comm : (a b : ℤ) → eq_ℤ a b ≡ eq_ℤ b a
eq_ℤ_comm (pos a) (pos b) = ground arith
eq_ℤ_comm (negsuc a) (negsuc b) = ground arith
eq_ℤ_comm (pos a) (negsuc b) = refl
eq_ℤ_comm (negsuc a) (pos b) = refl

truthy-of_bool : (b : Bool) → truthy (of_bool b) ≡ b
truthy-of_bool true = refl
truthy-of_bool false = refl

-- The test as `eval` computes it, from what its two sides evaluate to.
abbrev pub tested : Option Value → Option Value → Option Value
tested o o' = do a ← o; a ← as_word a; b ← o'; b ← as_word b; some (word (of_bool (eq_ℤ a b)))

abbrev pub decide : (Bool → Option Machine) → Option Value → Option Value → Option Machine
decide f o o' = o >>= λ v. as_word v >>= λ a. o' >>= λ w. as_word w >>= λ b. f (eq_ℤ a b)

decide-tested :
    (f : Bool → Option Machine) (o o' : Option Value)
    → (tested o o' >>= λ v. as_word v >>= λ z. f (truthy z)) ≡ decide f o o'
decide-tested f none o' = refl
decide-tested f (some (array g)) o' = refl
decide-tested f (some (word a)) none = refl
decide-tested f (some (word a)) (some (array g)) = refl
decide-tested f (some (word a)) (some (word b)) = ap f (truthy-of_bool (eq_ℤ a b))

decide_comm : (f : Bool → Option Machine) (o o' : Option Value) → decide f o o' ≡ decide f o' o
decide_comm f none none = refl
decide_comm f none (some (array g)) = refl
decide_comm f none (some (word b)) = refl
decide_comm f (some (array g)) none = refl
decide_comm f (some (array g)) (some (array h)) = refl
decide_comm f (some (array g)) (some (word b)) = refl
decide_comm f (some (word a)) none = refl
decide_comm f (some (word a)) (some (array h)) = refl
decide_comm f (some (word a)) (some (word b)) = ap f (eq_ℤ_comm a b)

pub compare-IsEquality : (t : Target) (e p : Expr) → IsEquality t (compare eq e p) e p
unfolding IsEquality eval apply_compare
compare-IsEquality t e p m f = decide-tested f (eval t m.cur e) (eval t m.cur p)

pub compare-IsEquality_comm : (t : Target) (e p : Expr) → IsEquality t (compare eq p e) e p
unfolding IsEquality eval apply_compare
compare-IsEquality_comm t e p m f =
    decide-tested f (eval t m.cur p) (eval t m.cur e) ∙ decide_comm f _ _

-- The statements do what the branches do on the value of the subject.
pub data Follows (t : Target) (subject : Expr) (cs : Cases) (default plain : Stmts) : Type 0 where
  follows :
      ((m : Machine) (z : ℤ)
        → eval t m.cur subject ≡ some (word z)
        → exec_cases t z cs (exec_all t default m) m ≡ exec_all t plain m)
      → Follows t subject cs default plain

exec-case :
    (t : Target) (m : Machine) (subject : Expr) (cs : Cases) (default : Stmts) (z : ℤ)
    → eval t m.cur subject ≡ some (word z)
    → exec t (case subject cs default) m ≡ exec_cases t z cs (exec_all t default m) m
unfolding exec
exec-case t m subject cs default z h = rw h refl

-- A case statement of its own follows its branches.
pub case-Follows :
    (t : Target) (subject : Expr) (cs : Cases) (default : Stmts)
    → Follows t subject cs default (scons (case subject cs default) snil)
case-Follows t subject cs default =
    follows λ m z h. sym (exec-case t m subject cs default z h) ∙ sym (exec_all_one t _ m)

-- A branch in front: the test and the statements of the branches after it, as an `if`.
pub exec-branch :
    (t : Target) (subject p q : Expr) (body : Stmts) (cs : Cases) (default plain : Stmts)
    → IsEquality t q subject p
    → Follows t subject cs default plain
    → (m : Machine)
    → exec t (case subject (ccons p body cs) default) m ≡ exec t (if_else q body plain) m
unfolding exec IsEquality
exec-branch t subject p q body cs default plain h (follows k) m =
    at_subject (eval t m.cur subject) refl
    ∙ sym (h m (λ b. if b then exec_all t body m else exec_all t plain m))
  where
    at_subject :
        (o : Option Value)
        → eval t m.cur subject ≡ o
        → (o >>= λ v. as_word v >>= λ z. exec_cases t z (ccons p body cs) (exec_all t default m) m)
          ≡ decide (λ b. if b then exec_all t body m else exec_all t plain m) o (eval t m.cur p)
    at_subject none e = refl
    at_subject (some (array g)) e = refl
    at_subject (some (word z)) e = rw (k m z e) refl

-- No branch is left: the default runs.
pub default-Follows :
    (t : Target) (subject : Expr) (default : Stmts) → Follows t subject cnil default default
unfolding exec
default-Follows t subject default = follows λ m z e. refl

pub exec_all_cong :
    (t : Target) (s s' : Stmt) (m : Machine)
    → exec t s m ≡ exec t s' m
    → exec_all t (scons s snil) m ≡ exec_all t (scons s' snil) m
exec_all_cong t s s' m h = exec_all_one t s m ∙ h ∙ sym (exec_all_one t s' m)
