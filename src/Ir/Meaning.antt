-- ===== src/Ir/Meaning.antt =====
-- A reference meaning of expressions and statements over unbounded integers, against which the
-- passes are proved. `none` is an expression with no value, or a statement of test benches.
use veripy.Base.{
  ◌≡◌, refl, Option-cases, inl, inr, String, Bool, true, false, List, [], ◌∷◌, Option, none, some,
  if◌then◌else◌, ◌>>=◌, same,
}
use veripy.Base.Int.{ℤ, truthy, eq_ℤ}
use veripy.Ir.{
  Expr, Exprs, const, param, sig, bin_op, unary_op, compare, bool_op, mux, slice, slice_lo, index,
  concat, clz, ctz, popcount, sext, enil, econs, Stmt, Stmts, Cases, assign, slice_assign, if_else,
  case, mem_write, delay, display, finish, repeat, for_loop, disable, group, snil, scons, cnil,
  ccons, extend, CombBlock,
}
use veripy.Ir.Value.{
  Value, word, as_word, State, Target, apply_unary, apply_compare, apply_bool, apply_binary,
}
use veripy.Ir.Width.{expr_width}

unfoldable mutual
  pub eval : Target → State → Expr → Option Value
  eval t st (const z) = some (word z)
  eval t st (param x) = t.param_value x >>= λ z. some (word z)
  eval t st (sig x) = some (st x)
  eval t st (bin_op op l r) = do
    a ← eval t st l
    a ← as_word a
    b ← eval t st r
    b ← as_word b
    c ← apply_binary t op a b
    some (word c)
  eval t st (unary_op op e) = do a ← eval t st e; a ← as_word a; some (word (apply_unary op a))
  eval t st (compare op l r) = do
    a ← eval t st l
    a ← as_word a
    b ← eval t st r
    b ← as_word b
    some (word (apply_compare op a b))
  eval t st (bool_op op es) = do zs ← eval_all t st es; some (word (apply_bool op zs))
  eval t st (mux s a b) = do
    c ← eval t st s
    c ← as_word c
    if truthy c then eval t st a else eval t st b
  eval t st (slice e hi lo) = do
    v ← eval t st e
    v ← as_word v
    h ← eval t st hi
    h ← as_word h
    l ← eval t st lo
    l ← as_word l
    some (word (t.slice_of v h l))
  eval t st (slice_lo e lo) = do
    v ← eval t st e
    v ← as_word v
    l ← eval t st lo
    l ← as_word l
    some (word (t.bit_of v l))
  eval t st (index e i) = do
    v ← eval t st e
    k ← eval t st i
    k ← as_word k
    c ← t.index_of v k
    some (word c)
  eval t st (concat es) = do ps ← eval_parts t st es; some (word (t.concat_of ps))
  eval t st (clz e w) = do a ← eval t st e; a ← as_word a; some (word (t.clz_of w a))
  eval t st (ctz e w) = do a ← eval t st e; a ← as_word a; some (word (t.ctz_of w a))
  eval t st (popcount e w) = do a ← eval t st e; a ← as_word a; some (word (t.popcount_of w a))
  eval t st (sext e s d) = do a ← eval t st e; a ← as_word a; some (word (t.sext_of s d a))

  pub eval_all : Target → State → Exprs → Option (List ℤ)
  eval_all t st enil = some []
  eval_all t st (econs e es) = do
    a ← eval t st e
    a ← as_word a
    zs ← eval_all t st es
    some (a ∷ zs)

  pub eval_parts : Target → State → Exprs → Option (List (ℤ × ℤ))
  eval_parts t st enil = some []
  eval_parts t st (econs e es) = do
    a ← eval t st e
    a ← as_word a
    zs ← eval_parts t st es
    some ((expr_width t.width e, a) ∷ zs)

-- A block reads `cur`. A blocking write changes it at once, and every write changes `next`, which
-- the end of the block makes current.
pub record Machine : Type 0 where
  pub cur : State
  pub next : State

abbrev pub update : State → String → Value → State
update st k v j = if same k j then v else st j

abbrev pub write : Bool → String → Value → Machine → Machine
write true k v m = record { cur = update m.cur k v; next = update m.next k v }
write false k v m = record { cur = m.cur; next = update m.next k v }

-- Where a statement is expected, a Python list has no effect: no emitter has a case for it.
unfoldable mutual
  unfolding eval

  pub exec : Target → Stmt → Machine → Option Machine
  exec t (assign k e blocking) m = do
    v ← eval t m.cur e
    v ← as_word v
    some (write blocking k (word (t.truncate k v)) m)
  exec t (slice_assign k hi lo e blocking) m = do
    h ← eval t m.cur hi
    h ← as_word h
    l ← eval t m.cur lo
    l ← as_word l
    v ← eval t m.cur e
    v ← as_word v
    some (write blocking k (t.splice k (if blocking then m.cur k else m.next k) h l v) m)
  exec t (mem_write k addr e blocking) m = do
    a ← eval t m.cur addr
    a ← as_word a
    v ← eval t m.cur e
    v ← as_word v
    some (write blocking k (t.store k (if blocking then m.cur k else m.next k) a v) m)
  exec t (if_else c yes_body no_body) m = do
    v ← eval t m.cur c
    v ← as_word v
    if truthy v then exec_all t yes_body m else exec_all t no_body m
  exec t (case s cs default) m = do
    v ← eval t m.cur s
    v ← as_word v
    exec_cases t v cs (exec_all t default m) m
  exec t (group ss) m = some m
  exec t (delay e) m = none
  exec t (display fmt es) m = none
  exec t finish m = none
  exec t (repeat n b label) m = none
  exec t (for_loop x a b body label) m = none
  exec t (disable label) m = none

  pub exec_all : Target → Stmts → Machine → Option Machine
  exec_all t snil m = some m
  exec_all t (scons s ss) m = do m' ← exec t s m; exec_all t ss m'

  pub exec_cases : Target → ℤ → Cases → Option Machine → Machine → Option Machine
  exec_cases t v cnil otherwise m = otherwise
  exec_cases t v (ccons e body cs) otherwise m = do
    a ← eval t m.cur e
    a ← as_word a
    if eq_ℤ v a then exec_all t body m else exec_cases t v cs otherwise m

-- The combinational blocks in their order; all their writes are blocking in the emitted code.
abbrev pub start : State → Machine
start st = record { cur = st; next = st }

unfoldable pub run_comb : Target → List CombBlock → Machine → Option Machine
unfolding exec
run_comb t [] m = some m
run_comb t (b ∷ bs) m = do m' ← exec_all t b.stmts m; run_comb t bs m'

-- A list of one statement does what the statement does.
pub exec_all_one : (t : Target) (s : Stmt) (m : Machine) → exec_all t (scons s snil) m ≡ exec t s m
unfolding exec
exec_all_one t s m = bind_some (exec t s m)
  where
    bind_some : (o : Option Machine) → (o >>= λ m. some m) ≡ o
    bind_some none = refl
    bind_some (some m) = refl

pub exec_all-extend :
    (t : Target) (xs ys : Stmts) (m : Machine)
    → exec_all t (extend xs ys) m ≡ (exec_all t xs m >>= exec_all t ys)
unfolding exec
exec_all-extend t snil ys m = refl
exec_all-extend t (scons x xs) ys m = elim (Option-cases (exec t x m)) [
  | inl e ↦ rw e refl
  | inr (m', e) ↦ rw e (exec_all-extend t xs ys m')
]
