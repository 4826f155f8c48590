-- ===== src/Parameter/Scope.antt =====
-- What an expression depends on, and what its text says.
use Prim.Native.String.{String, ◌++◌}
use text.Mathlib.TextLemmas.{append_assoc}
use veripy.Base.{List, [], ◌∷◌, some, ◌>>=◌, lookup, ◌≡◌, refl, ap, ap₂, ◌∙◌, All}
use veripy.Base.Int.{ℤ, ◌+ℤ◌, ◌*ℤ◌}
use veripy.Parameter.{
  Parameter, ParamExpr, Values, Operand, parameter, expression, value, operand_deps, join, binop,
  add, mul,
}

-- Two sets of values agree on parameters.
abbrev pub Agrees : Values → Values → List Parameter → Type 0
Agrees v w ps = All (λ p. lookup p.name v ≡ lookup p.name w) ps

-- The value of an expression is settled by those of the parameters it depends on.
abbrev pub WellScoped : Operand → Type 0
WellScoped o = (v w : Values) → Agrees v w (operand_deps o) → value o v ≡ value o w

left-Agrees : (v w : Values) (ps qs : List Parameter) → Agrees v w (join ps qs) → Agrees v w ps
left-Agrees v w [] qs h = tt
left-Agrees v w (p ∷ ps) qs h = (h.0, left-Agrees v w ps qs h.1)

right-Agrees : (v w : Values) (ps qs : List Parameter) → Agrees v w (join ps qs) → Agrees v w qs
right-Agrees v w [] qs h = h
right-Agrees v w (p ∷ ps) qs h = right-Agrees v w ps qs h.1

-- An operator on operands whose values are settled by the parameters they depend on, gives an
-- expression whose value is settled by those it depends on.
pub binop-WellScoped :
    (str : ℤ → String) (self other : Operand) (op : ℤ → ℤ → ℤ) (op_str : String) (v w : Values)
    → WellScoped self
    → WellScoped other
    → Agrees v w (binop str self other op op_str).deps
    → (binop str self other op op_str).fn v ≡ (binop str self other op op_str).fn w
unfolding binop
binop-WellScoped str self other op op_str v w hs ho h =
    ap₂ (λ x y. x >>= λ a. y >>= λ b. some (op a b))
      (hs v w (left-Agrees v w (operand_deps self) (operand_deps other) h))
      (ho v w (right-Agrees v w (operand_deps self) (operand_deps other) h))

-- `(p + q) * r` and `p + q * r`
abbrev pub sum_first : (ℤ → String) → Parameter → Parameter → Parameter → ParamExpr
sum_first str p q r = mul str (expression (add str (parameter p) (parameter q))) (parameter r)

abbrev pub product_first : (ℤ → String) → Parameter → Parameter → Parameter → ParamExpr
product_first str p q r = add str (parameter p) (expression (mul str (parameter q) (parameter r)))

-- Where three parameters have values, the product of a sum and the sum of a product of them have the
-- same text, and the values that they are built for.
pub name-ambiguous :
    (str : ℤ → String) (p q r : Parameter) (v : Values) (x y z : ℤ)
    → lookup p.name v ≡ some x
    → lookup q.name v ≡ some y
    → lookup r.name v ≡ some z
    → ((sum_first str p q r).name ≡ (product_first str p q r).name)
      × ((sum_first str p q r).fn v ≡ some ((x +ℤ y) *ℤ z))
      × ((product_first str p q r).fn v ≡ some (x +ℤ y *ℤ z))
unfolding binop
name-ambiguous str p q r v x y z hx hy hz = (
  append_assoc p.name ("+" ++ q.name) ("*" ++ r.name)
      ∙ ap (λ t. p.name ++ t) (append_assoc "+" q.name ("*" ++ r.name)),
  rw (hx, hy, hz) refl,
  rw (hx, hy, hz) refl,
)
