-- ===== src/Parameter.antt =====
-- veripy/parameter.py: deferred arithmetic on parameters. An expression has a function from the
-- values of the parameters, the parameters it depends on, and its text. `none` is Python's KeyError.
-- `str` of an integer is an argument; floor division, comparisons and `clog2` are left out.
pub mod Scope
mod Tests
use Prim.Native.String.{String, ◌++◌}
use veripy.Base.{List, [], ◌∷◌, Option, some, none, ◌>>=◌, lookup}
use veripy.Base.Int.{ℤ, ◌+ℤ◌, ◌-ℤ◌, ◌*ℤ◌}

abbrev pub Values : Type 0
Values = List (String × ℤ)

pub record Parameter : Type 0 where
  pub default : ℤ
  pub name : String

pub record ParamExpr : Type 0 where
  pub fn : Values → Option ℤ
  pub deps : List Parameter
  pub name : String

-- `self._deps + other._deps`
abbrev pub join : List Parameter → List Parameter → List Parameter
join [] qs = qs
join (p ∷ ps) qs = p ∷ join ps qs

-- What may stand beside an operator.
pub data Operand : Type 0 where
  parameter : Parameter → Operand
  expression : ParamExpr → Operand
  number : ℤ → Operand

abbrev pub value : Operand → Values → Option ℤ
value (parameter p) v = lookup p.name v
value (expression e) v = e.fn v
value (number z) v = some z

abbrev pub operand_deps : Operand → List Parameter
operand_deps (parameter p) = p ∷ []
operand_deps (expression e) = e.deps
operand_deps (number z) = []

-- `_vname`
abbrev pub vname : (ℤ → String) → Operand → String
vname str (parameter p) = p.name
vname str (expression e) = e.name
vname str (number z) = str z

-- `_binop` of both classes; `self` is a parameter or an expression there.
pub binop : (ℤ → String) → Operand → Operand → (ℤ → ℤ → ℤ) → String → ParamExpr
binop str self other op op_str = record {
  fn = λ v. value self v >>= λ a. value other v >>= λ b. some (op a b);
  deps = join (operand_deps self) (operand_deps other);
  name = vname str self ++ (op_str ++ vname str other);
}

module _ (str : ℤ → String) where
  abbrev pub add : Operand → Operand → ParamExpr
  add self other = binop str self other (λ a b. a +ℤ b) "+"

  abbrev pub sub : Operand → Operand → ParamExpr
  sub self other = binop str self other (λ a b. a -ℤ b) "-"

  -- `other - self`, for a number on the left.
  abbrev pub rsub : Operand → Operand → ParamExpr
  rsub self other = binop str self other (λ a b. b -ℤ a) "-"

  abbrev pub mul : Operand → Operand → ParamExpr
  mul self other = binop str self other (λ a b. a *ℤ b) "*"

-- The default of every parameter that an expression depends on.
abbrev pub defaults : List Parameter → Values
defaults [] = []
defaults (p ∷ ps) = (p.name, p.default) ∷ defaults ps
