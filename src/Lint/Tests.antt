-- ===== src/Lint/Tests.antt =====
-- The latch check on a small block.
use veripy.Base.{◌≡◌, refl, [], ◌∷◌, same, String}
use veripy.Base.Int.{pos}
use veripy.Lower.Ast.{
  PyStmts, number, name, attribute, acons, anil, py_assign, aug_assign, add, py_if, pnil, pcons,
}
use veripy.Lint.{latched}

abbrev set : String → PyStmts → PyStmts
set x rest = pcons (py_assign (acons (attribute (name "self") x) anil) (number (pos 1))) rest

-- if self.c: self.a = 1; self.b = 1
-- else: self.b = 1
abbrev block : PyStmts
block = pcons (py_if (attribute (name "self") "c") (set "a" (set "b" pnil)) (set "b" pnil)) pnil

latched-block : latched block ≡ "a" ∷ []
unfolding latched same
latched-block = refl

-- if self.c: self.a += 1, which is not reported although a path without it is there.
abbrev overlooked_block : PyStmts
overlooked_block =
    pcons
      (py_if (attribute (name "self") "c")
        (pcons (aug_assign (attribute (name "self") "a") add (number (pos 1))) pnil) pnil)
      pnil

latched-overlooked : latched overlooked_block ≡ []
unfolding latched
latched-overlooked = refl
