-- ===== src/Parameter/Tests.antt =====
-- Witnesses of the parameters.
use Prim.Native.String.{String}
use veripy.Base.{◌≡◌, refl, [], ◌∷◌, some, same}
use veripy.Base.Int.{ℤ, pos, ◌+ℤ◌, ◌*ℤ◌}
use veripy.Parameter.{Parameter, Values}
use veripy.Parameter.Scope.{sum_first, product_first, name-ambiguous}

abbrev a : Parameter
a = record { default = pos 2; name = "a" }

abbrev values : Values
values = ("a", pos 2) ∷ []

abbrev more_values : Values
more_values = ("b", pos 9) ∷ ("a", pos 2) ∷ []

abbrev any_text : ℤ → String
any_text z = "n"

name-ambiguous_example :
    ((sum_first any_text a a a).name ≡ (product_first any_text a a a).name)
    × ((sum_first any_text a a a).fn values ≡ some (pos 8))
    × ((product_first any_text a a a).fn values ≡ some (pos 6))
unfolding ◌+ℤ◌ ◌*ℤ◌ same
name-ambiguous_example = name-ambiguous any_text a a a values (pos 2) (pos 2) (pos 2) refl refl refl
