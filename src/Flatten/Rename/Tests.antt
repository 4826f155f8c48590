-- ===== src/Flatten/Rename/Tests.antt =====
-- Witnesses of the renaming.
use veripy.Base.{
  ◌≡◌, refl, String, Bool, true, false, List, [], ◌∷◌, some, none, same, if◌then◌else◌,
}
use veripy.Base.Int.{ℤ, pos, ◌+ℤ◌}
use veripy.Ir.{Expr, sig, param, bin_op, concat, econs, enil, plus}
use veripy.Ir.Value.{word, State, Target, apply_binary}
use veripy.Ir.Meaning.{eval}
use veripy.Flatten.Rename.{Renaming, rn, rename_expr}
use veripy.Flatten.Rename.Meaning.{Resolves, eval-rename_expr}

-- A target on which slices, memories and division are absent; every parameter is eight.
abbrev target : Target
target = record {
  rest = λ op a b. none;
  param_value = λ x. some (pos 8);
  width = λ x. some 8;
  slice_of = λ v h l. v;
  bit_of = λ v l. v;
  index_of = λ v k. none;
  concat_of = λ ps. pos 0;
  clz_of = λ w v. v;
  ctz_of = λ w v. v;
  popcount_of = λ w v. v;
  sext_of = λ s d v. v;
  truncate = λ k v. v;
  splice = λ k old h l v. old;
  store = λ k old a v. old;
}

abbrev prefix : Renaming
prefix = ("a", "u_a") ∷ ("q", "u_q") ∷ []

abbrev eight : List (String × ℤ)
eight = ("W", pos 8) ∷ []

abbrev sum : Expr
sum = bin_op plus (sig "a") (param "W")

abbrev inputs : State
inputs k = if same k "u_a" then word (pos 3) else word (pos 0)

of_eight : (b : Bool) (z : ℤ) → (if b then some (pos 8) else none) ≡ some z → some (pos 8) ≡ some z
of_eight true z h = h
of_eight false z h = absurd cc

eight-Resolves : Resolves prefix target eight
eight-Resolves x z h = of_eight (same "W" x) z h

eval-rename_expr_example : eval target inputs (rename_expr prefix eight sum) ≡ some (word (pos 11))
unfolding eval apply_binary ◌+ℤ◌ rn same
eval-rename_expr_example = eval-rename_expr prefix eight target inputs sum eight-Resolves

-- The parameter of a part of a concatenation is not resolved.
concat_param :
    rename_expr prefix eight (concat (econs (param "W") enil)) ≡ concat (econs (param "W") enil)
unfolding rename_expr rn same
concat_param = refl
