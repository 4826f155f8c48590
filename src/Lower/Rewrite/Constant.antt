-- ===== src/Lower/Rewrite/Constant.antt =====
-- The value of a constant in the body of an unrolled loop: rewriting the loop variable to a number
-- is binding it, and folding keeps values.
use veripy.Base.{
  ◌≡◌, refl, ◌∙◌, sym, ap, String, false, ◌∷◌, [], Option, none, some, of_some, Bool-cases, inl,
  inr, same, same→eq, same_refl, contains, arith,
}
use veripy.Base.Int.{ℤ}
use veripy.Lower.Outcome.{Outcome, ok, >>=-eq-ok, of_ok}
use veripy.Lower.Ast.{
  Ast, number, boolean, name, attribute, py_binary, py_bool, py_unary, py_compare, subscript,
  py_slice, call, py_list, if_exp, PyBinary, PyUnary, usub,
}
use veripy.Lower.Scope.{
  object, integer, Scope, classify, resolve_found, resolve_name, fold_op, apply_fold,
  constant_value, const_eval,
}
use veripy.Lower.Rewrite.{
  whole, rewrite, number_rule, literal, fold_literals, try_fold_ast, fold_or, fold, fold_all,
}

-- The scope in which the loop variable is bound to a number, as a local variable of Python is.
abbrev pub bind : Scope → String → ℤ → Scope
bind sc x z = record sc {
  freevars = (x, object (record { value = integer z; fields = [] })) ∷ sc.freevars;
}

same_comm : (x y : String) → same x y ≡ same y x
same_comm x y = ground (arith, same→eq x y, same→eq y x, same_refl x, same_refl y)

whole-number_rule : (x : String) (z : ℤ) (e : Ast) (a : String) → whole (number_rule x z) e a ≡ none
unfolding number_rule
whole-number_rule x z (name y) a = refl
whole-number_rule x z e a = refl

const_eval-name_rewrite :
    (sc : Scope) (x : String) (z : ℤ) (y : String)
    → contains sc.params x ≡ false
    → const_eval sc (rewrite (number_rule x z) (name y)) ≡ const_eval (bind sc x z) (name y)
unfolding const_eval rewrite number_rule resolve_name resolve_found classify constant_value
const_eval-name_rewrite sc x z y h = elim (Bool-cases (same y x)) [
  | inl e ↦ (let p = same→eq y x e in rw (e, sym (same_comm y x) ∙ e, subst_name p) refl)
  | inr e ↦ rw (e, sym (same_comm y x) ∙ e) refl
]
  where
    subst_name : y ≡ x → contains sc.params y ≡ false
    subst_name p = ap (contains sc.params) p ∙ h

const_eval-rewrite :
    (sc : Scope) (x : String) (z : ℤ) (e : Ast)
    → contains sc.params x ≡ false
    → const_eval sc (rewrite (number_rule x z) e) ≡ const_eval (bind sc x z) e
unfolding const_eval rewrite
const_eval-rewrite sc x z (name y) h = const_eval-name_rewrite sc x z y h
const_eval-rewrite sc x z (py_binary op l r) h =
    rw (const_eval-rewrite sc x z l h, const_eval-rewrite sc x z r h) refl
const_eval-rewrite sc x z (py_unary usub e) h = rw (const_eval-rewrite sc x z e h) refl
const_eval-rewrite sc x z (attribute e a) h = rw (whole-number_rule x z e a) refl
const_eval-rewrite sc x z e h = refl

const_eval-literal : (sc : Scope) (e : Ast) (z : ℤ) → literal e ≡ some z → const_eval sc e ≡ ok z
unfolding literal const_eval
const_eval-literal sc (number c) z h = cc
const_eval-literal sc (boolean b) z h = cc
const_eval-literal sc e z h = cc

-- What folding two literals gives is worth what the operation is.
folded_literals :
    (sc : Scope) (op : PyBinary) (l r e : Ast)
    → try_fold_ast op l r ≡ ok (some e)
    → const_eval sc e ≡ const_eval sc (py_binary op l r)
unfolding try_fold_ast const_eval apply_fold
folded_literals sc op l r e h = by_literals (literal l) (literal r) (fold_op op) refl refl refl h
  where
    by_literals :
        (a b : Option ℤ) (f : Option (ℤ → ℤ → Outcome ℤ))
        → literal l ≡ a
        → literal r ≡ b
        → fold_op op ≡ f
        → fold_literals a b f ≡ ok (some e)
        → const_eval sc e ≡ const_eval sc (py_binary op l r)
    by_literals (some a) (some b) (some f) ha hb hf h =
        let (z, hz, h1) = >>=-eq-ok (f a b) _ h in
        rw (const_eval-literal sc l a ha, const_eval-literal sc r b hb, hf, hz) (number_value z h1)
      where
        number_value :
            (z : ℤ)
            → ◌≡◌ {A = Outcome (Option Ast)} (ok (some (number z))) (ok (some e))
            → const_eval sc e ≡ ok z
        number_value z h1 = rw (of_some (of_ok h1)) refl
    by_literals none b f ha hb hf h = cc
    by_literals (some a) none f ha hb hf h = cc
    by_literals (some a) (some b) none ha hb hf h = cc

const_eval-fold : (sc : Scope) (e e' : Ast) → fold e ≡ ok e' → const_eval sc e' ≡ const_eval sc e
unfolding const_eval fold
const_eval-fold sc (py_binary op l r) e' h =
    let (folded, hf, h1) = >>=-eq-ok (try_fold_ast op l r) _ h in
    by_folded folded hf h1 (const_eval-fold sc l) (const_eval-fold sc r)
  where
    by_folded :
        (o : Option Ast)
        → try_fold_ast op l r ≡ ok o
        → fold_or o op (fold l) (fold r) ≡ ok e'
        → ((f : Ast) → fold l ≡ ok f → const_eval sc f ≡ const_eval sc l)
        → ((f : Ast) → fold r ≡ ok f → const_eval sc f ≡ const_eval sc r)
        → const_eval sc e' ≡ const_eval sc (py_binary op l r)
    by_folded (some f) hf h1 kl kr = rw (← of_ok h1) (folded_literals sc op l r f hf)
    by_folded none hf h1 kl kr =
        let (f, hl, h2) = >>=-eq-ok (fold l) _ h1 in
        let (g, hr, h3) = >>=-eq-ok (fold r) _ h2 in rw (← of_ok h3) (rw (kl f hl, kr g hr) refl)
const_eval-fold sc (py_unary op e) e' h =
    let (f, hf, h1) = >>=-eq-ok (fold e) _ h in
    rw (← of_ok h1) (unary_value op e f (const_eval-fold sc e f hf))
  where
    unary_value :
        (op : PyUnary) (e f : Ast)
        → const_eval sc f ≡ const_eval sc e
        → const_eval sc (py_unary op f) ≡ const_eval sc (py_unary op e)
    unary_value usub e f p = rw p refl
    unary_value op e f p = refl
const_eval-fold sc (attribute e a) e' h =
    let (f, _, h1) = >>=-eq-ok (fold e) _ h in rw (← of_ok h1) refl
const_eval-fold sc (py_bool op es) e' h =
    let (f, _, h1) = >>=-eq-ok (fold_all es) _ h in rw (← of_ok h1) refl
const_eval-fold sc (py_compare e ops es) e' h =
    let (f, _, h1) = >>=-eq-ok (fold e) _ h in
    let (g, _, h2) = >>=-eq-ok (fold_all es) _ h1 in rw (← of_ok h2) refl
const_eval-fold sc (subscript e i) e' h =
    let (f, _, h1) = >>=-eq-ok (fold e) _ h in
    let (g, _, h2) = >>=-eq-ok (fold i) _ h1 in rw (← of_ok h2) refl
const_eval-fold sc (py_slice e i) e' h =
    let (f, _, h1) = >>=-eq-ok (fold e) _ h in
    let (g, _, h2) = >>=-eq-ok (fold i) _ h1 in rw (← of_ok h2) refl
const_eval-fold sc (call e es) e' h =
    let (f, _, h1) = >>=-eq-ok (fold e) _ h in
    let (g, _, h2) = >>=-eq-ok (fold_all es) _ h1 in rw (← of_ok h2) refl
const_eval-fold sc (py_list es) e' h =
    let (f, _, h1) = >>=-eq-ok (fold_all es) _ h in rw (← of_ok h1) refl
const_eval-fold sc (if_exp c a b) e' h =
    let (f, _, h1) = >>=-eq-ok (fold c) _ h in
    let (g, _, h2) = >>=-eq-ok (fold a) _ h1 in
    let (k, _, h3) = >>=-eq-ok (fold b) _ h2 in rw (← of_ok h3) refl
const_eval-fold sc e e' h = rw (← of_ok h) refl

-- In the body of an unrolled loop a constant, such as the bound of a loop inside or an index, has
-- the value that it has with the loop variable bound to the number of the iteration: when the folded
-- expression is made, evaluating it in the scope gives what evaluating the expression of the source
-- gives in the scope with that binding, exceptions included. The variable is no parameter.
pub const_eval-subst :
    (sc : Scope) (x : String) (z : ℤ) (e e' : Ast)
    → contains sc.params x ≡ false
    → fold (rewrite (number_rule x z) e) ≡ ok e'
    → const_eval sc e' ≡ const_eval (bind sc x z) e
const_eval-subst sc x z e e' h p =
    const_eval-fold sc (rewrite (number_rule x z) e) e' p ∙ const_eval-rewrite sc x z e h
