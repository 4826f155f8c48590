-- ===== src/Flatten/Rename/Meaning.antt =====
-- Renaming keeps the value of an expression.
use veripy.Base.{
  String, List, [], ◌∷◌, Option, none, some, ◌>>=◌, lookup, ◌≡◌, refl, sym, ap, ap₂, ◌∙◌,
  if◌then◌else◌,
}
use veripy.Base.Int.{ℤ, truthy}
use veripy.Ir.{
  BinaryOp, plus, minus, times, over, modulo, band, bor, bxor, shl, shr, ashr, Expr, Exprs, const,
  param, sig, bin_op, unary_op, compare, bool_op, mux, slice, slice_lo, index, concat, clz, ctz,
  popcount, sext, enil, econs,
}
use veripy.Ir.Value.{Value, word, as_word, State, Target, apply_bool, apply_binary, bind_word_cong}
use veripy.Ir.Meaning.{eval, eval_all, eval_parts}
use veripy.Flatten.Rename.{Renaming, rn, rename_param, rename_expr, rename_exprs}
use veripy.Flatten.Rename.Width.{expr_width-rename_expr}

-- The target and the state behind the renamed names.
abbrev pub seen : Renaming → Target → Target
seen rename t = record t {
  param_value = λ x. t.param_value (rn rename x);
  width = λ x. t.width (rn rename x);
  truncate = λ k. t.truncate (rn rename k);
  splice = λ k. t.splice (rn rename k);
  store = λ k. t.store (rn rename k);
}

abbrev pub seen_state : Renaming → State → State
seen_state rename st = λ x. st (rn rename x)

word_step {ℓ} :
    {B : Type ℓ} (o o' : Option Value) {f g : ℤ → Option B}
    → o ≡ o'
    → ((z : ℤ) → f z ≡ g z)
    → (o >>= λ v. as_word v >>= f) ≡ (o' >>= λ v. as_word v >>= g)
word_step o o' {f = f} e h = ap (λ x. x >>= λ v. as_word v >>= f) e ∙ bind_word_cong o' h

index_step :
    {o o' p p' : Option Value} (g : Value → ℤ → Option ℤ)
    → o ≡ o'
    → p ≡ p'
    → (o >>= λ v. p >>= λ k. as_word k >>= λ k. g v k >>= λ c. some (word c))
      ≡ (o' >>= λ v. p' >>= λ k. as_word k >>= λ k. g v k >>= λ c. some (word c))
index_step g e h =
    ap₂ (λ o p. o >>= λ v. p >>= λ k. as_word k >>= λ k. g v k >>= λ c. some (word c)) e h

-- The values of the resolved parameters.
abbrev pub Resolves : Renaming → Target → List (String × ℤ) → Type 0
Resolves rename t σ =
    (x : String) (z : ℤ) → lookup x σ ≡ some z → t.param_value (rn rename x) ≡ some z

module _ (rename : Renaming) (t : Target) (st : State) where
  binary-seen :
      (op : BinaryOp) (a b : ℤ) → apply_binary t op a b ≡ apply_binary (seen rename t) op a b
  unfolding apply_binary
  binary-seen plus a b = refl
  binary-seen minus a b = refl
  binary-seen times a b = refl
  binary-seen over a b = refl
  binary-seen modulo a b = refl
  binary-seen band a b = refl
  binary-seen bor a b = refl
  binary-seen bxor a b = refl
  binary-seen shl a b = refl
  binary-seen shr a b = refl
  binary-seen ashr a b = refl

  eval-param :
      (o : Option ℤ) (x : String)
      → ((z : ℤ) → o ≡ some z → t.param_value (rn rename x) ≡ some z)
      → eval t st (rename_param rename x o) ≡ eval (seen rename t) (seen_state rename st) (param x)
  unfolding eval
  eval-param none x h = refl
  eval-param (some z) x h = ap (λ o. o >>= λ z. some (word z)) (sym (h z refl))

  mutual
    unfolding eval rename_expr

    eval-rename :
        (σ : List (String × ℤ)) (e : Expr)
        → Resolves rename t σ
        → eval t st (rename_expr rename σ e) ≡ eval (seen rename t) (seen_state rename st) e
    eval-rename σ (const z) h = refl
    eval-rename σ (param x) h = eval-param (lookup x σ) x (h x)
    eval-rename σ (sig x) h = refl
    eval-rename σ (bin_op op l r) h = word_step _ _ (eval-rename σ l h) (λ a.
        word_step _ _ (eval-rename σ r h)
          (λ b. ap (λ o. o >>= λ c. some (word c)) (binary-seen op a b)))
    eval-rename σ (unary_op op e) h = word_step _ _ (eval-rename σ e h) (λ a. refl)
    eval-rename σ (compare op l r) h =
        word_step _ _ (eval-rename σ l h) (λ a. word_step _ _ (eval-rename σ r h) (λ b. refl))
    eval-rename σ (bool_op op es) h =
        ap (λ o. o >>= λ zs. some (word (apply_bool op zs))) (eval_all-rename σ es h)
    eval-rename σ (mux s a b) h =
        word_step _ _ (eval-rename σ s h)
          (λ c. ap₂ (λ x y. if truthy c then x else y) (eval-rename σ a h) (eval-rename σ b h))
    eval-rename σ (slice e hi lo) h = word_step _ _ (eval-rename σ e h) (λ v.
        word_step _ _ (eval-rename σ hi h) (λ x. word_step _ _ (eval-rename σ lo h) (λ y. refl)))
    eval-rename σ (slice_lo e lo) h =
        word_step _ _ (eval-rename σ e h) (λ a. word_step _ _ (eval-rename σ lo h) (λ b. refl))
    eval-rename σ (index e i) h = index_step t.index_of (eval-rename σ e h) (eval-rename σ i h)
    eval-rename σ (concat es) h =
        ap (λ o. o >>= λ ps. some (word (t.concat_of ps))) (eval_parts-rename es)
    eval-rename σ (clz e w) h = word_step _ _ (eval-rename σ e h) (λ a. refl)
    eval-rename σ (ctz e w) h = word_step _ _ (eval-rename σ e h) (λ a. refl)
    eval-rename σ (popcount e w) h = word_step _ _ (eval-rename σ e h) (λ a. refl)
    eval-rename σ (sext e s d) h = word_step _ _ (eval-rename σ e h) (λ a. refl)

    eval_all-rename :
        (σ : List (String × ℤ)) (es : Exprs)
        → Resolves rename t σ
        → eval_all t st (rename_exprs rename σ es)
          ≡ eval_all (seen rename t) (seen_state rename st) es
    eval_all-rename σ enil h = refl
    eval_all-rename σ (econs e es) h =
        word_step _ _ (eval-rename σ e h)
          (λ a. ap (λ o. o >>= λ zs. some (a ∷ zs)) (eval_all-rename σ es h))

    eval_parts-rename :
        (es : Exprs)
        → eval_parts t st (rename_exprs rename [] es)
          ≡ eval_parts (seen rename t) (seen_state rename st) es
    eval_parts-rename enil = refl
    eval_parts-rename (econs e es) = word_step _ _ (eval-rename [] e (λ x z h. absurd cc)) (λ a.
        ap₂ (λ w o. o >>= λ zs. some ((w, a) ∷ zs)) (expr_width-rename_expr rename t.width e)
          (eval_parts-rename es))

-- Where the resolved parameters have their values, a renamed expression has in a state the value that the expression has
-- in the state behind the renamed names.
pub eval-rename_expr :
    (rename : Renaming) (resolved : List (String × ℤ)) (t : Target) (st : State) (e : Expr)
    → Resolves rename t resolved
    → eval t st (rename_expr rename resolved e) ≡ eval (seen rename t) (seen_state rename st) e
eval-rename_expr rename resolved t st e h = eval-rename rename t st resolved e h
