-- ===== src/Lower/Outcome.antt =====
-- What a function of veripy/lower.py does: it returns, raises SyntaxError, which some callers
-- catch, or raises another exception. `outside` is a result that the IR of the model cannot hold: a
-- slice target without an upper bound, a negative width, or arithmetic on a value of Python that is
-- no integer. `exhausted` is no outcome of the code: the fuel of the model has run out.
use veripy.Base.{◌≡◌, refl}

pub data Outcome {ℓ} (A : Type ℓ) : Type ℓ where
  ok : A → Outcome A
  syntax_error raised outside exhausted : Outcome A

infixl 5 ◌>>=◌
abbrev pub ◌>>=◌ {ℓ κ} : {A : Type ℓ} {B : Type κ} → Outcome A → (A → Outcome B) → Outcome B
ok a >>= f = f a
syntax_error >>= f = syntax_error
raised >>= f = raised
outside >>= f = outside
exhausted >>= f = exhausted

pub of_ok {ℓ} : {A : Type ℓ} {a b : A} → ok a ≡ ok b → a ≡ b
of_ok h = cc

-- What returns has returned before, too.
pub >>=-eq-ok {ℓ κ} :
    {A : Type ℓ} {B : Type κ} (o : Outcome A) (next : A → Outcome B) {b : B}
    → (o >>= next) ≡ ok b
    → (a : A) × (o ≡ ok a) × (next a ≡ ok b)
>>=-eq-ok exhausted next h = cc
>>=-eq-ok outside next h = cc
>>=-eq-ok raised next h = cc
>>=-eq-ok syntax_error next h = cc
>>=-eq-ok (ok a) next h = (a, refl, h)
