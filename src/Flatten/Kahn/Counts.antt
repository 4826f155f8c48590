-- ===== src/Flatten/Kahn/Counts.antt =====
-- Lists of numbers below a bound in which each stands once at most.
use veripy.Base.{
  ℕ, zero, suc, ◌+◌, ◌≤◌, ◌<◌, ◌≡◌, refl, sym, ap, ◌∙◌, List, [], ◌∷◌, ltb, length, count, arith,
}
use native.Mathlib.Decide.{dec_lt}
use veripy.Flatten.Kahn.Degrees.{one_if}

-- The counts of the numbers below `n`.
sum_counts : ℕ → List ℕ → ℕ
sum_counts zero xs = 0
sum_counts (suc n) xs = count n xs + sum_counts n xs

sum_counts-nil : (n : ℕ) → sum_counts n [] ≡ 0
unfolding sum_counts
sum_counts-nil zero = refl
sum_counts-nil (suc n) = omega (arith, sum_counts-nil n)

sum_counts-cons :
    (n x : ℕ) (xs : List ℕ) → sum_counts n (x ∷ xs) ≡ one_if (ltb x n) + sum_counts n xs
unfolding sum_counts
sum_counts-cons zero x xs = ground arith
sum_counts-cons (suc n) x xs = ground (arith, sum_counts-cons n x xs)

length-sum_counts :
    (n : ℕ) (xs : List ℕ) → ((v : ℕ) → n ≤ v → count v xs ≡ 0) → length xs ≡ sum_counts n xs
length-sum_counts n [] h = sym (sum_counts-nil n)
length-sum_counts n (x ∷ xs) h =
    let rest = length-sum_counts n xs (λ v le. ground (arith, h v le)) in
    ground (arith, sum_counts-cons n x xs, h x)

sum_counts-le : (n : ℕ) (xs : List ℕ) → ((v : ℕ) → count v xs ≤ 1) → sum_counts n xs ≤ n
unfolding sum_counts
sum_counts-le zero xs h = omega arith
sum_counts-le (suc n) xs h = omega (arith, h n, sum_counts-le n xs h)

sum_counts-full :
    (n : ℕ) (xs : List ℕ)
    → ((v : ℕ) → count v xs ≤ 1)
    → sum_counts n xs ≡ n
    → (v : ℕ) → v < n
    → count v xs ≡ 1
unfolding sum_counts
sum_counts-full zero xs h e v lt = absurd (omega arith)
sum_counts-full (suc n) xs h e v lt =
    let rest = sum_counts-le n xs h in
    elim (dec_lt v n) [
      | yes below ↦ sum_counts-full n xs h (omega (arith, h n)) v below
      | no top ↦
          let at_top : v ≡ n = omega arith in ap (λ k. count k xs) at_top ∙ omega (arith, h n)
    ]

full-sum_counts : (n : ℕ) (xs : List ℕ) → ((v : ℕ) → v < n → count v xs ≡ 1) → sum_counts n xs ≡ n
unfolding sum_counts
full-sum_counts zero xs h = refl
full-sum_counts (suc n) xs h =
    omega (arith, h n (omega arith), full-sum_counts n xs (λ v lt. h v (omega arith)))

module _ (n : ℕ) (xs : List ℕ) (h : (v : ℕ) → count v xs ≤ one_if (ltb v n)) where
  at_most_one : (v : ℕ) → count v xs ≤ 1
  at_most_one v = ground (arith, h v)

  none_above : (v : ℕ) → n ≤ v → count v xs ≡ 0
  none_above v le = ground (arith, h v)

  pub length-le : length xs ≤ n
  length-le = omega (arith, length-sum_counts n xs none_above, sum_counts-le n xs at_most_one)

  -- They are all there exactly when there are as many as the bound.
  pub count-full : length xs ≡ n → (v : ℕ) → v < n → count v xs ≡ 1
  count-full e v lt =
      sum_counts-full n xs at_most_one (omega (arith, length-sum_counts n xs none_above)) v lt

  pub length-full : ((v : ℕ) → v < n → count v xs ≡ 1) → length xs ≡ n
  length-full all = omega (arith, length-sum_counts n xs none_above, full-sum_counts n xs all)
