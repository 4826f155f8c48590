-- ===== src/Dce/Live/Reads.antt =====
-- What an expression or a statement does depends only on the names that are counted as read.
use veripy.Base.{
  ◌≡◌, refl, ap, String, true, List, ◌++◌, some, same_refl, contains, contains-append_left,
  contains-append_right, arith,
}
use veripy.Ir.{
  Expr, Exprs, const, param, sig, bin_op, unary_op, compare, bool_op, mux, slice, slice_lo, index,
  concat, clz, ctz, popcount, sext, enil, econs,
}
use veripy.Ir.Value.{State, Target}
use veripy.Ir.Meaning.{eval, eval_all, eval_parts}
use veripy.Flatten.Reads.{expr_reads, exprs_reads}

-- The states agree on the names of the list.
abbrev pub AgreeOn : List String → State → State → Type 0
AgreeOn xs a b = (k : String) → contains xs k ≡ true → a k ≡ b k

pub left : (xs ys : List String) {a b : State} → AgreeOn (xs ++ ys) a b → AgreeOn xs a b
left xs ys h k c = h k (contains-append_left xs ys k c)

pub right : (xs ys : List String) {a b : State} → AgreeOn (xs ++ ys) a b → AgreeOn ys a b
right xs ys h k c = h k (contains-append_right xs ys k c)

module _ (t : Target) (a b : State) where
  mutual
    unfolding eval expr_reads

    pub eval-AgreeOn : (e : Expr) → AgreeOn (expr_reads e) a b → eval t a e ≡ eval t b e
    eval-AgreeOn (const z) h = refl
    eval-AgreeOn (param x) h = refl
    eval-AgreeOn (sig x) h = ap some (h x (ground (arith, same_refl x)))
    eval-AgreeOn (bin_op op l r) h =
        rw
          (
            eval-AgreeOn l (left (expr_reads l) (expr_reads r) h),
            eval-AgreeOn r (right (expr_reads l) (expr_reads r) h),
          )
          refl
    eval-AgreeOn (unary_op op e) h = rw (eval-AgreeOn e h) refl
    eval-AgreeOn (compare op l r) h =
        rw
          (
            eval-AgreeOn l (left (expr_reads l) (expr_reads r) h),
            eval-AgreeOn r (right (expr_reads l) (expr_reads r) h),
          )
          refl
    eval-AgreeOn (bool_op op es) h = rw (eval_all-AgreeOn es h) refl
    eval-AgreeOn (mux s x y) h =
        let p = eval-AgreeOn s (left (expr_reads s) (expr_reads x ++ expr_reads y) h) in
        let h' = right (expr_reads s) (expr_reads x ++ expr_reads y) h in
        rw
          (
            p,
            eval-AgreeOn x (left (expr_reads x) (expr_reads y) h'),
            eval-AgreeOn y (right (expr_reads x) (expr_reads y) h'),
          )
          refl
    eval-AgreeOn (slice e hi lo) h =
        let p = eval-AgreeOn e (left (expr_reads e) (expr_reads hi ++ expr_reads lo) h) in
        let h' = right (expr_reads e) (expr_reads hi ++ expr_reads lo) h in
        rw
          (
            p,
            eval-AgreeOn hi (left (expr_reads hi) (expr_reads lo) h'),
            eval-AgreeOn lo (right (expr_reads hi) (expr_reads lo) h'),
          )
          refl
    eval-AgreeOn (slice_lo e lo) h =
        rw
          (
            eval-AgreeOn e (left (expr_reads e) (expr_reads lo) h),
            eval-AgreeOn lo (right (expr_reads e) (expr_reads lo) h),
          )
          refl
    eval-AgreeOn (index e i) h =
        rw
          (
            eval-AgreeOn e (left (expr_reads e) (expr_reads i) h),
            eval-AgreeOn i (right (expr_reads e) (expr_reads i) h),
          )
          refl
    eval-AgreeOn (concat es) h = rw (eval_parts-AgreeOn es h) refl
    eval-AgreeOn (clz e w) h = rw (eval-AgreeOn e h) refl
    eval-AgreeOn (ctz e w) h = rw (eval-AgreeOn e h) refl
    eval-AgreeOn (popcount e w) h = rw (eval-AgreeOn e h) refl
    eval-AgreeOn (sext e s d) h = rw (eval-AgreeOn e h) refl

    eval_all-AgreeOn :
        (es : Exprs) → AgreeOn (exprs_reads es) a b → eval_all t a es ≡ eval_all t b es
    eval_all-AgreeOn enil h = refl
    eval_all-AgreeOn (econs e es) h =
        rw
          (
            eval-AgreeOn e (left (expr_reads e) (exprs_reads es) h),
            eval_all-AgreeOn es (right (expr_reads e) (exprs_reads es) h),
          )
          refl

    eval_parts-AgreeOn :
        (es : Exprs) → AgreeOn (exprs_reads es) a b → eval_parts t a es ≡ eval_parts t b es
    eval_parts-AgreeOn enil h = refl
    eval_parts-AgreeOn (econs e es) h =
        rw
          (
            eval-AgreeOn e (left (expr_reads e) (exprs_reads es) h),
            eval_parts-AgreeOn es (right (expr_reads e) (exprs_reads es) h),
          )
          refl
