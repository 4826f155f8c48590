-- ===== src/Ip/SyncFifo/Queue.antt =====
-- The queue that a memory holds from a pointer on, going round at the depth.
use native.Mathlib.Nat.{
  mod-add-mod, mod-eq_of_lt, mod-eq-sub-mod, mod-lt, mul-add-mod_self_left, div-add-mod, pow-suc,
  mul_assoc,
}
use native.Mathlib.Decide.{dec_lt}
use veripy.Base.{
  ℕ, zero, suc, ◌+◌, ◌-◌, ◌*◌, ◌/◌, ◌%◌, ◌^◌, ◌<◌, ◌≡◌, ◌≢◌, refl, sym, ap, ap₂, ◌∙◌, List, [], ◌∷◌,
  ◌++◌, length, get_or, set, get_or-set_self, get_or-set_ne, arith,
}

-- `n` words from the pointer `h` on.
abbrev pub stored : List ℕ → ℕ → ℕ → ℕ → List ℕ
stored mem d h zero = []
stored mem d h (suc n) = get_or mem (h % d) 0 ∷ stored mem d (h + 1) n

pub length-stored : (mem : List ℕ) (d h n : ℕ) → length (stored mem d h n) ≡ n
length-stored mem d h zero = refl
length-stored mem d h (suc n) = ap suc (length-stored mem d (h + 1) n)

pub next-mod : (d h h' : ℕ) → h % d ≡ h' % d → (h + 1) % d ≡ (h' + 1) % d
next-mod d h h' e = sym (mod-add-mod h d 1) ∙ (ap (λ x. (x + 1) % d) e ∙ mod-add-mod h' d 1)

-- Only the pointer's remainder counts.
pub stored_cong :
    (mem : List ℕ) (d h h' n : ℕ) → h % d ≡ h' % d → stored mem d h n ≡ stored mem d h' n
stored_cong mem d h h' zero e = refl
stored_cong mem d h h' (suc n) e =
    ap₂ ◌∷◌ (ap (λ x. get_or mem x 0) e) (stored_cong mem d (h + 1) (h' + 1) n (next-mod d h h' e))

-- Fewer than `d` steps do not come back to a slot.
later-ne : (d h k : ℕ) → suc k < d → (h + suc k) % d ≢ h % d
later-ne d h k hk =
    let r = h % d in
    let lt : r < d = mod-lt h (omega arith) in
    let e : (r + suc k) % d ≡ (h + suc k) % d = mod-add-mod h d (suc k) in
    elim (dec_lt (r + suc k) d) [
      | yes p ↦ omega (arith, mod-eq_of_lt p, e)
      | no p ↦ omega (
        arith,
        e,
        mod-eq-sub-mod {n = r + suc k} {m = d} (omega arith),
        mod-eq_of_lt {n = r + suc k - d} {m = d} (omega arith),
      )
    ]

-- A write behind the last word appends it.
pub stored-set :
    (mem : List ℕ) (d x n h i : ℕ)
    → length mem ≡ d
    → n < d
    → i ≡ (h + n) % d
    → stored (set mem i x) d h (suc n) ≡ stored mem d h n ++ (x ∷ [])
stored-set mem d x zero h i l lt e =
    let e' : i ≡ h % d = e ∙ ap (λ y. y % d) (omega arith) in
    let b : i < length mem = omega (arith, mod-lt h lt) in
    ap (λ y. y ∷ []) (ap (λ j. get_or (set mem i x) j 0) (sym e') ∙ get_or-set_self mem i x 0 b)
stored-set mem d x (suc n) h i l lt e =
    ap₂ ◌∷◌ (get_or-set_ne mem x 0 (λ q. later-ne d h n lt (sym e ∙ q)))
      (stored-set mem d x n (h + 1) i l (omega arith) (e ∙ ap (λ y. y % d) (omega arith)))

-- It changes none of the words before it.
pub stored-set_past :
    (mem : List ℕ) (d x n h i : ℕ)
    → n < d
    → i ≡ (h + n) % d
    → stored (set mem i x) d h n ≡ stored mem d h n
stored-set_past mem d x zero h i lt e = refl
stored-set_past mem d x (suc n) h i lt e =
    ap₂ ◌∷◌ (get_or-set_ne mem x 0 (λ q. later-ne d h n lt (sym e ∙ q)))
      (stored-set_past mem d x n (h + 1) i (omega arith) (e ∙ ap (λ y. y % d) (omega arith)))

-- A pointer that wraps at a multiple of the depth keeps its remainder.
pub wrap-mod : (k p : ℕ) → p % 2 ^ (k + 1) % 2 ^ k ≡ p % 2 ^ k
wrap-mod k p =
    let m = 2 ^ (k + 1) in
    let q = p / m in
    let double : m ≡ 2 ^ k * 2 = ap (λ x. 2 ^ x) (omega arith) ∙ pow-suc 2 k in
    let e : p ≡ 2 ^ k * (2 * q) + p % m =
      sym (div-add-mod p m)
      ∙ ap (λ x. x + p % m) (ap (λ x. x * q) double ∙ mul_assoc (2 ^ k) 2 q) in
    sym (ap (λ y. y % 2 ^ k) e ∙ mul-add-mod_self_left (2 ^ k) (2 * q) (p % m))
