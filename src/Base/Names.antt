-- ===== src/Base/Names.antt =====
-- Signal names, Python's sets of names and its dictionaries keyed by names.
use Prim.Native.String.{String}
use mathlib.Core.Path.{◌≡◌, refl, ap}
use mathlib.Core.Bool.{Bool, true, false, ◌||◌}
use mathlib.Core.Logic.{inl, inr}
use mathlib.Core.Option.{Option, none, some}
use mathlib.Core.List.{List, [], ◌∷◌, ◌++◌}
use native.Mathlib.Omega.{arith}
use text.Mathlib.Text.{◌==◌ as str_eq}
use text.Mathlib.TextEquality.{eq_iff}
use veripy.Base.Tests.{if◌then◌else◌, Bool-cases}

-- Equality of two names.
unfoldable pub same : String → String → Bool
same s t = str_eq s t

pub same→eq : (s t : String) → same s t ≡ true → s ≡ t
unfolding same
same→eq s t h = (eq_iff s t).0 h

pub same_refl : (s : String) → same s s ≡ true
unfolding same
same_refl s = (eq_iff s s).1 refl

-- A set of names is a list of its elements, read only by `contains`.
abbrev pub contains : List String → String → Bool
contains [] k = false
contains (x ∷ xs) k = same x k || contains xs k

-- `a & b`, read as a truth value.
abbrev pub meets : List String → List String → Bool
meets [] b = false
meets (x ∷ xs) b = contains b x || meets xs b

pub contains-append :
    (xs ys : List String) (k : String) → contains (xs ++ ys) k ≡ contains xs k || contains ys k
contains-append [] ys k = refl
contains-append (x ∷ xs) ys k = ground (arith, contains-append xs ys k)

pub contains-append_left :
    (xs ys : List String) (k : String) → contains xs k ≡ true → contains (xs ++ ys) k ≡ true
contains-append_left xs ys k h = ground (arith, contains-append xs ys k)

pub contains-append_right :
    (xs ys : List String) (k : String) → contains ys k ≡ true → contains (xs ++ ys) k ≡ true
contains-append_right xs ys k h = ground (arith, contains-append xs ys k)

-- A dictionary is an association list in which the first match counts.
module _ {ℓ} {V : Type ℓ} where
  abbrev pub lookup : String → List (String × V) → Option V
  lookup k [] = none
  lookup k ((j, v) ∷ m) = if same j k then some v else lookup k m

  -- `d[k] = v`: an old entry keeps its place.
  abbrev pub insert : String → V → List (String × V) → List (String × V)
  insert k v [] = (k, v) ∷ []
  insert k v ((j, w) ∷ m) = if same j k then (k, v) ∷ m else (j, w) ∷ insert k v m

  -- `{k: v for k, v in d.items() if keep(k)}`
  abbrev pub filter_keys : (String → Bool) → List (String × V) → List (String × V)
  filter_keys keep [] = []
  filter_keys keep ((j, v) ∷ m) = if keep j then (j, v) ∷ filter_keys keep m else filter_keys keep m

  pub lookup-insert :
      (k j : String) (v : V) (m : List (String × V))
      → lookup j (insert k v m) ≡ (if same k j then some v else lookup j m)
  lookup-insert k j v [] = refl
  lookup-insert k j v ((i, w) ∷ m) =
      ground (arith, same→eq i k, same→eq k j, same→eq i j, same_refl k, lookup-insert k j v m)

  pub lookup-filter_keys :
      (keep : String → Bool) (k : String) (m : List (String × V))
      → lookup k (filter_keys keep m) ≡ (if keep k then lookup k m else none)
  lookup-filter_keys keep k [] = ground arith
  lookup-filter_keys keep k ((j, v) ∷ m) = elim (Bool-cases (same j k)) [
    | inl e ↦ ground (arith, ap keep (same→eq j k e), lookup-filter_keys keep k m)
    | inr e ↦ ground (arith, lookup-filter_keys keep k m)
  ]

  pub lookup-filter_keys_inv :
      (keep : String → Bool) (k : String) (m : List (String × V)) {v : V}
      → lookup k (filter_keys keep m) ≡ some v
      → (keep k ≡ true) × (lookup k m ≡ some v)
  lookup-filter_keys_inv keep k m h = elim (Bool-cases (keep k)) [
    | inl e ↦ (e, ground (arith, lookup-filter_keys keep k m))
    | inr e ↦ absurd (ground (arith, lookup-filter_keys keep k m))
  ]
